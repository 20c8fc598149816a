-- ===== src/Client/Calls.antt =====
-- S3Client::Impl, and what the methods of the client share: the checks before a request, the request,
-- and the messages for a reply that is no success.
use nanos3reader.Prelude.{Bool, not, ◌||◌, [], ◌++◌, if◌then◌else◌}
use nanos3reader.Text.{Text, codes, is_empty, to_string}
use nanos3reader.Result.{Result, ok, err, ◌>>=◌}
use nanos3reader.Uri.{Config, split_s3_uri}
use nanos3reader.Xml.Element.{xml_error_code}
use nanos3reader.World.{World}
use nanos3reader.Http.Wire.{is_curl_ok}
use nanos3reader.Http.Request.{Call, Reply}
use nanos3reader.Http.Retry.{Keys, run_request}

-- S3Client::Impl; `keys` stands for has_fixed_creds, fixed_creds and the credential chain of cfg.
pub record Client : Type 0 where
  pub cfg : Config
  pub keys : Keys
  pub refusal : Text

-- What one method of the client leaves: its result, the client and the state behind it.
pub record Done (A : Type 0) (State : Type 0) : Type 0 where
  pub result : A
  pub client : Client
  pub state : State

-- split_s3_uri, then the client's refusal.
unfoldable pub check_target : Client → Text → Bool → Result (Text × Text)
check_target c uri need_key = split_s3_uri uri need_key >>= λ target.
    if is_empty c.refusal then ok target else err (uri ++ (codes ": " ++ c.refusal))

-- Message for an HTTP status that is not the expected success.
unfoldable pub http_failure : Text → Reply → Text
http_failure shown r =
    let xc = xml_error_code r.text in
    shown
    ++ (codes ": HTTP " ++ (to_string r.code ++ (if is_empty xc then [] else codes " " ++ xc)))

-- What a method makes of the reply.
abbrev pub then_with : {A : Type 0} {B : Type 0} {S : Type 0} → Done A S → (A → B) → Done B S
then_with d f = record { result = f d.result; client = d.client; state = d.state }

module _ (w : World) where
  open w use {State, strerror}

  -- Message for a request that got no usable HTTP response.
  unfoldable pub transfer_failure : Text → Reply → Text
  transfer_failure shown r =
      if r.overflow
      then shown ++ codes ": response body is larger than the request asked for"
      else shown ++ (codes ": " ++ strerror r.rc)

  -- if (r.overflow || r.rc != CURLE_OK) ...
  unfoldable pub transferred : Text → Reply → Result Reply
  transferred shown r =
      if r.overflow || not (is_curl_ok r.rc) then err (transfer_failure shown r) else ok r

  -- A request, unless the checks before it failed; the client keeps the chain's new state.
  unfoldable pub exchange : Client → Result Call → State → Done (Result Reply) State
  exchange c (err e) s = record { result = err e; client = c; state = s }
  exchange c (ok call) s =
      let (r, keys', s') = run_request w c.cfg c.keys call s in
      record { result = r; client = record c { keys = keys' }; state = s' }
