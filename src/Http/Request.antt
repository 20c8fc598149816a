-- ===== src/Http/Request.antt =====
-- The parts of run_request that build and make one attempt.
use nanos3reader.Http.Sink.{new_sink, Sink, sink_all, capture_etags}
use nanos3reader.Prelude.{
  ℕ, Bool, true, false, not, ◌||◌, Option, none, some, List, [], ◌∷◌, ◌++◌, if◌then◌else◌,
}
use nanos3reader.Text.{Text, codes, is_empty, text_eq}
use nanos3reader.Uri.{Config, Endpoint, build_endpoint}
use nanos3reader.Sigv4.{Header, CanonicalRequest, build_authorization, sha256_hex}
use nanos3reader.Http.Wire.{read_error, Transfer, Request, CurlCode, write_error}
use nanos3reader.Http.Upload.{new_upload, Upload, upload_all, Source, memory, file}
use nanos3reader.World.{World, Credentials}

-- struct Call; `dst_cap` is `none` for a null destination, and `source` for a call with no body.
pub record Call : Type 0 where
  pub method : Text
  pub bucket : Text
  pub key : Text
  pub query : Text
  pub range : Text
  pub dst_cap : Option ℕ
  pub source : Option Source
  pub body_len : ℕ
  pub payload_hash : Text
  pub extra_headers : List Text

abbrev pub new_call : Call
new_call = record {
  method = [];
  bucket = [];
  key = [];
  query = [];
  range = [];
  dst_cap = none;
  source = none;
  body_len = 0;
  payload_hash = [];
  extra_headers = [];
}

-- struct Reply; `dst` holds the bytes behind `dst_len`.
pub record Reply : Type 0 where
  pub code : ℕ
  pub rc : CurlCode
  pub overflow : Bool
  pub dst : Text
  pub content_length : Option ℕ
  pub text : Text
  pub etag : Text

abbrev pub is_put : Call → Bool
is_put call = text_eq call.method (codes "PUT")

abbrev pub is_post : Call → Bool
is_post call = text_eq call.method (codes "POST")

abbrev pub has_body : Call → Bool
has_body call = is_put call || is_post call

-- No source is an empty body from memory.
abbrev pub call_source : Call → Source
call_source call = elim call.source [ none ↦ memory [] | some s ↦ s ]

abbrev pub unsigned_payload : Text
unsigned_payload = codes "UNSIGNED-PAYLOAD"

-- The hash of a body in memory, for a call that has none of its own.
abbrev pub memory_hash : (Text → Text) → Source → Text
memory_hash sha256_raw (memory body) = sha256_hex sha256_raw body
memory_hash sha256_raw (file bytes offset) = unsigned_payload

unfoldable pub payload_hash_of : (Text → Text) → Call → Text
unfolding text_eq sha256_hex
payload_hash_of sha256_raw call =
    if not (is_empty call.payload_hash)
    then call.payload_hash
    else if has_body call
    then memory_hash sha256_raw (call_source call)
    else unsigned_payload

abbrev pub optional {ℓ} : {A : Type ℓ} → Bool → A → List A
optional true a = a ∷ []
optional false a = []

abbrev pub header : Text → Text → Header
header name value = record { name = name; value = value }

unfoldable pub sign_headers : Call → Endpoint → Credentials → Text → Text → List Header
sign_headers call ep cred payload_hash amz_date =
    header (codes "host") ep.host
    ∷ header (codes "x-amz-content-sha256") payload_hash
    ∷ header (codes "x-amz-date") amz_date
    ∷ (optional (not (is_empty call.range)) (header (codes "range") call.range)
        ++ optional (not (is_empty cred.session_token))
            (header (codes "x-amz-security-token") cred.session_token))

-- The header lines handed to libcurl, in order.
unfoldable pub header_lines : Call → Credentials → Text → Text → Text → List Text
unfolding text_eq
header_lines call cred payload_hash amz_date authz =
    (codes "x-amz-date: " ++ amz_date)
    ∷ (codes "x-amz-content-sha256: " ++ payload_hash)
    ∷ (call.extra_headers
        ++ (optional (has_body call) (codes "Expect:")
            ++ (optional (not (is_empty call.range)) (codes "Range: " ++ call.range)
                ++ (optional (not (is_empty cred.session_token))
                      (codes "x-amz-security-token: " ++ cred.session_token)
                    ++ (codes "Authorization: " ++ authz) ∷ []))))

-- url + "?" + query
abbrev pub with_query : Text → Text → Text
with_query url query = if is_empty query then url else url ++ (codes "?" ++ query)

-- libcurl reports a write callback that stopped the transfer.
abbrev pub final_rc : Bool → CurlCode → CurlCode
final_rc taken rc = if taken then rc else write_error

module _ (w : World) where
  open w use {State, amz_now, read_rooms, respond, sha256_raw}

  unfoldable pub signed_request : Config → Credentials → Call → State → Request
  signed_request cfg cred call s =
      let ep = build_endpoint cfg call.bucket call.key cfg.region in
      let payload_hash = payload_hash_of sha256_raw call in
      let amz_date = amz_now s in
      let req : CanonicalRequest = record {
        method = call.method;
        uri = ep.path;
        query = call.query;
        headers = sign_headers call ep cred payload_hash amz_date;
        payload_hash = payload_hash;
      } in
      let authz =
        build_authorization sha256_raw req cred.access_key cred.secret_key cfg.region (codes "s3")
          amz_date in
      record {
        method = call.method;
        url = with_query ep.url call.query;
        header_lines = header_lines call cred payload_hash amz_date authz;
        body_len = if has_body call then some call.body_len else none;
      }

  -- The body that goes out in a PUT or POST, and the read callback's state behind it.
  unfoldable pub send_body : Request → Call → State → Upload × Text
  send_body req call s =
      let u = new_upload (call_source call) call.body_len in
      if has_body call then upload_all u (read_rooms req s) else (u, [])

  -- The chunks of the reply go to the sink, unless the upload stopped the transfer.
  unfoldable pub receive : Bool → Call → Transfer → Sink × Bool
  receive upload_failed call t =
      if upload_failed
      then (new_sink call.dst_cap, true)
      else sink_all t.code (new_sink call.dst_cap) t.chunks

  -- One attempt: the reply, and whether the local file failed.
  unfoldable pub attempt : Config → Credentials → Call → State → (Reply × Bool) × State
  attempt cfg cred call s =
      let req = signed_request cfg cred call s in
      let (u, sent) = send_body req call s in
      let (t, s') = respond req sent s in
      let (sink, taken) = receive u.failed call t in
      (
        (
          record {
            code = t.code;
            rc = if u.failed then read_error else final_rc taken t.rc;
            overflow = sink.overflow;
            dst = sink.dst;
            content_length = if text_eq call.method (codes "HEAD") then t.content_length else none;
            text = sink.text;
            etag = if is_put call then capture_etags [] t.reply_headers else [];
          },
          u.failed,
        ),
        s',
      )
