-- ===== src/Stream/Fetch.antt =====
-- The requests of load_window: one range, with retries and one redirect to another region.
use mathlib.Core.List.{flatten}
use nanos3reader.Prelude.{
  ℕ, zero, suc, ◌+◌, ◌-◌, ◌≤◌, ◌≡◌, refl, inl, inr, Bool, true, not, ◌&&◌, ◌||◌, Option, none, some,
  List, [], ◌∷◌, map, ◌++◌, arith, ltb, ◌==◌, if◌then◌else◌, Bool-cases, take, drop,
}
use nanos3reader.Text.{Text, codes, text_eq, is_empty, trim_ws, to_string}
use nanos3reader.Uri.{Config, Endpoint, build_endpoint}
use nanos3reader.Sigv4.{Header, CanonicalRequest, build_authorization}
use nanos3reader.World.{World, Credentials}
use nanos3reader.Http.Wire.{
  Request, Transfer, is_retriable_curl, is_curl_ok, is_retriable_status, backoff_ceiling,
}
use nanos3reader.Http.Sink.{to_lower}
use nanos3reader.Http.Request.{header, optional, unsigned_payload}
use nanos3reader.Client.Read.{last_byte}

abbrev pub region_key : Text
region_key = codes "x-amz-bucket-region:"

unfoldable pub capture_region_header : Text → Text → Text
unfolding to_lower text_eq trim_ws
capture_region_header region line =
    if text_eq (map to_lower (take 20 line)) region_key then trim_ws (drop 20 line) else region

unfoldable pub capture_region : Text → List Text → Text
capture_region region [] = region
capture_region region (line ∷ lines) = capture_region (capture_region_header region line) lines

-- How the loop over the attempts ends: with a body, at or over the end of the object, or in an error.
pub data Outcome : Type 0 where
  loaded : Text → Bool → Outcome
  past_end : Outcome
  broken : Text → Outcome

-- Which object is read, and how much at a time.
pub record Object : Type 0 where
  pub bucket : Text
  pub key : Text
  pub read_ahead : ℕ

abbrev pub stream_range : ℕ → ℕ → Text
stream_range start read_ahead =
    codes "bytes=" ++ (to_string start ++ (codes "-" ++ to_string (last_byte start read_ahead)))

unfoldable pub stream_headers : Endpoint → Credentials → Text → Text → List Header
stream_headers ep cred range amz_date =
    header (codes "host") ep.host
    ∷ header (codes "range") range
    ∷ header (codes "x-amz-content-sha256") unsigned_payload
    ∷ header (codes "x-amz-date") amz_date
    ∷ optional (not (is_empty cred.session_token))
        (header (codes "x-amz-security-token") cred.session_token)

-- A redirect to the region that the reply names, of a virtual-hosted bucket.
unfoldable pub is_redirect : Config → Text → Transfer → Bool
is_redirect cfg region t =
    let found = capture_region [] t.reply_headers in
    is_curl_ok t.rc
    && (not cfg.path_style
        && ((t.code == 301 || t.code == 307 || t.code == 400)
            && (not (is_empty found) && not (text_eq found region))))

unfoldable pub may_retry : Transfer → Bool
may_retry t = is_retriable_curl t.rc || (is_curl_ok t.rc && is_retriable_status t.code)

module _ (w : World) where
  open w use {State, amz_now, respond, wait, strerror, sha256_raw}

  unfoldable pub stream_request : Config → Credentials → Object → Text → ℕ → State → Request
  stream_request cfg cred object region start s =
      let ep = build_endpoint cfg object.bucket object.key region in
      let range = stream_range start object.read_ahead in
      let amz_date = amz_now s in
      let req : CanonicalRequest = record {
        method = codes "GET";
        uri = ep.path;
        query = [];
        headers = stream_headers ep cred range amz_date;
        payload_hash = unsigned_payload;
      } in
      let authz =
        build_authorization sha256_raw req cred.access_key cred.secret_key region (codes "s3")
          amz_date in
      record {
        method = codes "GET";
        url = ep.url;
        header_lines =
            (codes "x-amz-date: " ++ amz_date)
            ∷ codes "x-amz-content-sha256: UNSIGNED-PAYLOAD"
            ∷ (codes "Range: " ++ range)
            ∷ (optional (not (is_empty cred.session_token))
                  (codes "x-amz-security-token: " ++ cred.session_token)
                ++ (codes "Authorization: " ++ authz) ∷ []);
        body_len = none;
      }

  -- The message of a fetch that failed.
  unfoldable pub fetch_failure : Transfer → Text
  fetch_failure t =
      if is_curl_ok t.rc
      then codes "S3 GET HTTP " ++ (to_string t.code ++ (codes ": " ++ take 512 (flatten t.chunks)))
      else codes "S3 GET transport error: " ++ strerror t.rc

  -- The loop; the region may change once. The fuel bounds the attempts, and `none` means that it ran
  -- out.
  unfoldable pub fetch_loop :
      ℕ
      → Config
      → Credentials
      → Object
      → ℕ
      → Text
      → Bool
      → ℕ
      → State
      → Option (Outcome × Text × State)
  fetch_loop zero cfg cred object start region redirected attempt s = none
  fetch_loop (suc fuel) cfg cred object start region redirected attempt s =
      let (t, s') = respond (stream_request cfg cred object region start s) [] s in
      let redirect =
        fetch_loop fuel cfg cred object start (capture_region [] t.reply_headers) true attempt s' in
      let retry =
        fetch_loop fuel cfg cred object start region redirected (attempt + 1)
          (wait (backoff_ceiling (attempt + 1)) s') in
      if is_curl_ok t.rc && (t.code == 200 || t.code == 206)
      then some (loaded (flatten t.chunks) (t.code == 206), region, s')
      else if is_curl_ok t.rc && t.code == 416
      then some (past_end, region, s')
      else if not redirected && is_redirect cfg region t
      then redirect
      else if may_retry t && ltb (attempt + 1) cfg.max_attempts
      then retry
      else some (broken (fetch_failure t), region, s')

  -- The loop ends, whatever the server does: the attempts left and the one redirect bound its rounds.
  pub fetch_loop-ends :
      (fuel : ℕ) (cfg : Config) (cred : Credentials) (object : Object) (start : ℕ) (region : Text)
      (redirected : Bool) (attempt : ℕ) (s : State)
      → (if redirected then 1 else 2) + (cfg.max_attempts - attempt) ≤ fuel
      → (r : Outcome × Text × State) × (fetch_loop fuel cfg cred object start region redirected
            attempt s
          ≡ some r)
  unfolding fetch_loop
  fetch_loop-ends zero cfg cred object start region redirected attempt s h = absurd (ground arith)
  fetch_loop-ends (suc fuel) cfg cred object start region redirected attempt s h =
      let t = (respond (stream_request cfg cred object region start s) [] s).0 in
      let s' = (respond (stream_request cfg cred object region start s) [] s).1 in
      elim (Bool-cases (is_curl_ok t.rc && (t.code == 200 || t.code == 206))) [
        | inl a ↦ ((loaded (flatten t.chunks) (t.code == 206), region, s'), rw (fetch_loop, a) refl)
        | inr a ↦ elim (Bool-cases (is_curl_ok t.rc && t.code == 416)) [
          | inl b ↦ ((past_end, region, s'), rw (fetch_loop, a, b) refl)
          | inr b ↦ elim (Bool-cases (not redirected && is_redirect cfg region t)) [
            | inl c ↦
                let ih =
                  fetch_loop-ends fuel cfg cred object start (capture_region [] t.reply_headers)
                    true attempt s' (ground arith) in
                (ih.0, rw (fetch_loop, a, b, c) ih.1)
            | inr c ↦ elim (Bool-cases (may_retry t && ltb (attempt + 1) cfg.max_attempts)) [
              | inl d ↦
                  let ih =
                    fetch_loop-ends fuel cfg cred object start region redirected (attempt + 1)
                      (wait (backoff_ceiling (attempt + 1)) s') (ground arith) in
                  (ih.0, rw (fetch_loop, a, b, c, d) ih.1)
              | inr d ↦ ((broken (fetch_failure t), region, s'), rw (fetch_loop, a, b, c, d) refl)
            ]
          ]
        ]
      ]
