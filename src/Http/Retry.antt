-- ===== src/Http/Retry.antt =====
-- The retries of run_request, and the whole of it.
pub mod Bounds
use nanos3reader.Prelude.{
  ℕ, zero, suc, ◌+◌, ◌-◌, ◌*◌, ◌/◌, ◌%◌, ◌^◌, ◌≤◌, ◌<◌, min, max, ◌≡◌, refl, sym, ap, ◌∙◌, subst,
  ◌≢◌, ◌↔◌, ◌⊎◌, inl, inr, Bool, true, false, not, ◌&&◌, ◌||◌, Option, none, some, List, [], ◌∷◌,
  map, ◌++◌, arith, ltb, leb, ◌==◌, if◌then◌else◌, ltb→lt, lt→ltb, leb→le, ==_iff, tests,
  Bool-cases, Option-cases, all_below, all_below_sound, length, get_elem?, take, drop, replicate,
  set, All, length-append, take-append-drop, length-take, length-drop, length-replicate, length-map,
  length-set, take-append, drop-append, take-all, drop-all, get_elem?-take, get_elem?-drop,
  get_elem?-none, All-append,
}
use nanos3reader.Text.{
  Text, codes, text_eq, is_empty, text_lt, starts_with, shift, find_char, find, find_from,
  find_char_from, substr, substr_from, find_first_not_of, find_last_not_of, no_line_break,
  ends_with_char, is_blank, is_space, trim_by, trim, trim_ws, to_string_fuel, to_string, uint64_max,
  parse_digits, parse_u64,
}
use nanos3reader.Result.{Result, ok, err}
use nanos3reader.Uri.{Config}
use nanos3reader.World.{World, Credentials, is_valid, no_credentials, second}
use nanos3reader.Credentials.Provider.{
  Provider, new_provider, has_key, no_pairs, is_open, em_dash, Resolved, is_current, diagnostic_of,
  describe_profile_gap, env_note, imds_note, resolve_imds, resolve_metadata, resolve_profile,
  resolve, get,
}
use nanos3reader.Http.Wire.{
  CurlCode, is_retriable_curl, is_curl_ok, is_retriable_status, backoff_loop, backoff_ceiling,
  backoff_ceiling_lem,
}
use nanos3reader.Http.Request.{
  Call, Reply, new_call, is_put, is_post, has_body, call_source, unsigned_payload, memory_hash,
  payload_hash_of, optional, header, sign_headers, header_lines, with_query, final_rc,
  signed_request, send_body, receive, attempt,
}

-- kClientRetries
abbrev pub client_retries : ℕ
client_retries = 3

-- `http_retriable || transport_retriable`
unfoldable pub is_retriable : Reply → Bool
unfolding is_curl_ok is_retriable_status is_retriable_curl
is_retriable r =
    (is_curl_ok r.rc && is_retriable_status r.code)
    || (not (is_curl_ok r.rc) && (not r.overflow && is_retriable_curl r.rc))

-- Keys given to the client, or the chain with its cache.
pub data Keys : Type 0 where
  fixed : Credentials → Keys
  provided : Provider → Keys

-- "s3://bucket/key" for the messages
abbrev pub shown_uri : Call → Text
shown_uri call =
    codes "s3://" ++ (call.bucket ++ (if is_empty call.key then [] else codes "/" ++ call.key))

module _ (w : World) where
  open w use {State, handle_ok, wait}

  -- The loop over the attempts; `left` is kClientRetries - attempt.
  unfoldable pub attempt_loop : Config → Credentials → Call → ℕ → State → Reply × State
  attempt_loop cfg cred call zero s =
      let ((reply, file_failed), s') = attempt w cfg cred call s in (reply, s')
  attempt_loop cfg cred call (suc left) s =
      let ((reply, file_failed), s') = attempt w cfg cred call s in
      let again =
        attempt_loop cfg cred call left (wait (backoff_ceiling (client_retries - left)) s') in
      if file_failed then (reply, s') else if is_retriable reply then again else (reply, s')

  -- The credentials of a request.
  unfoldable pub request_keys : Keys → State → Credentials × Keys × State
  request_keys (fixed cred) s = (cred, fixed cred, s)
  request_keys (provided p) s = let (cred, p', s') = get w p s in (cred, provided p', s')

  abbrev pub keys_missing : Keys → Credentials → Bool
  keys_missing (fixed c) cred = false
  keys_missing (provided p) cred = not (is_valid cred)

  abbrev pub keys_diagnostic : Keys → Text
  keys_diagnostic (fixed c) = []
  keys_diagnostic (provided p) = diagnostic_of p

  unfoldable pub run_request : Config → Keys → Call → State → Result Reply × Keys × State
  run_request cfg keys call s =
      let (cred, keys', s') = request_keys keys s in
      if keys_missing keys' cred
      then (
        err (
            shown_uri call
            ++ (codes ": missing AWS credentials "
                ++ (em_dash ++ (codes " " ++ keys_diagnostic keys')))),
        keys',
        s',
      )
      else if handle_ok s'
      then (let (reply, s'') = attempt_loop cfg cred call client_retries s' in
          (ok reply, keys', s''))
      else (err (shown_uri call ++ codes ": failed to initialize libcurl handle"), keys', s')
