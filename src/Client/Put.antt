-- ===== src/Client/Put.antt =====
-- S3Client::put.
pub mod Sent
use nanos3reader.Prelude.{
  ℕ, Bool, true, false, not, ◌&&◌, ◌||◌, some, ◌∷◌, ◌++◌, ltb, ◌==◌, if◌then◌else◌, length,
}
use nanos3reader.Text.{Text, codes, is_empty, no_line_break, to_string}
use nanos3reader.Result.{Result, ok, err, ◌>>=◌}
use nanos3reader.World.{World}
use nanos3reader.Http.Upload.{memory}
use nanos3reader.Http.Request.{Call, Reply, new_call, optional}
use nanos3reader.Client.Calls.{
  Client, Done, check_target, http_failure, transferred, exchange, then_with,
}

pub record PutOptions : Type 0 where
  pub content_type : Text
  pub if_none_match : Bool
  pub if_match : Text

abbrev pub max_single_put : ℕ
max_single_put = 5368709120

-- The body, where the checks of put before its request pass; `given` says that the body is not null.
unfoldable pub check_put : Text → Text → Bool → PutOptions → Result Text
check_put uri body given options =
    if not given && not (is_empty body)
    then err (uri ++ codes ": put called with a null body")
    else if ltb max_single_put (length body)
    then err (
        uri
        ++ (codes ": "
            ++ (to_string (length body) ++ codes " bytes is more than one PUT may carry (5 GiB)")))
    else if not (no_line_break options.content_type) || not (no_line_break options.if_match)
    then err (uri ++ codes ": put options must not contain line breaks")
    else ok body

abbrev pub octet_stream : Text → Text
octet_stream content_type =
    codes "Content-Type: "
    ++ (if is_empty content_type then codes "application/octet-stream" else content_type)

unfoldable pub put_call : Text → PutOptions → Text × Text → Call
put_call body options (bucket, key) = record new_call {
  method = codes "PUT";
  bucket = bucket;
  key = key;
  source = some (memory body);
  body_len = length body;
  extra_headers =
      octet_stream options.content_type
      ∷ (optional options.if_none_match (codes "If-None-Match: *")
          ++ optional (not (is_empty options.if_match)) (codes "If-Match: " ++ options.if_match));
}

-- put's result and its *precondition_failed.
pub record PutDone : Type 0 where
  pub etag : Result Text
  pub precondition_failed : Bool

abbrev pub put_failed : Text → PutDone
put_failed e = record { etag = err e; precondition_failed = false }

unfoldable pub put_result : Text → PutOptions → Result Reply → PutDone
put_result uri options (err e) = put_failed e
put_result uri options (ok r) =
    if r.code == 412
    then record {
      etag = err (
          http_failure uri r
          ++ (codes " (precondition failed: "
              ++ ((if options.if_none_match
                    then codes "the object exists"
                    else codes "the ETag differs")
                  ++ codes ")")));
      precondition_failed = true;
    }
    else if r.code == 200
    then record { etag = ok r.etag; precondition_failed = false }
    else put_failed (http_failure uri r)

module _ (w : World) where
  open w use {State}

  unfoldable pub put : Client → Text → Text → Bool → PutOptions → State → Done PutDone State
  put c uri body given options s =
      then_with
        (exchange w c
          (check_target c uri true >>= λ t.
            check_put uri body given options >>= λ b. ok (put_call b options t))
          s)
        (λ r. put_result uri options (r >>= transferred w uri))
