-- ===== src/PutFile/Source.antt =====
-- What put_file asks of the file before its first request, and the upload as one PUT.
use nanos3reader.Prelude.{ℕ, ◌+◌, min, max, Bool, not, none, some, [], ◌∷◌, ◌++◌, if◌then◌else◌}
use nanos3reader.Text.{Text, codes, is_empty, no_line_break}
use nanos3reader.Result.{Result, ok, err, ◌>>=◌, map_err}
use nanos3reader.World.{World}
use nanos3reader.FileHash.{sha256_file_hex}
use nanos3reader.FileHash.Range.{evp}
use nanos3reader.Http.Upload.{file}
use nanos3reader.Http.Request.{Call, Reply, new_call}
use nanos3reader.Client.Calls.{Client, Done, exchange, then_with}
use nanos3reader.Client.Put.{octet_stream}
use nanos3reader.Multipart.{request_failure}

pub record FileUploadOptions : Type 0 where
  pub content_type : Text
  pub sign_payload : Bool
  pub multipart_threshold : ℕ
  pub part_size : ℕ
  pub part_concurrency : ℕ

-- std::filesystem and errno: whether a path is a regular file, with the message of an error or an
-- empty one; its size; and why it cannot be opened. fopen has the bytes of World's read_file.
pub record Disk (State : Type 0) : Type 0 where
  pub is_regular : Text → State → Bool
  pub regular_error : Text → State → Text
  pub file_size : Text → State → Result ℕ
  pub open_error : Text → State → Text

-- kMaxSinglePutBytes
abbrev pub max_single_put_bytes : ℕ
max_single_put_bytes = 5368709120

-- Files from this size on go up in parts.
abbrev pub threshold_of : FileUploadOptions → ℕ
threshold_of options = min (max options.multipart_threshold 1) (max_single_put_bytes + 1)

-- No line break, a regular file, and its size.
unfoldable pub check_file : {S : Type 0} → Disk S → Text → Text → FileUploadOptions → S → Result ℕ
check_file disk uri path options s =
    if not (no_line_break options.content_type)
    then err (uri ++ codes ": the content type must not contain line breaks")
    else if not (disk.is_regular path s)
    then (let message = disk.regular_error path s in
        err (
          path
          ++ (codes ": not a regular file"
              ++ (if is_empty message then [] else codes " (" ++ (message ++ codes ")")))))
    else map_err (λ message. path ++ (codes ": " ++ message)) (disk.file_size path s)

abbrev pub hash_failure : Text → Text
hash_failure path = path ++ codes ": the file could not be read to hash it"

-- `error = request_failure(...); if (!error.empty()) ...`
unfoldable pub accepted : World → Text → Text → Reply → Result Reply
accepted w uri path r =
    let error = request_failure w uri path r 200 in if is_empty error then ok r else err error

module _ (w : World) where
  open w use {State, read_file, sha256_raw}

  -- The payload hash of a range of the file, empty for an unsigned payload.
  unfoldable pub body_hash : FileUploadOptions → Text → Text → ℕ → ℕ → Result Text
  body_hash options path bytes offset len =
      if options.sign_payload
      then elim (sha256_file_hex (evp sha256_raw) bytes offset len) [
        | none ↦ err (hash_failure path)
        | some hash ↦ ok hash
      ]
      else ok []

  unfoldable pub single_call : Text × Text → FileUploadOptions → Text → ℕ → Text → Call
  single_call (bucket, key) options bytes size payload_hash = record new_call {
    method = codes "PUT";
    bucket = bucket;
    key = key;
    source = some (file bytes 0);
    body_len = size;
    extra_headers = octet_stream options.content_type ∷ [];
    payload_hash = payload_hash;
  }

  -- One PUT of the whole file.
  unfoldable pub put_single :
      Disk State
      → Client
      → Text
      → Text
      → Text × Text
      → FileUploadOptions
      → ℕ
      → State
      → Done (Result Text) State
  put_single disk c uri path target options size s = elim (read_file path s) [
    | none ↦ record {
      result = err (path ++ (codes ": " ++ disk.open_error path s));
      client = c;
      state = s;
    }
    | some bytes ↦
        then_with
          (exchange w c
            (body_hash options path bytes 0 size >>= λ hash.
              ok (single_call target options bytes size hash))
            s)
          (λ r. r >>= λ reply. accepted w uri path reply >>= λ done. ok done.etag)
  ]
