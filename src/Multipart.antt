-- ===== src/Multipart.antt =====
-- The parts of a multipart upload in S3Client::put_file of src/s3_reader.cpp: their size, number and
-- ranges, and what a request's outcome means for the upload.
pub mod Parts
use nanos3reader.Prelude.{
  ℕ, zero, suc, ◌+◌, ◌-◌, ◌*◌, ◌/◌, ◌%◌, ◌^◌, ◌≤◌, ◌<◌, min, max, ◌≡◌, refl, sym, ap, ◌∙◌, subst,
  ◌≢◌, ◌↔◌, ◌⊎◌, inl, inr, Bool, true, false, not, ◌&&◌, ◌||◌, Option, none, some, List, [], ◌∷◌,
  map, ◌++◌, arith, ltb, leb, ◌==◌, if◌then◌else◌, ltb→lt, lt→ltb, leb→le, ==_iff, tests,
  Bool-cases, Option-cases, all_below, all_below_sound, length, get_elem?, take, drop, replicate,
  set, All, length-append, take-append-drop, length-take, length-drop, length-replicate, length-map,
  length-set, take-append, drop-append, take-all, drop-all, get_elem?-take, get_elem?-drop,
  get_elem?-none, All-append, ℤ, pos, negsuc, drop-drop, take-add, take-take,
}
use nanos3reader.Text.{
  Text, codes, text_eq, is_empty, text_lt, starts_with, shift, find_char, find, find_from,
  find_char_from, substr, substr_from, find_first_not_of, find_last_not_of, no_line_break,
  ends_with_char, is_blank, is_space, trim_by, trim, trim_ws, to_string_fuel, to_string, uint64_max,
  parse_digits, parse_u64,
}
use nanos3reader.World.{World, is_valid, no_credentials, second}
use nanos3reader.Xml.Entity.{xml_escape}
use nanos3reader.Http.Wire.{
  CurlCode, read_error, is_retriable_curl, is_curl_ok, is_retriable_status, backoff_loop,
  backoff_ceiling, backoff_ceiling_lem,
}
use nanos3reader.Http.Request.{
  Call, Reply, new_call, is_put, is_post, has_body, call_source, unsigned_payload, memory_hash,
  payload_hash_of, optional, header, sign_headers, header_lines, with_query, final_rc,
  signed_request, send_body, receive, attempt,
}
use nanos3reader.Http.Upload.{
  Source, memory, file, source_bytes, upload_read, upload_all, new_upload,
}
use nanos3reader.Client.Calls.{
  Client, check_target, http_failure, then_with, transfer_failure, transferred, exchange,
}

abbrev pub mib : ℕ
mib = 1048576

-- S3's minimum for all parts but the last.
abbrev pub min_part_size : ℕ
min_part_size = 5242880

abbrev pub max_parts : ℕ
max_parts = 10000

abbrev pub word64 : ℕ → ℕ
word64 n = n % 2 ^ 64

unfoldable pub part_size_for : ℕ → ℕ → ℕ
part_size_for size requested =
    let ps = max requested min_part_size in
    let needed = word64 (size + (max_parts - 1)) / max_parts in
    if ltb ps needed then word64 (word64 (needed + (mib - 1)) / mib * mib) else ps

-- The number of parts.
unfoldable pub part_count : ℕ → ℕ → ℕ
part_count size part_size = word64 (size + part_size + uint64_max) / part_size

abbrev pub part_offset : ℕ → ℕ → ℕ
part_offset part_size i = word64 (i * part_size)

abbrev pub part_len : ℕ → ℕ → ℕ → ℕ
part_len size part_size i = min part_size (size - part_offset part_size i)

-- The call for the part of index `i` of a file that had `size` bytes, out of the bytes that it has.
unfoldable pub part_call : Text × Text → Text → Text → ℕ → ℕ → ℕ → Text → Call
part_call (bucket, key) id_query bytes size part_size i payload_hash = record new_call {
  method = codes "PUT";
  bucket = bucket;
  key = key;
  query = codes "partNumber=" ++ (to_string (i + 1) ++ (codes "&" ++ id_query));
  source = some (file bytes (part_offset part_size i));
  body_len = part_len size part_size i;
  payload_hash = payload_hash;
}

-- One <Part> for each ETag, numbered from `i + 1`.
unfoldable pub part_elements : ℕ → List Text → Text
part_elements i [] = []
part_elements i (etag ∷ etags) =
    codes "<Part><PartNumber>"
    ++ (to_string (i + 1)
        ++ (codes "</PartNumber><ETag>"
            ++ (xml_escape etag ++ (codes "</ETag></Part>" ++ part_elements (i + 1) etags))))

-- The body of the request that completes the upload.
unfoldable pub complete_body : List Text → Text
complete_body etags =
    codes "<CompleteMultipartUpload xmlns=\"http://s3.amazonaws.com/doc/2006-03-01/\">"
    ++ (part_elements 0 etags ++ codes "</CompleteMultipartUpload>")

abbrev pub is_read_error : CurlCode → Bool
is_read_error read_error = true
is_read_error _ = false

-- The error text of one request, empty where it is as expected.
unfoldable pub request_failure : World → Text → Text → Reply → ℕ → Text
request_failure w shown path r expect =
    if is_read_error r.rc
    then path ++ codes ": the file could not be read while uploading (did it change or shrink?)"
    else if r.overflow || not (is_curl_ok r.rc)
    then transfer_failure w shown r
    else if r.code == expect
    then []
    else http_failure shown r
