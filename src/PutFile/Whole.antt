-- ===== src/PutFile/Whole.antt =====
-- put_file as a whole: the checks, one PUT, or the multipart upload with its start, its threads, its
-- completion, and the abort of one that failed.
pub mod Ends
pub mod Completed
pub mod Uploaded
pub mod Aborted
use nanos3reader.Prelude.{
  ℕ, zero, suc, ◌+◌, ◌-◌, ◌*◌, ◌/◌, ◌%◌, ◌^◌, ◌≤◌, ◌<◌, min, max, ◌≡◌, refl, sym, ap, ◌∙◌, subst,
  ◌≢◌, ◌↔◌, ◌⊎◌, inl, inr, Bool, true, false, not, ◌&&◌, ◌||◌, Option, none, some, List, [], ◌∷◌,
  map, ◌++◌, arith, ltb, leb, ◌==◌, if◌then◌else◌, ltb→lt, lt→ltb, leb→le, ==_iff, tests,
  Bool-cases, Option-cases, all_below, all_below_sound, length, get_elem?, take, drop, replicate,
  set, All, length-append, take-append-drop, length-take, length-drop, length-replicate, length-map,
  length-set, take-append, drop-append, take-all, drop-all, get_elem?-take, get_elem?-drop,
  get_elem?-none, All-append, ℤ, pos, negsuc, drop-drop, take-add, take-take, get_elem?-set,
  get_elem?-lt, get_elem?-some,
}
use nanos3reader.Text.{
  Text, codes, is_empty, find, text_eq, text_lt, starts_with, shift, find_char, find_from,
  find_char_from, substr, substr_from, find_first_not_of, find_last_not_of, no_line_break,
  ends_with_char, is_blank, is_space, trim_by, trim, trim_ws, to_string_fuel, to_string, uint64_max,
  parse_digits, parse_u64,
}
use nanos3reader.Result.{Result, ok, err, ◌>>=◌, map_err}
use nanos3reader.Encode.{uri_encode_component}
use nanos3reader.Xml.Element.{xml_tag}
use nanos3reader.World.{World}
use nanos3reader.Http.Upload.{memory}
use nanos3reader.Http.Request.{Call, Reply, new_call}
use nanos3reader.Client.Calls.{Client, Done, check_target, exchange}
use nanos3reader.Client.Put.{octet_stream}
use nanos3reader.Multipart.{part_size_for, part_count, complete_body}
use nanos3reader.PutFile.Source.{
  Disk, FileUploadOptions, max_single_put_bytes, threshold_of, check_file, hash_failure, accepted,
  body_hash, single_call, put_single,
}
use nanos3reader.PutFile.Workers.{
  Shared, Job, Worker, fail_with, of_parts, part_etag, part_request, behind, move, turn, Reach,
  thread_count, is_returned, join, start_pool,
}

-- A call that returns, one that ends in std::length_error, or a run that its fuel cuts off.
pub data Run (A : Type 0) : Type 0 where
  finished : A → Run A
  length_error : Run A
  cut_off : Run A

unfoldable pub create_call : Text × Text → FileUploadOptions → Call
create_call (bucket, key) options = record new_call {
  method = codes "POST";
  bucket = bucket;
  key = key;
  query = codes "uploads=";
  extra_headers = octet_stream options.content_type ∷ [];
}

unfoldable pub abort_call : Text × Text → Text → Call
abort_call (bucket, key) id_query = record new_call {
  method = codes "DELETE";
  bucket = bucket;
  key = key;
  query = id_query;
}

unfoldable pub complete_call : Text × Text → Text → List Text → Call
complete_call (bucket, key) id_query etags =
    let xml = complete_body etags in
    record new_call {
      method = codes "POST";
      bucket = bucket;
      key = key;
      query = id_query;
      source = some (memory xml);
      body_len = length xml;
      extra_headers = codes "Content-Type: application/xml" ∷ [];
    }

abbrev pub id_query_of : Text → Text
id_query_of upload_id = codes "uploadId=" ++ uri_encode_component upload_id

-- Enough for each part's steps and for each thread's last ones.
abbrev pub join_fuel : ℕ → ℕ → ℕ
join_fuel parts threads = 5 * parts + 3 * threads + 1

abbrev pub new_job : Text → Text → Text × Text → FileUploadOptions → ℕ → Text → Job
new_job uri path target options size upload_id =
    let part_size = part_size_for size options.part_size in
    record {
      uri = uri;
      path = path;
      target = target;
      options = options;
      id_query = id_query_of upload_id;
      size = size;
      part_size = part_size;
      parts = part_count size part_size;
    }

module _ (w : World) where
  open w use {State}

  -- The upload's id.
  unfoldable pub started : Text → Text → Reply → Result Text
  started uri path r =
      map_err (λ e. e ++ codes " (starting a multipart upload)") (accepted w uri path r)
      >>= λ reply.
          let upload_id = xml_tag reply.text (codes "UploadId") in
          if is_empty upload_id
          then err (uri ++ codes ": the multipart upload was started without an UploadId")
          else ok upload_id

  -- S3 can answer 200 and still fail the completion, with an <Error> body.
  unfoldable pub completed : Text → Text → Reply → Result Text
  completed uri path r = accepted w uri path r >>= λ reply.
      elim (find (codes "<Error>") reply.text) [
        | none ↦ ok (xml_tag reply.text (codes "ETag"))
        | some at ↦ err (
            uri
            ++ (codes ": completing the multipart upload failed: "
                ++ (xml_tag reply.text (codes "Code")
                    ++ (codes " " ++ xml_tag reply.text (codes "Message")))))
      ]

  -- A best effort: what becomes of it is ignored.
  unfoldable pub abort_upload : Job → Client → Result Text → State → Done (Result Text) State
  abort_upload job c result s =
      let d = exchange w c (ok (abort_call job.target job.id_query)) s in
      record { result = result; client = d.client; state = d.state }

  unfoldable pub complete_upload : Job → Client → List Text → State → Done (Result Text) State
  complete_upload job c etags s =
      let d = exchange w c (ok (complete_call job.target job.id_query etags)) s in
      elim (d.result >>= completed job.uri job.path) [
        | err e ↦ abort_upload job d.client (err e) d.state
        | ok etag ↦ record { result = ok etag; client = d.client; state = d.state }
      ]

  -- Behind the threads.
  unfoldable pub finish_upload : Job → Shared State → Done (Result Text) State
  finish_upload job y =
      if y.failed
      then abort_upload job y.client (err y.first_error) y.state
      else complete_upload job y.client y.part_etags y.state

  unfoldable pub send_parts :
      (ℕ → ℕ) → Disk State → Job → Client → State → Run (Done (Result Text) State)
  send_parts choose disk job c s =
      let threads = thread_count job.options job.parts in
      if threads == 0
      then length_error
      else elim (join w job (join_fuel job.parts threads) choose disk
          (start_pool w job threads c s)) [
            | none ↦ cut_off
            | some p ↦ finished (finish_upload job p.shared)
          ]

  unfoldable pub put_multipart :
      (ℕ → ℕ)
      → Disk State
      → Client
      → Text
      → Text
      → Text × Text
      → FileUploadOptions
      → ℕ
      → State
      → Run (Done (Result Text) State)
  put_multipart choose disk c uri path target options size s =
      let d = exchange w c (ok (create_call target options)) s in
      elim (d.result >>= started uri path) [
        | err e ↦ finished (record { result = err e; client = d.client; state = d.state })
        | ok upload_id ↦
            send_parts choose disk (new_job uri path target options size upload_id) d.client d.state
      ]

  -- The target and the file's size, where the checks pass.
  unfoldable pub check_put_file :
      Disk State → Client → Text → Text → FileUploadOptions → State → Result ((Text × Text) × ℕ)
  check_put_file disk c uri path options s = check_target c uri true >>= λ target.
      check_file disk uri path options s >>= λ size. ok (target, size)

  -- `choose` is the order in which the threads take their steps.
  unfoldable pub put_file :
      (ℕ → ℕ)
      → Disk State
      → Client
      → Text
      → Text
      → FileUploadOptions
      → State
      → Run (Done (Result Text) State)
  put_file choose disk c uri path options s = elim (check_put_file disk c uri path options s) [
    | err e ↦ finished (record { result = err e; client = c; state = s })
    | ok checked ↦
        let (target, size) = checked in
        if ltb size (threshold_of options)
        then finished (put_single w disk c uri path target options size s)
        else put_multipart choose disk c uri path target options size s
  ]
