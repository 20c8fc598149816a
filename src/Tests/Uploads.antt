-- ===== src/Tests/Uploads.antt =====
-- Witnesses: the hash of a file, and files that are uploaded.
use nanos3reader.PutFile.Whole.Ends.{put_file-ends}
use nanos3reader.Prelude.{
  ℕ, ◌-◌, ◌≡◌, true, false, none, some, [], ◌∷◌, leb, if◌then◌else◌, length, take, drop, refl, ◌⊎◌,
  arith, ◌^◌, ◌&&◌, ltb,
}
use nanos3reader.Text.{Text, codes, find_char, no_line_break, to_string, is_empty}
use nanos3reader.Result.{err, ◌>>=◌, Result, ok}
use nanos3reader.World.{World}
use nanos3reader.FileHash.{sha256_file_hex}
use nanos3reader.FileHash.Range.{sha256_file_hex_lem, bundled}
use nanos3reader.Encode.{hex_encode}
use nanos3reader.Sha256.{sha256_raw}
use nanos3reader.PutFile.Source.{check_file, accepted, body_hash}
use nanos3reader.Tests.Fixtures.{
  test_config, test_client, upload_world, test_disk, in_parts, upload_world-SendsWhole,
  tagged_world, done_with,
}
use nanos3reader.Xml.Entity.{xml_escape}
use nanos3reader.Xml.Element.{xml_tag}
use nanos3reader.Http.Upload.{upload_read, upload_all}
use nanos3reader.Http.Sink.{sink_write, sink_all, capture_etags}
use nanos3reader.Http.Request.{signed_request, send_body, receive, attempt}
use nanos3reader.Http.Retry.{is_retriable, attempt_loop, request_keys, run_request}
use nanos3reader.Client.Calls.{Done, check_target, exchange}
use nanos3reader.Multipart.{
  part_size_for, part_count, part_call, part_elements, complete_body, request_failure,
}
use nanos3reader.Scheduler.{busy_from}
use nanos3reader.Uri.{split_s3_uri}
use nanos3reader.PutFile.Workers.{fail_with, part_etag, part_request, move, turn, join}
use nanos3reader.PutFile.Whole.{
  finished, create_call, abort_call, complete_call, started, completed, abort_upload,
  complete_upload, finish_upload, send_parts, put_multipart, check_put_file, put_file, id_query_of,
}
use nanos3reader.PutFile.Whole.Completed.{InOne, InParts}
use nanos3reader.PutFile.Whole.Aborted.{LastWasAbort, put_multipart-aborts}
use nanos3reader.PutFile.Whole.Uploaded.{put_file-uploaded}

sha256_file_hex_lem_example : sha256_file_hex bundled (codes "hello") 1 3 ≡ (
    if ltb 1 (2 ^ 63) && leb 3 (length (codes "hello") - 1)
    then some (hex_encode (sha256_raw (take 3 (drop 1 (codes "hello")))))
    else none)
sha256_file_hex_lem_example = sha256_file_hex_lem bundled (codes "hello") 1 3

bucket_and_key : split_s3_uri (codes "s3://b/k") true ≡ ok (codes "b", codes "k")
unfolding split_s3_uri find_char
bucket_and_key = refl

put_file-runs :
    put_file tagged_world (λ n. n) test_disk test_client (codes "s3://b/k") (codes "f") in_parts 0
    ≡ finished (done_with (ok (codes "e")))
unfolding no_line_break to_string upload_read upload_all sink_write sink_all capture_etags
    signed_request send_body receive attempt is_retriable attempt_loop request_keys run_request
    check_target exchange part_size_for part_count part_call part_elements complete_body
    request_failure busy_from split_s3_uri check_file accepted body_hash part_etag part_request move
    turn join create_call xml_escape xml_tag complete_call started completed complete_upload
    finish_upload send_parts put_multipart check_put_file put_file
put_file-runs = refl

put_file-uploaded_example :
    InOne tagged_world test_config (codes "b", codes "k") in_parts (codes "hello") (codes "e")
    ⊎ InParts tagged_world test_config (codes "b", codes "k") in_parts (codes "hello") (codes "e")
put_file-uploaded_example =
    put_file-uploaded tagged_world (λ n. n) test_disk (codes "b", codes "k") in_parts
      (codes "hello") (codes "s3://b/k") (codes "f")
      (upload_world-SendsWhole (codes "ETag: 1\r\n" ∷ [])) (λ s. refl) (omega arith) (omega arith)
      test_client 0 (done_with (ok (codes "e"))) (codes "e") bucket_and_key refl put_file-runs refl

put_file-ends_example :
    (d : Done (Result Text) ℕ) × (put_file tagged_world
        (λ n. n)
        test_disk
        test_client
        (codes "s3://b/k")
        (codes "f")
        in_parts
        0
      ≡ finished d)
put_file-ends_example =
    put_file-ends tagged_world (λ n. n) test_disk test_client (codes "s3://b/k") (codes "f")
      in_parts 0 (λ size e. let same : size ≡ 5 = cc in omega arith) (omega arith)

-- Here the part is accepted without an ETag.
abbrev no_etag : Text
no_etag = codes "s3://b/k: part 1 was accepted without an ETag (part 1 of 1)"

abbrev untagged_world : World
untagged_world = upload_world []

untagged-starts :
    ((exchange untagged_world test_client
        (ok (create_call (codes "b", codes "k") in_parts))
        0).result
      >>= started untagged_world (codes "s3://b/k") (codes "f"))
    ≡ ok (codes "u")
unfolding upload_read upload_all sink_write sink_all signed_request send_body receive attempt
    is_retriable attempt_loop request_keys run_request exchange request_failure accepted create_call
    xml_tag started
untagged-starts = refl

untagged-fails :
    put_multipart untagged_world
      (λ n. n)
      test_disk
      test_client
      (codes "s3://b/k")
      (codes "f")
      (codes "b", codes "k")
      in_parts
      5
      0
    ≡ finished (done_with (err no_etag))
unfolding to_string upload_read upload_all sink_write sink_all capture_etags signed_request
    send_body receive attempt is_retriable attempt_loop request_keys run_request exchange
    part_size_for part_count part_call request_failure busy_from accepted body_hash part_etag
    part_request move turn join create_call xml_tag started finish_upload send_parts put_multipart
    abort_upload abort_call fail_with
untagged-fails = refl

put_multipart-aborts_example :
    LastWasAbort untagged_world
      (codes "b", codes "k")
      (id_query_of (codes "u"))
      (done_with (err no_etag))
    × (is_empty no_etag ≡ false)
put_multipart-aborts_example =
    put_multipart-aborts untagged_world (λ n. n) test_disk test_client (codes "s3://b/k")
      (codes "f") (codes "b", codes "k") in_parts 5 0 (codes "u") (done_with (err no_etag)) no_etag
      untagged-starts untagged-fails refl
