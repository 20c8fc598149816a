-- ===== src/Tests/Objects.antt =====
-- Witnesses: the object client.
use nanos3reader.Http.Upload.{source_bytes, upload_read, upload_all}
use mathlib.Core.List.{flatten}
use nanos3reader.Prelude.{◌≡◌, refl, true, [], ◌∷◌, arith, length, take, drop}
use nanos3reader.Text.{
  codes, text_eq, starts_with, find_char, substr, find_first_not_of, find_last_not_of,
  no_line_break,
}
use nanos3reader.Result.{ok}
use nanos3reader.World.{World}
use nanos3reader.Uri.{split_s3_uri}
use nanos3reader.Http.Wire.{is_curl_ok, is_retriable_status}
use nanos3reader.Http.Sink.{write_to, sink_write, sink_all, to_lower, capture_etag, capture_etags}
use nanos3reader.Http.Request.{signed_request, send_body, receive, attempt}
use nanos3reader.Http.Retry.{is_retriable, attempt_loop, request_keys, run_request}
use nanos3reader.Client.Calls.{check_target, transferred, exchange}
use nanos3reader.Client.Read.{last_byte, check_range, range_result, read_range}
use nanos3reader.Client.Read.Served.{ServesRange, read_range-bytes}
use nanos3reader.Client.Put.{PutOptions, check_put, put_call, put_result, put}
use nanos3reader.Client.Put.Sent.{Delivered, SendsWhole, put-Delivered}
use nanos3reader.Tests.Fixtures.{body_rc, body_rc-ok, world_with, answer, test_config, test_client}

-- A server with an object, that answers the range of its bytes 1 to 3.
abbrev range_world : World
range_world = world_with (λ req sent s. answer 206 [] (codes "e" ∷ codes "ll" ∷ []))

read_range-bytes_example :
    (codes "ell" ≡ take 3 (drop 1 (codes "hello"))) × (length (codes "ell") ≡ 3)
unfolding read_range check_target split_s3_uri starts_with find_char check_range last_byte exchange
    run_request request_keys attempt_loop is_retriable is_curl_ok is_retriable_status attempt
    receive send_body text_eq sink_all sink_write write_to transferred range_result ServesRange
    flatten
read_range-bytes_example =
    read_range-bytes range_world (codes "hello") test_client (codes "s3://b/k") (codes "b")
      (codes "k") 1 3 true 0 (codes "ell") (omega arith) refl (λ req sent s u m code fine. refl)
      refl

abbrev put_world : World
put_world = world_with (λ req sent s. record (answer 200 (codes "ETag: 1\r\n" ∷ []) []) {
  rc = body_rc req.body_len sent;
})

put_world-SendsWhole : SendsWhole put_world
unfolding SendsWhole
put_world-SendsWhole req sent s n e h = body_rc-ok req.body_len sent n e h

bucket_and_key : split_s3_uri (codes "s3://b/k") true ≡ ok (codes "b", codes "k")
unfolding split_s3_uri find_char
bucket_and_key = refl

abbrev plain_options : PutOptions
plain_options = record { content_type = []; if_none_match = true; if_match = [] }

put-Delivered_example :
    Delivered put_world test_config (codes "b", codes "k") (codes "hi") (codes "1")
unfolding put put_result exchange check_target check_put no_line_break run_request request_keys
    transferred attempt_loop is_retriable is_curl_ok is_retriable_status attempt receive send_body
    text_eq put_call upload_all upload_read source_bytes sink_all capture_etags capture_etag substr
    find_first_not_of find_last_not_of to_lower signed_request split_s3_uri find_char starts_with
put-Delivered_example =
    put-Delivered put_world test_client (codes "s3://b/k") (codes "b") (codes "k") (codes "hi") true
      plain_options 0 (codes "1") bucket_and_key put_world-SendsWhole refl
