-- ===== src/Tests/Listing.antt =====
-- Witnesses: listings, failed preconditions and refusals of the object client.
use nanos3reader.PutFile.Source.{Disk, FileUploadOptions}
use nanos3reader.PutFile.Whole.{finished, put_file}
use nanos3reader.Prelude.{
  ℕ, ◌≤◌, ◌≡◌, refl, ◌≢◌, Bool, true, false, not, some, List, [], ◌∷◌, arith,
}
use nanos3reader.Text.{
  Text, codes, text_eq, is_empty, starts_with, find_char, find, find_from, substr, no_line_break,
  parse_digits, parse_u64,
}
use nanos3reader.Result.{ok, err}
use nanos3reader.World.{World}
use nanos3reader.Http.Wire.{is_curl_ok, is_retriable_status}
use nanos3reader.Http.Request.{signed_request, send_body, receive, attempt}
use nanos3reader.Http.Retry.{is_retriable, attempt_loop, request_keys, run_request}
use nanos3reader.Http.Sink.{append_text, write_to, sink_write, sink_all, capture_etags}
use nanos3reader.Http.Upload.{source_bytes, upload_read, upload_all}
use nanos3reader.Uri.{split_s3_uri}
use nanos3reader.Xml.Element.{next_element}
use nanos3reader.Xml.Page.{
  Page, ObjectInfo, contents_object, contents_loop, prefixes_loop, is_truncated, continuation,
  finish_page, parse_list_page,
}
use nanos3reader.Xml.Entity.{unescape_step, unescape_from, xml_unescape}
use nanos3reader.Client.Calls.{Client, check_target, transferred, exchange}
use nanos3reader.Client.Construct.{ClientOptions, new_client}
use nanos3reader.Client.Read.{head, read_range}
use nanos3reader.Client.List.{page_result, list_page, list_loop, list}
use nanos3reader.Client.List.Pages.{
  Listing, last_page, done, page_at, list_loop-of_Listing, list_loop-Listing,
}
use nanos3reader.Client.Put.{PutOptions, check_put, put_call, put_failed, put_result, put}
use nanos3reader.Client.Put.Sent.{Conflicted, put-precondition}
use nanos3reader.Client.Refusal.{refusal-stops_calls, is_refused, new_client-refuses_iff}
use nanos3reader.Tests.Fixtures.{world_with, answer, test_config, test_client}

-- A server of one page with one object.
abbrev page_text : Text
page_text = codes "<Contents><Key>a</Key><Size>7</Size></Contents>"

abbrev page_world : World
page_world = world_with (λ req sent s. answer 200 [] (page_text ∷ []))

abbrev listed : List ObjectInfo
listed = record { key = codes "a"; size = 7 } ∷ []

abbrev the_page : Page
the_page = record { objects = listed; prefixes = []; truncated = false; next_token = [] }

page_found :
    page_at page_world (codes "s3://b/") (codes "b") [] [] test_client [] 0
    ≡ done (ok the_page) test_client 0
unfolding list_page exchange run_request request_keys attempt_loop is_retriable is_curl_ok
    is_retriable_status attempt receive send_body text_eq sink_all sink_write write_to append_text
    transferred page_result parse_list_page contents_loop contents_object prefixes_loop finish_page
    is_truncated continuation next_element parse_u64 parse_digits xml_unescape unescape_from
    unescape_step substr find find_from starts_with
page_found = refl

loop_found :
    list_loop page_world 5 test_client (codes "s3://b/") (codes "b") [] [] [] [] [] 0
    ≡ some (done (ok (listed, [])) test_client 0)
loop_found =
    list_loop-of_Listing page_world (codes "s3://b/") (codes "b") [] []
      (last_page the_page test_client 0 page_found refl) 5 [] [] (omega arith)

list_loop-of_Listing_example :
    list_loop page_world 5 test_client (codes "s3://b/") (codes "b") [] [] [] [] [] 0
    ≡ some (done (ok (listed, [])) test_client 0)
list_loop-of_Listing_example =
    list_loop-of_Listing page_world (codes "s3://b/") (codes "b") [] []
      (last_page the_page test_client 0 page_found refl) 5 [] [] (omega arith)

list_loop-Listing_example :
    (n : ℕ) × (n ≤ 5)
    × (os : List ObjectInfo) × (ps : List Text) × Listing page_world
        (codes "s3://b/")
        (codes "b")
        []
        []
        n
        test_client
        []
        0
        os
        ps
        test_client
        0
    × (os ≡ listed)
    × (ps ≡ [])
list_loop-Listing_example =
    list_loop-Listing page_world (codes "s3://b/") (codes "b") [] [] 5 listed [] test_client 0
      test_client [] [] [] 0 loop_found

abbrev conflict_world : World
conflict_world = world_with (λ req sent s. answer 412 [] [])

abbrev if_absent : PutOptions
if_absent = record { content_type = []; if_none_match = true; if_match = [] }

put-precondition_example :
    Conflicted conflict_world test_config (codes "b", codes "k")
    × ((etag : Text)
        → (put conflict_world test_client
            (codes "s3://b/k")
            (codes "hi")
            true
            if_absent
            0).result.etag
          ≢ ok etag)
unfolding put put_result exchange check_target check_put no_line_break run_request request_keys
    transferred attempt_loop is_retriable is_curl_ok is_retriable_status attempt receive send_body
    text_eq put_call upload_all upload_read source_bytes sink_all capture_etags signed_request
    split_s3_uri find_char starts_with
put-precondition_example =
    put-precondition conflict_world test_client (codes "s3://b/k") (codes "b") (codes "k")
      (codes "hi") true if_absent 0 refl refl

abbrev refusing : Client
refusing = record test_client { refusal = codes "no" }

refusal-stops_calls_example :
    (e : Text) × (f : Text) × (head page_world refusing (codes "s3://b/k") 0
      ≡ record { result = err e; client = refusing; state = 0 })
    × ((offset n : ℕ) (given : Bool)
        → read_range page_world refusing (codes "s3://b/k") offset n given 0
          ≡ record { result = err e; client = refusing; state = 0 })
    × ((fuel : ℕ) (delimiter : Text)
        → list page_world fuel refusing (codes "s3://b/k") delimiter 0
          ≡ some (record { result = err f; client = refusing; state = 0 }))
    × ((body : Text) (given : Bool) (options : PutOptions)
        → put page_world refusing (codes "s3://b/k") body given options 0
          ≡ record { result = put_failed e; client = refusing; state = 0 })
    × ((choose : ℕ → ℕ) (disk : Disk ℕ) (path : Text) (options : FileUploadOptions)
        → put_file page_world choose disk refusing (codes "s3://b/k") path options 0
          ≡ finished (record { result = err e; client = refusing; state = 0 }))
refusal-stops_calls_example = refusal-stops_calls page_world refusing (codes "s3://b/k") 0 refl

abbrev plain_http : ClientOptions
plain_http = record {
  region = codes "r";
  endpoint = codes "http://h";
  access_key_id = codes "AK";
  secret_access_key = codes "SK";
  session_token = [];
  allow_http = false;
}

new_client-refuses_iff_example :
    is_empty (new_client page_world plain_http 0).refusal ≡ not (is_refused page_world plain_http)
new_client-refuses_iff_example = new_client-refuses_iff page_world plain_http 0
