-- ===== src/Tests/Directories.antt =====
-- Witnesses: directories that are uploaded.
use nanos3reader.Client.Calls.{Client}
use nanos3reader.Result.{err}
use nanos3reader.Prelude.{ℕ, ◌≡◌, true, false, none, List, [], ◌∷◌, ◌++◌, refl, arith}
use nanos3reader.Text.{Text, codes, find_char, no_line_break, ends_with_char, to_string}
use nanos3reader.Result.{ok}
use nanos3reader.PutFile.Source.{check_file, accepted, body_hash}
use nanos3reader.PutDirectory.Items.{
  Item, largest_first, Directories, base_uri, list_items, walked, insert_item,
}
use nanos3reader.PutDirectory.Order.{of_size, IsDescending, largest_first_lem}
use nanos3reader.Tests.Fixtures.{test_client, test_disk, in_parts, tagged_world}
use nanos3reader.Xml.Entity.{xml_escape}
use nanos3reader.Xml.Element.{xml_tag}
use nanos3reader.Http.Upload.{upload_read, upload_all}
use nanos3reader.Http.Sink.{sink_write, sink_all, capture_etags}
use nanos3reader.Http.Request.{signed_request, send_body, receive, attempt}
use nanos3reader.Http.Retry.{is_retriable, attempt_loop, request_keys, run_request}
use nanos3reader.Client.Calls.{check_target, exchange}
use nanos3reader.Multipart.{
  part_size_for, part_count, part_call, part_elements, complete_body, request_failure,
}
use nanos3reader.Scheduler.{busy_from}
use nanos3reader.Uri.{split_s3_uri}
use nanos3reader.PutFile.Workers.{part_etag, part_request, move, turn, join}
use nanos3reader.PutFile.Whole.{
  finished, create_call, complete_call, started, completed, complete_upload, finish_upload,
  send_parts, put_multipart, check_put_file, put_file,
}
use nanos3reader.PutDirectory.Whole.{
  DirectoryUploadOptions, DirectoryDone, directory_items, directory_result, directory_done,
  send_items, put_directory,
}
use nanos3reader.PutDirectory.Threads
use nanos3reader.PutDirectory.Threads.{
  FileUploadResult, file_result, count_result, keep_error, report,
}
use nanos3reader.PutDirectory.Ends.{put_directory-ends}
use nanos3reader.PutDirectory.Reported.{Complete, put_directory-Complete}

abbrev item_of : Text → ℕ → Item
item_of path size = record { path = path; uri = codes "s3://b/" ++ path; size = size }

abbrev some_items : List Item
some_items = item_of (codes "a") 3 ∷ item_of (codes "b") 5 ∷ item_of (codes "c") 3 ∷ []

largest_first_lem_example :
    IsDescending (largest_first some_items)
    × ((n : ℕ) → of_size n (largest_first some_items) ≡ of_size n some_items)
largest_first_lem_example = largest_first_lem some_items

-- A directory with one file.
abbrev test_dirs : Directories ℕ
test_dirs = record {
  is_directory = λ dir s. true;
  directory_error = λ dir s. [];
  walk = λ dir s. ok (record {
    entries =
        record { path = codes "d"; relative = codes "d"; regular = false; size = ok 0 }
        ∷ record { path = codes "d/f"; relative = codes "f"; regular = true; size = ok 5 }
        ∷ [];
    failure = none;
  });
}

abbrev directory_options : DirectoryUploadOptions
directory_options = record { file = in_parts; concurrency = 2 }

abbrev listed : List Item
listed = record { path = codes "d/f"; uri = codes "s3://b/p/f"; size = 5 } ∷ []

abbrev directory_outcome : DirectoryDone ℕ
directory_outcome = record {
  result = ok tt;
  stats = record { files = 1; failed = 0; bytes = 5 };
  reports =
      record { path = codes "d/f"; uri = codes "s3://b/p/f"; bytes = 5; ok = true; error = [] }
      ∷ [];
  client = test_client;
  state = 0;
}

lists : directory_items test_dirs (codes "d") (codes "s3://b/p") 0 ≡ ok listed
unfolding directory_items base_uri list_items walked largest_first insert_item split_s3_uri
    ends_with_char find_char
lists = refl

put_directory-runs :
    put_directory tagged_world
      (λ n. n)
      (λ item n. n)
      test_disk
      test_dirs
      test_client
      (codes "d")
      (codes "s3://b/p")
      directory_options
      0
    ≡ finished directory_outcome
unfolding directory_items base_uri list_items walked largest_first insert_item ends_with_char
    find_char put_directory send_items directory_done directory_result file_result count_result
    keep_error report Threads.move Threads.turn Threads.join no_line_break to_string upload_read
    upload_all sink_write sink_all capture_etags signed_request send_body receive attempt
    is_retriable attempt_loop request_keys run_request check_target exchange part_size_for
    part_count part_call part_elements complete_body request_failure busy_from split_s3_uri
    check_file accepted body_hash part_etag part_request move turn join create_call xml_escape
    xml_tag complete_call started completed complete_upload finish_upload send_parts put_multipart
    check_put_file put_file
put_directory-runs = refl

put_directory-Complete_example :
    Complete tagged_world
      (λ n. n)
      (λ item n. n)
      test_disk
      directory_options
      listed
      directory_outcome
put_directory-Complete_example =
    put_directory-Complete tagged_world (λ n. n) (λ item n. n) test_disk test_dirs test_client
      (codes "d") (codes "s3://b/p") directory_options 0 listed directory_outcome lists
      put_directory-runs

put_directory-ends_example :
    (d : DirectoryDone ℕ) × (put_directory tagged_world
        (λ n. n)
        (λ item n. n)
        test_disk
        test_dirs
        test_client
        (codes "d")
        (codes "s3://b/p")
        directory_options
        0
      ≡ finished d)
put_directory-ends_example =
    put_directory-ends tagged_world (λ n. n) (λ item n. n) test_disk test_dirs test_client
      (codes "d") (codes "s3://b/p") directory_options 0
      (λ path s size e. let same : size ≡ 5 = cc in omega arith) (omega arith)

abbrev refusing : Client
refusing = record test_client { refusal = codes "no" }

abbrev refused_outcome : DirectoryDone ℕ
refused_outcome = record {
  result = err (codes "1 of 1 file(s) failed; first: s3://b/p/f: no");
  stats = record { files = 0; failed = 1; bytes = 0 };
  reports =
      record {
        path = codes "d/f";
        uri = codes "s3://b/p/f";
        bytes = 5;
        ok = false;
        error = codes "s3://b/p/f: no";
      }
      ∷ [];
  client = refusing;
  state = 0;
}
