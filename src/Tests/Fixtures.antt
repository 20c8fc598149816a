-- ===== src/Tests/Fixtures.antt =====
-- A world whose server is given, for the tests.
use nanos3reader.Prelude.{
  ℕ, ◌+◌, ◌*◌, true, false, none, List, [], ◌∷◌, take, ◌≡◌, Option, some, arith, ◌==◌,
  if◌then◌else◌, length,
}
use nanos3reader.Text.{Text, codes}
use nanos3reader.World.{World, Credentials}
use nanos3reader.Uri.{Config}
use nanos3reader.Http.Wire.{
  is_curl_ok, curl_ok, partial_file, CurlCode, Request, Transfer, couldnt_connect,
}
use nanos3reader.Http.Retry.{fixed}
use nanos3reader.Client.Calls.{Client, Done}
use nanos3reader.Result.{Result, ok}
use nanos3reader.Client.Put.Sent.{SendsWhole}
use nanos3reader.PutFile.Source.{FileUploadOptions, Disk}

-- The state is the number of milliseconds waited.
abbrev pub world_with : (Request → Text → ℕ → Transfer) → World
world_with serve = record {
  State = ℕ;
  now = λ s. s * 1000000;
  amz_now = λ s. codes "20130524T000000Z";
  getenv = λ name. none;
  read_file = λ path s. none;
  popen = λ command s. (none, s);
  parse_time = λ t. none;
  handle_ok = λ s. true;
  fetch = λ url headers put s. (record { rc = couldnt_connect; code = 0; chunks = [] }, s);
  read_rooms = λ req s. 4 ∷ 4 ∷ 4 ∷ 4 ∷ [];
  respond = λ req sent s. (serve req sent s, s);
  wait = λ ms s. s + ms;
  strerror = λ rc. codes "transfer failed";
  sha256_raw = λ m. take 32 m;
}

abbrev pub answer : ℕ → List Text → List Text → Transfer
answer code headers chunks = record {
  rc = curl_ok;
  code = code;
  reply_headers = headers;
  chunks = chunks;
  content_length = none;
}

abbrev pub test_config : Config
test_config = record {
  region = codes "us-east-1";
  endpoint = [];
  path_style = false;
  max_attempts = 4;
}

abbrev pub test_keys : Credentials
test_keys = record {
  access_key = codes "AK";
  secret_key = codes "SK";
  session_token = [];
  expiry = none;
}

abbrev pub test_client : Client
test_client = record { cfg = test_config; keys = fixed test_keys; refusal = [] }

-- A server that takes bodies that are as long as announced.
abbrev pub body_rc : Option ℕ → Text → CurlCode
body_rc none sent = curl_ok
body_rc (some n) sent = if length sent == n then curl_ok else partial_file

pub body_rc-ok :
    (o : Option ℕ) (sent : Text) (n : ℕ)
    → o ≡ some n
    → is_curl_ok (body_rc o sent) ≡ true
    → length sent ≡ n
unfolding is_curl_ok
body_rc-ok none sent n e h = absurd (cc)
body_rc-ok (some m) sent n e h = let same : m ≡ n = cc in ground arith

-- A server that accepts every request whose body is whole, and the file "hello".
abbrev pub upload_world : List Text → World
upload_world headers =
    record (world_with (λ req sent s.
      record (answer 200 headers (codes "<UploadId>u</UploadId><ETag>e</ETag>" ∷ [])) {
        rc = body_rc req.body_len sent;
      })) { read_file = λ path s. some (codes "hello"); read_rooms = λ req s. 512 ∷ 512 ∷ [] }

abbrev pub test_disk : Disk ℕ
test_disk = record {
  is_regular = λ path s. true;
  regular_error = λ path s. [];
  file_size = λ path s. ok 5;
  open_error = λ path s. codes "No such file or directory";
}

abbrev pub in_parts : FileUploadOptions
in_parts = record {
  content_type = [];
  sign_payload = false;
  multipart_threshold = 1;
  part_size = 0;
  part_concurrency = 4;
}

pub upload_world-SendsWhole : (headers : List Text) → SendsWhole (upload_world headers)
unfolding SendsWhole
upload_world-SendsWhole headers req sent s n e h = body_rc-ok req.body_len sent n e h

abbrev pub tagged_world : World
tagged_world = upload_world (codes "ETag: 1\r\n" ∷ [])

abbrev pub done_with : Result Text → Done (Result Text) ℕ
done_with r = record { result = r; client = test_client; state = 0 }

abbrev pub hello : Text
hello = codes "hello world"
