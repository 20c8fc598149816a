-- ===== src/World.antt =====
-- What the code under src/ uses of the world outside it: clock, environment, files, processes, libcurl
-- with the servers behind it, and the SHA-256 primitive. `State` is all that these may change.
use nanos3reader.Prelude.{ℕ, Bool, not, ◌&&◌, Option, none, List, []}
use nanos3reader.Text.{Text, is_empty}
use nanos3reader.Http.Wire.{Request, Transfer, CurlCode}

-- struct Credentials; `expiry` is the instant at which temporary ones end.
pub record Credentials : Type 0 where
  pub access_key : Text
  pub secret_key : Text
  pub session_token : Text
  pub expiry : Option ℕ

unfoldable pub is_valid : Credentials → Bool
is_valid c = not (is_empty c.access_key) && not (is_empty c.secret_key)

abbrev pub no_credentials : Credentials
no_credentials = record { access_key = []; secret_key = []; session_token = []; expiry = none }

-- A second of std::chrono::system_clock, whose instants are counted in nanoseconds.
abbrev pub second : ℕ
second = 1_000_000_000

-- What one fetch from a metadata endpoint shows.
pub record Fetched : Type 0 where
  pub rc : CurlCode
  pub code : ℕ
  pub chunks : List Text

-- `amz_now` is the formatted clock. `read_rooms` are the buffer sizes with which libcurl asks for a
-- request's body, and `respond` is given the bytes that went out. `wait` sleeps for a random time up
-- to the bound, in milliseconds. `parse_time` is strptime and timegm, in seconds. `popen` gives the
-- chunks that fread returns of a command's output.
pub record World : Type 1 where
  pub State : Type 0
  pub now : State → ℕ
  pub amz_now : State → Text
  pub getenv : Text → Option Text
  pub read_file : Text → State → Option Text
  pub popen : Text → State → Option (List Text) × State
  pub parse_time : Text → Option ℕ
  pub handle_ok : State → Bool
  pub fetch : Text → List Text → Bool → State → Fetched × State
  pub read_rooms : Request → State → List ℕ
  pub respond : Request → Text → State → Transfer × State
  pub wait : ℕ → State → State
  pub strerror : CurlCode → Text
  pub sha256_raw : Text → Text
