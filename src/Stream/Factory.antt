-- ===== src/Stream/Factory.antt =====
-- S3MinStreamFactory: its construction, and open, which gives a stream that has loaded nothing yet.
pub mod Attempts
pub mod Reads
use nanos3reader.Prelude.{
  ℕ, ◌+◌, ◌-◌, ◌*◌, Bool, not, ◌&&◌, ◌||◌, [], ◌∷◌, ◌++◌, leb, ◌==◌, if◌then◌else◌, zero, suc, ◌/◌,
  ◌%◌, ◌^◌, ◌≤◌, ◌<◌, min, max, ◌≡◌, refl, sym, ap, ◌∙◌, subst, ◌≢◌, ◌↔◌, ◌⊎◌, inl, inr, true,
  false, Option, none, some, List, map, arith, ltb, ltb→lt, lt→ltb, leb→le, ==_iff, tests,
  Bool-cases, Option-cases, all_below, all_below_sound, length, get_elem?, take, drop, replicate,
  set, All, length-append, take-append-drop, length-take, length-drop, length-replicate, length-map,
  length-set, take-append, drop-append, take-all, drop-all, get_elem?-take, get_elem?-drop,
  get_elem?-none, All-append, ℤ, pos, negsuc, drop-drop, take-add, take-take, get_elem?-set,
  get_elem?-lt, get_elem?-some,
}
use nanos3reader.Text.{
  Text, codes, is_empty, text_eq, text_lt, starts_with, shift, find_char, find, find_from,
  find_char_from, substr, substr_from, find_first_not_of, find_last_not_of, no_line_break,
  ends_with_char, is_blank, is_space, trim_by, trim, trim_ws, to_string_fuel, to_string, uint64_max,
  parse_digits, parse_u64,
}
use nanos3reader.Text.Decimal.{is_digit}
use nanos3reader.Result.{Result, ok, err}
use nanos3reader.Uri.{Config, open_target}
use nanos3reader.World.{World, is_valid, no_credentials}
use nanos3reader.Credentials.Sources.{env_or, aws_profile, load_profile}
use nanos3reader.Credentials.Provider.{Provider, new_provider, get, diagnostic_of, em_dash}
use nanos3reader.Stream.Fetch.{Object}
use nanos3reader.Stream.Buffer.{Buffer, new_buffer, read_ahead_or_one}

-- isspace
abbrev pub is_c_space : ℕ → Bool
is_c_space c = c == 32 || (leb 9 c && leb c 13)

-- The digits of std::atoi, after those that stand for `acc`.
unfoldable pub atoi_digits : ℕ → Text → ℕ
atoi_digits acc [] = acc
atoi_digits acc (c ∷ s) =
    let rest = atoi_digits (acc * 10 + (c - 48)) s in if is_digit c then rest else acc

abbrev pub atoi_unsigned : Text → ℕ
atoi_unsigned [] = 0
atoi_unsigned (c ∷ s) =
    if c == b'-' then 0 else if c == b'+' then atoi_digits 0 s else atoi_digits 0 (c ∷ s)

-- std::atoi, with 0 for a negative number. It has no defined result where an int cannot hold the
-- number, which stays as it is here.
unfoldable pub atoi_or_zero : Text → ℕ
atoi_or_zero [] = 0
atoi_or_zero (c ∷ s) =
    let rest = atoi_or_zero s in if is_c_space c then rest else atoi_unsigned (c ∷ s)

unfoldable pub max_attempts_of : Text → ℕ
max_attempts_of text = let attempts = atoi_or_zero text in if leb 1 attempts then attempts else 3

-- The Config with its provider, which changes as it finds credentials.
pub record Factory : Type 0 where
  pub cfg : Config
  pub provider : Provider

-- What open returns: an S3IStream with its buffer.
pub record OpenedStream : Type 0 where
  pub uri : Text
  pub object : Object
  pub buffer : Buffer

module _ (w : World) where
  open w use {State, handle_ok}

  -- The region of the environment, of the profile, or the default.
  unfoldable pub factory_region : Text → State → Text
  factory_region profile s =
      let env = env_or w (codes "AWS_REGION") (env_or w (codes "AWS_DEFAULT_REGION") []) in
      let region =
        if is_empty env
        then (load_profile w profile (record { cred = no_credentials; region = env }) s).region
        else env in
      if is_empty region then codes "us-east-1" else region

  unfoldable pub new_factory : State → Factory
  new_factory s =
      let profile = aws_profile w in
      let endpoint = env_or w (codes "AWS_ENDPOINT_URL") [] in
      record {
        cfg = record {
          region = factory_region profile s;
          endpoint = endpoint;
          path_style = not (is_empty endpoint);
          max_attempts = max_attempts_of (env_or w (codes "AWS_MAX_ATTEMPTS") (codes "3"));
        };
        provider = new_provider profile;
      }

  -- A stream, or what error() says.
  unfoldable pub open_stream : Factory → Text → ℕ → State → Result OpenedStream × Factory × State
  open_stream f uri read_ahead_bytes s = elim (open_target uri) [
    | err e ↦ (err e, f, s)
    | ok target ↦
        let (cred, provider, s') = get w f.provider s in
        let f' = record f { provider = provider } in
        if not (is_valid cred)
        then (
          err (
              codes "missing AWS credentials "
              ++ (em_dash ++ (codes " " ++ diagnostic_of provider))),
          f',
          s',
        )
        else if handle_ok s'
        then (
          ok (record {
            uri = uri;
            object = record {
              bucket = target.0;
              key = target.1;
              read_ahead = read_ahead_or_one read_ahead_bytes;
            };
            buffer = new_buffer f.cfg;
          }),
          f',
          s',
        )
        else (err (codes "failed to initialize libcurl handle"), f', s')
  ]
