-- ===== src/Credentials/Provider.antt =====
-- CredentialProvider: the chain in order, the cached result, and the notes on a failure.
pub mod Cache
use nanos3reader.Prelude.{
  ℕ, zero, suc, ◌+◌, ◌-◌, ◌*◌, ◌/◌, ◌%◌, ◌^◌, ◌≤◌, ◌<◌, min, max, ◌≡◌, refl, sym, ap, ◌∙◌, subst,
  ◌≢◌, ◌↔◌, ◌⊎◌, inl, inr, Bool, true, false, not, ◌&&◌, ◌||◌, Option, none, some, List, [], ◌∷◌,
  map, ◌++◌, arith, ltb, leb, ◌==◌, if◌then◌else◌, ltb→lt, lt→ltb, leb→le, ==_iff, tests,
  Bool-cases, Option-cases, all_below, all_below_sound, length, get_elem?, take, drop, replicate,
  set, All, length-append, take-append-drop, length-take, length-drop, length-replicate, length-map,
  length-set, take-append, drop-append, take-all, drop-all, get_elem?-take, get_elem?-drop,
  get_elem?-none, All-append,
}
use nanos3reader.Text.{
  Text, codes, text_eq, is_empty, text_lt, starts_with, shift, find_char, find, find_from,
  find_char_from, substr, substr_from, find_first_not_of, find_last_not_of, no_line_break,
  ends_with_char, is_blank, is_space, trim_by, trim, trim_ws, to_string_fuel, to_string, uint64_max,
  parse_digits, parse_u64,
}
use nanos3reader.World.{World, Credentials, is_valid, no_credentials, second}
use nanos3reader.Credentials.Ini.{
  Pairs, find_key, lines, starts_with_char, ini_pair, ini_line, ini_lines, parse_ini_section,
}
use nanos3reader.Credentials.Sources.{
  Profile, or_text, from_cred_file, if_unset, from_config_file, is_default, config_section, env_or,
  aws_profile, profile_path, cred_path, conf_path, section_of, load_profile, http_metadata,
  parse_iso8601, creds_from_json, fill_creds_from_json, if_valid, non_empty,
  profile_credential_process, read_output, load_credential_process, read_creds, load_ecs, imds_base,
  first_role, load_imds,
}

pub record Provider : Type 0 where
  pub profile : Text
  pub cached : Credentials
  pub diagnostic : Text
  pub attempted : Bool
  pub last_attempt : ℕ

abbrev pub new_provider : Text → Provider
new_provider profile = record {
  profile = profile;
  cached = no_credentials;
  diagnostic = [];
  attempted = false;
  last_attempt = 0;
}

abbrev pub has_key : Text → Pairs → Bool
has_key key kv = elim (find_key key kv) [ none ↦ false | some v ↦ true ]

abbrev pub no_pairs : Pairs → Bool
no_pairs [] = true
no_pairs (p ∷ kv) = false

abbrev pub is_open {ℓ} : {A : Type ℓ} → Option A → Bool
is_open none = false
is_open (some a) = true

-- The UTF-8 bytes of the dash in the messages.
abbrev pub em_dash : Text
em_dash = 226 ∷ 128 ∷ 148 ∷ []

-- An outcome of the chain: credentials, or the notes on why there are none.
pub data Resolved : Type 0 where
  found : Credentials → Resolved
  missing : Text → Resolved

-- Static, or more than five minutes from the end.
unfoldable pub is_current : Credentials → ℕ → Bool
is_current c at = elim c.expiry [ none ↦ true | some end ↦ ltb (at + 300 * second) end ]

unfoldable pub diagnostic_of : Provider → Text
diagnostic_of p = if is_empty p.diagnostic then codes "no AWS credentials found" else p.diagnostic

module _ (w : World) where
  open w use {State, now, read_file}

  unfoldable pub describe_profile_gap : Text → State → Text
  unfolding cred_path conf_path config_section find_key parse_ini_section
  describe_profile_gap profile s =
      let creds = cred_path w in
      let conf = conf_path w in
      let named = codes "profile '" ++ profile in
      let cred_ok = not (is_empty creds) && is_open (read_file creds s) in
      let conf_ok = not (is_empty conf) && is_open (read_file conf s) in
      let cred_kv = if cred_ok then section_of w creds profile s else [] in
      let conf_kv = if conf_ok then section_of w conf (config_section profile) s else [] in
      if not cred_ok && not conf_ok
      then codes "no profile files (looked for '"
        ++ (creds ++ (codes "' and '" ++ (conf ++ codes "')")))
      else if no_pairs cred_kv && no_pairs conf_kv
      then named ++ codes "' not found in the profile files"
      else if has_key (codes "credential_process") conf_kv
          || has_key (codes "credential_process") cred_kv
      then named ++ codes "' credential_process helper failed or returned no usable credentials"
      else if has_key (codes "sso_session") conf_kv
          || has_key (codes "sso_account_id") conf_kv
          || has_key (codes "sso_start_url") conf_kv
      then named
        ++ (codes "' uses AWS SSO, which the built-in reader does not resolve "
            ++ (em_dash
                ++ codes
                    " run 'aws sso login', then export AWS_ACCESS_KEY_ID/AWS_SECRET_ACCESS_KEY/AWS_SESSION_TOKEN to env"))
      else if has_key (codes "role_arn") conf_kv || has_key (codes "source_profile") conf_kv
      then named
        ++ (codes "' uses assume-role, which the built-in reader does not perform "
            ++ (em_dash ++ codes " export creds to env"))
      else named ++ codes "' has no aws_access_key_id/aws_secret_access_key"

  abbrev pub env_note : Text
  env_note = codes "env: AWS_ACCESS_KEY_ID/AWS_SECRET_ACCESS_KEY not set"

  abbrev pub imds_note : Text
  imds_note = codes "; IMDS: no EC2 instance role (metadata endpoint unreachable or empty)"

  -- The last source, with the notes so far.
  unfoldable pub resolve_imds : Text → State → Resolved × State
  resolve_imds notes s =
      let (o, s') = load_imds w s in
      (elim o [ some c ↦ found c | none ↦ missing (notes ++ imds_note) ], s')

  -- The container endpoint, where one is configured.
  unfoldable pub resolve_metadata : Text → State → Resolved × State
  unfolding resolve_imds
  resolve_metadata notes s =
      if not (is_empty (env_or w (codes "AWS_CONTAINER_CREDENTIALS_RELATIVE_URI") []))
        || not (is_empty (env_or w (codes "AWS_CONTAINER_CREDENTIALS_FULL_URI") []))
      then (let (o, s') = load_ecs w s in
          elim o [
            | some c ↦ (found c, s')
            | none ↦
                resolve_imds (notes ++ codes "; ECS: container endpoint returned no usable creds")
                  s'
          ])
      else resolve_imds notes s

  -- The profile's keys, then its helper.
  unfoldable pub resolve_profile : Text → State → Resolved × State
  unfolding resolve_metadata
  resolve_profile profile s =
      let prof = (load_profile w profile (record { cred = no_credentials; region = [] }) s).cred in
      if is_valid prof
      then (found (record prof { expiry = none }), s)
      else (let (o, s') = load_credential_process w profile s in
          elim o [
            | some c ↦ (found c, s')
            | none ↦
                resolve_metadata
                  (env_note ++ (codes "; profile: " ++ describe_profile_gap profile s')) s'
          ])

  unfoldable pub resolve : Text → State → Resolved × State
  unfolding resolve_profile
  resolve profile s =
      let ak = env_or w (codes "AWS_ACCESS_KEY_ID") [] in
      let sk = env_or w (codes "AWS_SECRET_ACCESS_KEY") [] in
      if not (is_empty ak) && not (is_empty sk)
      then (
        found (record {
          access_key = ak;
          secret_key = sk;
          session_token = env_or w (codes "AWS_SESSION_TOKEN") [];
          expiry = none;
        }),
        s,
      )
      else resolve_profile profile s

  unfoldable pub get : Provider → State → Credentials × Provider × State
  get p s =
      let at = now s in
      if is_valid p.cached && is_current p.cached at
      then (p.cached, p, s)
      else if not (is_valid p.cached) && (p.attempted && ltb at (p.last_attempt + 2 * second))
      then (p.cached, p, s)
      else (let (r, s') = resolve p.profile s in
          let p' = record p { attempted = true; last_attempt = at } in
          elim r [
            | found fresh ↦ (fresh, record p' { cached = fresh; diagnostic = [] }, s')
            | missing diag ↦ (p.cached, record p' { diagnostic = diag }, s')
          ])
