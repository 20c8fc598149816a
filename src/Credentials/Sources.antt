-- ===== src/Credentials/Sources.antt =====
-- The sources of the credential chain: profile files, a helper process, container and instance
-- metadata. A bool result with credentials filled in is an Option.
use mathlib.Core.List.{flatten}
use nanos3reader.Prelude.{
  ℕ, ◌*◌, ◌^◌, Bool, true, false, not, ◌&&◌, Option, none, some, List, [], ◌∷◌, ◌++◌, ltb, leb,
  if◌then◌else◌, length, take,
}
use nanos3reader.Text.{Text, codes, text_eq, is_empty, find_char, trim_ws}
use nanos3reader.Http.Wire.{is_curl_ok}
use nanos3reader.World.{World, Credentials, is_valid, second}
use nanos3reader.Credentials.Ini.{Pairs, find_key, parse_ini_section}
use nanos3reader.Credentials.Json.{json_field}

-- What load_profile fills in.
pub record Profile : Type 0 where
  pub cred : Credentials
  pub region : Text

abbrev pub or_text : Option Text → Text → Text
or_text none d = d
or_text (some v) d = v

-- The credentials file sets what it names.
unfoldable pub from_cred_file : Pairs → Profile → Profile
unfolding find_key
from_cred_file kv p = record {
  cred = record p.cred {
    access_key = or_text (find_key (codes "aws_access_key_id") kv) p.cred.access_key;
    secret_key = or_text (find_key (codes "aws_secret_access_key") kv) p.cred.secret_key;
    session_token = or_text (find_key (codes "aws_session_token") kv) p.cred.session_token;
  };
  region = or_text (find_key (codes "region") kv) p.region;
}

abbrev pub if_unset : Text → Option Text → Text
if_unset v found = if is_empty v then or_text found v else v

-- The config file sets what is still unset.
unfoldable pub from_config_file : Pairs → Profile → Profile
unfolding find_key
from_config_file kv p = record {
  cred = record p.cred {
    access_key = if_unset p.cred.access_key (find_key (codes "aws_access_key_id") kv);
    secret_key = if_unset p.cred.secret_key (find_key (codes "aws_secret_access_key") kv);
    session_token = if_unset p.cred.session_token (find_key (codes "aws_session_token") kv);
  };
  region = if_unset p.region (find_key (codes "region") kv);
}

abbrev pub is_default : Text → Bool
is_default profile = text_eq profile (codes "default")

-- The config file's section of a profile.
unfoldable pub config_section : Text → Text
unfolding text_eq
config_section profile = if is_default profile then codes "default" else codes "profile " ++ profile

module _ (w : World) where
  open w use {State, getenv, read_file, popen, parse_time, handle_ok, fetch}

  unfoldable pub env_or : Text → Text → Text
  env_or name fallback = elim (getenv name) [
    | none ↦ fallback
    | some v ↦ if is_empty v then fallback else v
  ]

  unfoldable pub aws_profile : Text
  unfolding env_or
  aws_profile =
      env_or (codes "AWS_PROFILE") (env_or (codes "AWS_DEFAULT_PROFILE") (codes "default"))

  -- A file under ~/.aws, unless the variable names another.
  unfoldable pub profile_path : Text → Text → Text
  unfolding env_or
  profile_path variable name =
      let home = env_or (codes "HOME") [] in
      env_or variable (if is_empty home then [] else home ++ (codes "/.aws/" ++ name))

  unfoldable pub cred_path : Text
  unfolding profile_path
  cred_path = profile_path (codes "AWS_SHARED_CREDENTIALS_FILE") (codes "credentials")

  unfoldable pub conf_path : Text
  unfolding profile_path
  conf_path = profile_path (codes "AWS_CONFIG_FILE") (codes "config")

  -- The pairs of a section of the file at the path.
  abbrev pub section_of : Text → Text → State → Pairs
  section_of path section s = parse_ini_section (read_file path s) section

  unfoldable pub load_profile : Text → Profile → State → Profile
  unfolding cred_path conf_path from_cred_file from_config_file config_section parse_ini_section
  load_profile profile p s =
      let p' =
        if is_empty cred_path then p else from_cred_file (section_of cred_path profile s) p in
      if is_empty conf_path
      then p'
      else from_config_file (section_of conf_path (config_section profile) s) p'

  -- The result, and the text that the chunks of the body make, whatever the result is. With no
  -- handle the caller's text stays as it was: empty.
  unfoldable pub http_metadata : Text → List Text → Bool → State → (Bool × Text) × State
  unfolding is_curl_ok
  http_metadata url headers put s =
      if handle_ok s
      then (let (r, s') = fetch url headers put s in
          ((is_curl_ok r.rc && (leb 200 r.code && ltb r.code 300), flatten r.chunks), s'))
      else ((false, []), s)

  unfoldable pub parse_iso8601 : Text → Option ℕ
  parse_iso8601 t =
      if is_empty t
      then none
      else elim (parse_time t) [ none ↦ none | some at ↦ some (at * second) ]

  -- Credentials from a JSON text, whose session token has the given name.
  abbrev pub creds_from_json : Text → Text → Credentials
  creds_from_json token_name body = record {
    access_key = json_field body (codes "AccessKeyId");
    secret_key = json_field body (codes "SecretAccessKey");
    session_token = json_field body token_name;
    expiry = parse_iso8601 (json_field body (codes "Expiration"));
  }

  unfoldable pub fill_creds_from_json : Text → Credentials
  unfolding json_field parse_iso8601
  fill_creds_from_json body = creds_from_json (codes "Token") body

  abbrev pub if_valid : Credentials → Option Credentials
  if_valid c = if is_valid c then some c else none

  abbrev pub non_empty : Option Text → Option Text
  non_empty none = none
  non_empty (some v) = if is_empty v then none else some v

  -- The configured helper command; the credentials file is asked first.
  unfoldable pub profile_credential_process : Text → State → Text
  unfolding cred_path conf_path find_key config_section parse_ini_section
  profile_credential_process profile s =
      let in_cred =
        if is_empty cred_path
        then none
        else non_empty (find_key (codes "credential_process") (section_of cred_path profile s)) in
      let in_conf =
        if is_empty conf_path
        then none
        else non_empty (
            find_key (codes "credential_process")
              (section_of conf_path (config_section profile) s)) in
      elim in_cred [ some v ↦ v | none ↦ or_text in_conf [] ]

  -- The output is read up to the chunk that takes it over 1 MiB.
  unfoldable pub read_output : Text → List Text → Text
  read_output out [] = out
  read_output out (chunk ∷ chunks) =
      let rest = read_output (out ++ chunk) chunks in
      if ltb (2 ^ 20) (length (out ++ chunk)) then out ++ chunk else rest

  unfoldable pub load_credential_process : Text → State → Option Credentials × State
  unfolding profile_credential_process read_output json_field parse_iso8601 is_valid
  load_credential_process profile s =
      let cmd = profile_credential_process profile s in
      if is_empty cmd
      then (none, s)
      else (let (opened, s') = popen cmd s in
          elim opened [
            | none ↦ (none, s')
            | some chunks ↦
                (if_valid (creds_from_json (codes "SessionToken") (read_output [] chunks)), s')
          ])

  abbrev pub read_creds : (Bool × Text) × State → Option Credentials × State
  read_creds ((done, body), s) = (if done then if_valid (fill_creds_from_json body) else none, s)

  unfoldable pub load_ecs : State → Option Credentials × State
  unfolding env_or http_metadata fill_creds_from_json is_valid
  load_ecs s =
      let rel = env_or (codes "AWS_CONTAINER_CREDENTIALS_RELATIVE_URI") [] in
      let full = env_or (codes "AWS_CONTAINER_CREDENTIALS_FULL_URI") [] in
      let token = env_or (codes "AWS_CONTAINER_AUTHORIZATION_TOKEN") [] in
      let headers = if is_empty token then [] else (codes "Authorization: " ++ token) ∷ [] in
      if not (is_empty rel)
      then read_creds (http_metadata (codes "http://169.254.170.2" ++ rel) headers false s)
      else if not (is_empty full)
      then read_creds (http_metadata full headers false s)
      else (none, s)

  abbrev pub imds_base : Text
  imds_base = codes "http://169.254.169.254"

  -- The first role that is listed.
  unfoldable pub first_role : Text → Text
  unfolding trim_ws find_char
  first_role listed =
      let role = trim_ws listed in
      elim (find_char 10 role) [ none ↦ role | some nl ↦ trim_ws (take nl role) ]

  -- The token is what the first call leaves, whatever its result.
  unfoldable pub load_imds : State → Option Credentials × State
  unfolding http_metadata fill_creds_from_json first_role is_valid
  load_imds s =
      let ((accepted, token), s1) =
        http_metadata (imds_base ++ codes "/latest/api/token")
          (codes "X-aws-ec2-metadata-token-ttl-seconds: 21600" ∷ []) true s in
      let headers =
        if is_empty token then [] else (codes "X-aws-ec2-metadata-token: " ++ token) ∷ [] in
      let roles = imds_base ++ codes "/latest/meta-data/iam/security-credentials/" in
      let ((listed, text), s2) = http_metadata roles headers false s1 in
      let role = first_role text in
      if listed && not (is_empty role)
      then read_creds (http_metadata (roles ++ role) headers false s2)
      else (none, s2)
