-- ===== src/Client/Construct.antt =====
-- The constructor of S3Client.
use nanos3reader.Prelude.{
  ◌+◌, Bool, not, ◌&&◌, ◌||◌, Option, none, some, [], map, ◌++◌, if◌then◌else◌,
}
use nanos3reader.Text.{Text, codes, text_eq, is_empty, starts_with}
use nanos3reader.Uri.{Config}
use nanos3reader.World.{World, no_credentials}
use nanos3reader.Credentials.Sources.{env_or, aws_profile, load_profile}
use nanos3reader.Credentials.Provider.{new_provider}
use nanos3reader.Http.Sink.{to_lower}
use nanos3reader.Http.Retry.{Keys, fixed, provided, client_retries}
use nanos3reader.Client.Calls.{Client}

pub record ClientOptions : Type 0 where
  pub region : Text
  pub endpoint : Text
  pub access_key_id : Text
  pub secret_access_key : Text
  pub session_token : Text
  pub allow_http : Bool

module _ (w : World) where
  open w use {State}

  -- The region of the options, of the environment, of the profile, or the default.
  unfoldable pub client_region : ClientOptions → Text → State → Text
  client_region options profile s =
      let env =
        if is_empty options.region
        then env_or w (codes "AWS_REGION") (env_or w (codes "AWS_DEFAULT_REGION") [])
        else options.region in
      let region =
        if is_empty env
        then (load_profile w profile (record { cred = no_credentials; region = env }) s).region
        else env in
      if is_empty region then codes "us-east-1" else region

  unfoldable pub http_allowed : ClientOptions → Bool
  http_allowed options =
      options.allow_http
      || text_eq (map to_lower (env_or w (codes "AWS_ALLOW_HTTP") [])) (codes "true")

  abbrev pub client_endpoint : ClientOptions → Text
  client_endpoint options =
      if is_empty options.endpoint then env_or w (codes "AWS_ENDPOINT_URL") [] else options.endpoint

  -- `none` where exactly one of the two keys is given.
  unfoldable pub client_keys : ClientOptions → Text → Option Keys
  client_keys options profile =
      let have_ak = not (is_empty options.access_key_id) in
      let have_sk = not (is_empty options.secret_access_key) in
      if not (if have_ak then have_sk else not have_sk)
      then none
      else if have_ak
      then some (
          fixed (record {
            access_key = options.access_key_id;
            secret_key = options.secret_access_key;
            session_token = options.session_token;
            expiry = none;
          }))
      else some (provided (new_provider profile))

  -- The refusal of an endpoint, empty where it is allowed.
  unfoldable pub endpoint_refusal : ClientOptions → Text
  endpoint_refusal options =
      let endpoint = client_endpoint options in
      if starts_with (codes "http://") endpoint && not (http_allowed options)
      then codes "endpoint "
        ++ (endpoint
            ++ codes
                " is plain HTTP; set ClientOptions::allow_http (or AWS_ALLOW_HTTP=true) to allow it")
      else []

  -- A client with half a pair of keys has neither keys nor chain, and its refusal stops every call
  -- before one is asked for.
  unfoldable pub new_client : ClientOptions → State → Client
  new_client options s =
      let profile = aws_profile w in
      let cfg : Config = record {
        region = client_region options profile s;
        endpoint = client_endpoint options;
        path_style = not (is_empty (client_endpoint options));
        max_attempts = client_retries + 1;
      } in
      elim (client_keys options profile) [
        | none ↦ record {
          cfg = cfg;
          keys = fixed no_credentials;
          refusal =
              codes "ClientOptions: access_key_id and secret_access_key must be given together";
        }
        | some keys ↦ record { cfg = cfg; keys = keys; refusal = endpoint_refusal options }
      ]
