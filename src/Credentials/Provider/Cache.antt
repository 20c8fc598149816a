-- ===== src/Credentials/Provider/Cache.antt =====
-- When the provider asks its sources, and what it hands out.
use nanos3reader.Prelude.{
  ◌+◌, ◌*◌, ◌<◌, ◌≡◌, sym, ap, ◌∙◌, subst, inl, inr, Bool, true, false, not, ◌&&◌, ◌||◌, Option,
  none, some, List, [], ◌∷◌, ◌++◌, arith, ltb, if◌then◌else◌, lt→ltb, Bool-cases,
}
use nanos3reader.Text.{Text, codes, is_empty}
use nanos3reader.World.{World, Credentials, is_valid, no_credentials, second}
use nanos3reader.Credentials.Sources.{
  env_or, load_profile, load_credential_process, load_ecs, load_imds,
}
use nanos3reader.Credentials.Provider.{
  Provider, Resolved, found, missing, describe_profile_gap, env_note, resolve_imds,
  resolve_metadata, resolve_profile, resolve, is_current, get,
}

module _ (w : World) where
  open w use {State, now}

  -- One source of the chain.
  abbrev pub Asks : Type 0
  Asks = State → Option Credentials × State

  pub first_found : List Asks → Asks
  first_found [] s = (none, s)
  first_found (ask ∷ asks) s =
      let (o, s') = ask s in
      let rest = first_found asks s' in elim o [ some c ↦ (some c, s') | none ↦ rest ]

  abbrev from_env : Asks
  from_env s =
      let ak = env_or w (codes "AWS_ACCESS_KEY_ID") [] in
      let sk = env_or w (codes "AWS_SECRET_ACCESS_KEY") [] in
      (
        if not (is_empty ak) && not (is_empty sk)
            then some (record {
              access_key = ak;
              secret_key = sk;
              session_token = env_or w (codes "AWS_SESSION_TOKEN") [];
              expiry = none;
            })
            else none,
        s,
      )

  abbrev from_files : Text → Asks
  from_files profile s =
      let prof = (load_profile w profile (record { cred = no_credentials; region = [] }) s).cred in
      (if is_valid prof then some (record prof { expiry = none }) else none, s)

  abbrev container_configured : Bool
  container_configured =
      not (is_empty (env_or w (codes "AWS_CONTAINER_CREDENTIALS_RELATIVE_URI") []))
      || not (is_empty (env_or w (codes "AWS_CONTAINER_CREDENTIALS_FULL_URI") []))

  -- The documented order: environment, profile files, the profile's helper, the container endpoint
  -- where one is configured, the instance role.
  abbrev pub chain : Text → List Asks
  chain profile =
      from_env
      ∷ from_files profile
      ∷ load_credential_process w profile
      ∷ ((if container_configured then load_ecs w ∷ [] else []) ++ load_imds w ∷ [])

  abbrev pub credentials_of : Resolved → Option Credentials
  credentials_of (found c) = some c
  credentials_of (missing notes) = none

  abbrev pub outcome : Resolved × State → Option Credentials × State
  outcome (r, s) = (credentials_of r, s)

  resolve_imds-chain :
      (notes : Text) (s : State)
      → outcome (resolve_imds w notes s) ≡ first_found (load_imds w ∷ []) s
  unfolding resolve_imds first_found
  resolve_imds-chain notes s = ground arith

  resolve_metadata-chain :
      (notes : Text) (s : State)
      → outcome (resolve_metadata w notes s)
        ≡ first_found ((if container_configured then load_ecs w ∷ [] else []) ++ load_imds w ∷ []) s
  unfolding resolve_metadata first_found
  resolve_metadata-chain notes s = elim (Bool-cases container_configured) [
    | inl e ↦ rw e (ground (arith, λ (n : Text) (t : State). resolve_imds-chain n t))
    | inr e ↦ rw e (resolve_imds-chain notes s)
  ]

  resolve_profile-chain :
      (profile : Text) (s : State)
      → outcome (resolve_profile w profile s)
        ≡ first_found
            (from_files profile
              ∷ load_credential_process w profile
              ∷ ((if container_configured then load_ecs w ∷ [] else []) ++ load_imds w ∷ []))
            s
  unfolding resolve_profile first_found
  resolve_profile-chain profile s =
      let s' = (load_credential_process w profile s).1 in
      ground (
        arith,
        resolve_metadata-chain
            (env_note w ++ (codes "; profile: " ++ describe_profile_gap w profile s')) s',
      )

  -- The chain asks its sources in the documented order, and stops at the first that has
  -- credentials.
  pub resolve-first_found :
      (profile : Text) (s : State) → outcome (resolve w profile s) ≡ first_found (chain profile) s
  unfolding resolve first_found
  resolve-first_found profile s = ground (arith, resolve_profile-chain profile s)

  -- The provider keeps what it hands out.
  pub get-cached : (p : Provider) (s : State) → (get w p s).1.cached ≡ (get w p s).0
  unfolding get
  get-cached p s = ground arith

  get_current :
      (p : Provider) (s : State)
      → is_valid p.cached ≡ true
      → is_current p.cached (now s) ≡ true
      → get w p s ≡ (p.cached, p, s)
  unfolding get
  get_current p s v c = rw (v, c)

  -- Credentials that were handed out are handed out again, and no source is asked, for as long as
  -- they are current.
  pub get-get :
      (p : Provider) (s s' : State)
      → is_valid (get w p s).0 ≡ true
      → is_current (get w p s).0 (now s') ≡ true
      → get w (get w p s).1 s' ≡ ((get w p s).0, (get w p s).1, s')
  get-get p s s' v c =
      let e = sym (get-cached p s) in
      get_current (get w p s).1 s' (subst (λ (k : Credentials). is_valid k ≡ true) e v)
        (subst (λ (k : Credentials). is_current k (now s') ≡ true) e c)
      ∙ ap (λ (k : Credentials). (k, (get w p s).1, s')) (sym e)

  abbrev backs_off : Provider → State → Bool
  backs_off p s = p.attempted && ltb (now s) (p.last_attempt + 2 * second)

  get_backing_off :
      (p : Provider) (s : State)
      → is_valid p.cached ≡ false
      → backs_off p s ≡ true
      → get w p s ≡ (p.cached, p, s)
  unfolding get
  get_backing_off p s v b = rw (v, b)

  get_asked :
      (p : Provider) (s : State)
      → is_valid p.cached ≡ false
      → backs_off p s ≡ false
      → ((get w p s).1.attempted ≡ true) × ((get w p s).1.last_attempt ≡ now s)
  unfolding get
  get_asked p s v b = rw (v, b) (ground arith, ground arith)

  -- Where the sources were asked with nothing in the cache, and gave nothing, no source is asked
  -- again for two seconds.
  get-backs_off :
      (p : Provider) (s s' : State)
      → is_valid p.cached ≡ false
      → backs_off p s ≡ false
      → is_valid (get w p s).0 ≡ false
      → now s' < now s + 2 * second
      → get w (get w p s).1 s' ≡ ((get w p s).0, (get w p s).1, s')
  get-backs_off p s s' v b n h =
      let a = get_asked p s v b in
      let e = get-cached p s in
      let n' : is_valid (get w p s).1.cached ≡ false =
        subst (λ (k : Credentials). is_valid k ≡ false) (sym e) n in
      let b' : backs_off (get w p s).1 s' ≡ true = rw a.0 (lt→ltb _ _ (omega (arith, a.1))) in
      get_backing_off (get w p s).1 s' n' b' ∙ ap (λ (k : Credentials). (k, (get w p s).1, s')) e
