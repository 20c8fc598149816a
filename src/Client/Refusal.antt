-- ===== src/Client/Refusal.antt =====
-- Which options of S3Client's constructor make a client that refuses every call, and that such a
-- client sends nothing.
use nanos3reader.Text.{Text, codes, text_eq, is_empty, starts_with}
use nanos3reader.Credentials.Sources.{env_or}
use nanos3reader.Http.Sink.{to_lower}
use nanos3reader.PutFile.Source.{Disk, FileUploadOptions}
use nanos3reader.PutFile.Whole.{finished, check_put_file, put_file}
use nanos3reader.Prelude.{
  ℕ, ◌≡◌, refl, inl, inr, Bool, true, false, not, ◌&&◌, ◌||◌, some, ◌++◌, arith, if◌then◌else◌,
  Bool-cases, ◌∙◌, Option, none, [], ◌∷◌, map,
}
use nanos3reader.Text.{Text, codes, is_empty, starts_with, text_eq}
use nanos3reader.Result.{Result, ok, err, ◌>>=◌}
use nanos3reader.Uri.{split_s3_uri}
use nanos3reader.World.{World}
use nanos3reader.Client.Calls.{Client, check_target, exchange}
use nanos3reader.Client.Construct.{
  ClientOptions, http_allowed, client_endpoint, client_keys, endpoint_refusal, new_client,
}
use nanos3reader.Client.Read.{head, read_range}
use nanos3reader.Client.List.{list}
use nanos3reader.Client.Put.{PutOptions, put_failed, put_result, put}

pub check_target-refused :
    (c : Client) (uri : Text) (need_key : Bool)
    → is_empty c.refusal ≡ false
    → (e : Text) × (check_target c uri need_key ≡ err e)
unfolding check_target
check_target-refused c uri need_key h = refused (split_s3_uri uri need_key)
  where
    refused :
        (t : Result (Text × Text))
        → (e : Text) × ((t >>= λ target.
              if is_empty c.refusal then ok target else err (uri ++ (codes ": " ++ c.refusal)))
            ≡ err e)
    refused (ok target) = (uri ++ (codes ": " ++ c.refusal), ground arith)
    refused (err e) = (e, refl)

-- head, read_range, list, put and put_file of a client with a refusal end with an error. They leave
-- the client and the world as they were, so that no request is sent, and put reports no failed
-- precondition.
pub refusal-stops_calls :
    (w : World) (c : Client) (uri : Text) (s : w.State)
    → is_empty c.refusal ≡ false
    → (e : Text) × (f : Text) × (head w c uri s ≡ record { result = err e; client = c; state = s })
      × ((offset n : ℕ) (given : Bool)
          → read_range w c uri offset n given s ≡ record { result = err e; client = c; state = s })
      × ((fuel : ℕ) (delimiter : Text)
          → list w fuel c uri delimiter s ≡ some (record { result = err f; client = c; state = s }))
      × ((body : Text) (given : Bool) (options : PutOptions)
          → put w c uri body given options s
            ≡ record { result = put_failed e; client = c; state = s })
      × ((choose : ℕ → ℕ) (disk : Disk w.State) (path : Text) (options : FileUploadOptions)
          → put_file w choose disk c uri path options s
            ≡ finished (record { result = err e; client = c; state = s }))
unfolding head read_range list put put_result exchange put_file check_put_file
refusal-stops_calls w c uri s h =
    let (e, q) = check_target-refused c uri true h in
    let (f, r) = check_target-refused c uri false h in
    (
      e,
      f,
      rw q refl,
      (λ offset n given. rw (q, read_range) refl),
      (λ fuel delimiter. rw (r, list) refl),
      (λ body given options. rw q refl),
      (λ choose disk path options. rw (q, put_file, check_put_file) refl),
    )

-- A variable of the environment, empty where it is not set.
abbrev variable : World → Text → Text
variable w name = elim (w.getenv name) [ none ↦ [] | some value ↦ value ]

env_or-variable : (w : World) (name : Text) → env_or w name [] ≡ variable w name
unfolding env_or
env_or-variable w name = same (w.getenv name)
  where
    same :
        (o : Option Text)
        → (elim o [ none ↦ [] | some value ↦ if is_empty value then [] else value ])
          ≡ (elim o [ none ↦ [] | some value ↦ value ])
    same none = refl
    same (some []) = refl
    same (some (x ∷ value)) = refl

-- Whether the options, or AWS_ALLOW_HTTP with "true" in letters of any case, allow plain HTTP.
abbrev pub allows_http : World → ClientOptions → Bool
allows_http w o =
    o.allow_http || text_eq (map to_lower (variable w (codes "AWS_ALLOW_HTTP"))) (codes "true")

-- The endpoint of the options, or of AWS_ENDPOINT_URL.
abbrev pub chosen_endpoint : World → ClientOptions → Text
chosen_endpoint w o =
    if is_empty o.endpoint then variable w (codes "AWS_ENDPOINT_URL") else o.endpoint

-- One key without the other, or plain HTTP that nothing allows.
abbrev pub is_refused : World → ClientOptions → Bool
is_refused w o =
    (if is_empty o.access_key_id
      then not (is_empty o.secret_access_key)
      else is_empty o.secret_access_key)
    || (starts_with (codes "http://") (chosen_endpoint w o) && not (allows_http w o))

http_allowed-eq-allows_http : (w : World) (o : ClientOptions) → http_allowed w o ≡ allows_http w o
unfolding http_allowed
http_allowed-eq-allows_http w o = rw (env_or-variable w (codes "AWS_ALLOW_HTTP")) refl

client_endpoint-eq-chosen_endpoint :
    (w : World) (o : ClientOptions) → client_endpoint w o ≡ chosen_endpoint w o
client_endpoint-eq-chosen_endpoint w o = rw (env_or-variable w (codes "AWS_ENDPOINT_URL")) refl

refuses_iff :
    (w : World) (o : ClientOptions) (s : w.State)
    → is_empty (new_client w o s).refusal
      ≡ not (
          (if is_empty o.access_key_id
            then not (is_empty o.secret_access_key)
            else is_empty o.secret_access_key)
          || (starts_with (codes "http://") (client_endpoint w o) && not (http_allowed w o)))
unfolding new_client client_keys endpoint_refusal
refuses_iff w o s = elim (Bool-cases (starts_with (codes "http://") (client_endpoint w o))) [
  | inl p ↦ ground arith
  | inr p ↦ ground arith
]

-- The constructor makes a client that refuses calls exactly where one key is given without the
-- other, or the endpoint (of the options, or else of AWS_ENDPOINT_URL) is plain HTTP, and neither the
-- options nor an AWS_ALLOW_HTTP that says true in letters of any case allow that.
pub new_client-refuses_iff :
    (w : World) (o : ClientOptions) (s : w.State)
    → is_empty (new_client w o s).refusal ≡ not (is_refused w o)
new_client-refuses_iff w o s =
    refuses_iff w o s
    ∙ rw (client_endpoint-eq-chosen_endpoint w o, http_allowed-eq-allows_http w o) refl
