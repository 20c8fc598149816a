-- ===== src/Uri.antt =====
-- The addresses of src/s3_reader.cpp: s3:// URIs (split_s3_uri, the head of
-- S3MinStreamFactory::open) and request targets (build_endpoint).
pub mod Split
pub mod Target
use nanos3reader.Prelude.{
  ℕ, zero, suc, ◌+◌, ◌-◌, ◌*◌, ◌/◌, ◌%◌, ◌^◌, ◌≤◌, ◌<◌, min, max, ◌≡◌, refl, sym, ap, ◌∙◌, subst,
  ◌≢◌, ◌↔◌, ◌⊎◌, inl, inr, Bool, true, false, not, ◌&&◌, ◌||◌, Option, none, some, List, [], ◌∷◌,
  map, ◌++◌, arith, ltb, leb, ◌==◌, if◌then◌else◌, ltb→lt, lt→ltb, leb→le, ==_iff, tests,
  Bool-cases, Option-cases, all_below, all_below_sound, length, get_elem?, take, drop, replicate,
  set, All, length-append, take-append-drop, length-take, length-drop, length-replicate, length-map,
  length-set, take-append, drop-append, take-all, drop-all, get_elem?-take, get_elem?-drop,
  get_elem?-none,
}
use nanos3reader.Text.{Text, codes, is_empty, starts_with, find_char, substr, substr_from}
use nanos3reader.Encode.{uri_encode_path}
use nanos3reader.Result.{Result, ok, err}

abbrev pub scheme : Text
scheme = codes "s3://"

abbrev pub malformed_uri : Text
malformed_uri = codes "malformed s3:// URI (expected s3://bucket/key)"

-- rest.substr(0, slash) and the text behind the slash; npos takes the whole rest and no key
abbrev pub cut_at : Text → Option ℕ → Text × Text
cut_at rest none = (rest, [])
cut_at rest (some slash) = (take slash rest, drop (slash + 1) rest)

abbrev pub cut_bucket : Text → Text × Text
cut_bucket rest = cut_at rest (find_char b'/' rest)

-- bucket and key; the flag says that a key is needed
unfoldable pub split_s3_uri : Text → Bool → Result (Text × Text)
unfolding starts_with
split_s3_uri uri need_key =
    if starts_with scheme uri
    then (let (bucket, key) = cut_bucket (drop 5 uri) in
        if is_empty bucket || (need_key && is_empty key)
        then err (uri ++ (codes ": " ++ malformed_uri))
        else ok (bucket, key))
    else err (uri ++ codes ": not an s3:// URI")

-- The part of S3MinStreamFactory::open that reads the URI.
unfoldable pub open_target : Text → Result (Text × Text)
unfolding starts_with find_char
open_target uri =
    if starts_with scheme uri
    then (let rest = drop 5 uri in
        elim (find_char b'/' rest) [
          | none ↦ err malformed_uri
          | some slash ↦
              if slash == 0 || leb (length rest) (slash + 1)
              then err malformed_uri
              else ok (take slash rest, drop (slash + 1) rest)
        ])
    else err (codes "not an s3:// URI")

-- s3detail::Config without the credential provider, which is passed beside it.
pub record Config : Type 0 where
  pub region : Text
  pub endpoint : Text
  pub path_style : Bool
  pub max_attempts : ℕ

pub record Endpoint : Type 0 where
  pub host : Text
  pub url : Text
  pub path : Text

-- while (!ep.empty() && ep.back() == '/') ep.pop_back();
unfoldable pub drop_slashes : Text → Text
drop_slashes [] = []
drop_slashes (c ∷ s) =
    let rest = drop_slashes s in if is_empty rest && c == b'/' then [] else c ∷ rest

-- The scheme of a custom endpoint and the rest behind it.
unfoldable pub split_endpoint : Text → Text × Text
unfolding starts_with
split_endpoint ep =
    if starts_with (codes "http://") ep
    then (codes "http://", drop 7 ep)
    else if starts_with (codes "https://") ep
    then (codes "https://", drop 8 ep)
    else (codes "https://", ep)

unfoldable pub build_endpoint : Config → Text → Text → Text → Endpoint
unfolding split_endpoint drop_slashes uri_encode_path
build_endpoint cfg bucket key region =
    if cfg.path_style
    then (let (ep_scheme, ep) = split_endpoint cfg.endpoint in
        let host = drop_slashes ep in
        let path = uri_encode_path (codes "/" ++ (bucket ++ (codes "/" ++ key))) in
        record { host = host; url = ep_scheme ++ (host ++ path); path = path })
    else (let host = bucket ++ (codes ".s3." ++ (region ++ codes ".amazonaws.com")) in
        let path = uri_encode_path (codes "/" ++ key) in
        record { host = host; url = codes "https://" ++ (host ++ path); path = path })
