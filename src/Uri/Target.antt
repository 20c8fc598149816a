-- ===== src/Uri/Target.antt =====
-- The parts of a request target, and what they stand for.
use nanos3reader.Prelude.{
  ℕ, ◌<◌, ◌≡◌, refl, false, ◌&&◌, some, [], ◌∷◌, ◌++◌, arith, ◌==◌, if◌then◌else◌, All-append,
}
use nanos3reader.Text.{Text, codes, is_empty, starts_with, ends_with_char}
use nanos3reader.Encode.{uri_encode_path}
use nanos3reader.Encode.Hex.{AreBytes}
use nanos3reader.Encode.Percent.{percent_decode, percent_decode-uri_encode_path}
use nanos3reader.Uri.{Config, drop_slashes, split_endpoint, build_endpoint}

end_step :
    (c d : ℕ) (t : Text)
    → ends_with_char c t ≡ false
    → ends_with_char c (if is_empty t && d == c then [] else d ∷ t) ≡ false
unfolding ends_with_char
end_step c d [] h = ground arith
end_step c d (e ∷ t) h = h

drop_slashes-end : (s : Text) → ends_with_char b'/' (drop_slashes s) ≡ false
unfolding drop_slashes
drop_slashes-end [] = unfold ends_with_char in refl
drop_slashes-end (c ∷ s) = end_step b'/' c (drop_slashes s) (drop_slashes-end s)

-- The path that a request must name: the key, behind the bucket in path style.
unfoldable pub object_path : Config → Text → Text → Text
object_path cfg bucket key =
    if cfg.path_style then codes "/" ++ (bucket ++ (codes "/" ++ key)) else codes "/" ++ key

-- Plain HTTP is used for a custom endpoint that says so, and HTTPS for every other.
unfoldable pub expected_scheme : Config → Text
expected_scheme cfg =
    if cfg.path_style && starts_with (codes "http://") cfg.endpoint
    then codes "http://"
    else codes "https://"

object_path-AreBytes :
    (cfg : Config) (bucket key : Text)
    → AreBytes bucket
    → AreBytes key
    → AreBytes (object_path cfg bucket key)
unfolding object_path
object_path-AreBytes cfg bucket key hb hk =
    ground (arith, All-append (λ c. c < 256) bucket (codes "/" ++ key) hb (omega arith, hk))

build_endpoint-path :
    (cfg : Config) (bucket key region : Text)
    → (build_endpoint cfg bucket key region).path ≡ uri_encode_path (object_path cfg bucket key)
unfolding build_endpoint object_path
build_endpoint-path cfg bucket key region = ground arith

build_endpoint-url :
    (cfg : Config) (bucket key region : Text)
    → let e = build_endpoint cfg bucket key region in
      e.url ≡ expected_scheme cfg ++ (e.host ++ e.path)
unfolding build_endpoint expected_scheme split_endpoint
build_endpoint-url cfg bucket key region = ground arith

build_endpoint-host :
    (cfg : Config) (bucket key region : Text)
    → (cfg.path_style && ends_with_char b'/' (build_endpoint cfg bucket key region).host) ≡ false
unfolding build_endpoint
build_endpoint-host cfg bucket key region =
    ground (arith, drop_slashes-end (split_endpoint cfg.endpoint).1)

-- The path decodes to the object's path, the URL is scheme, host and path, with the scheme that the
-- endpoint asks for, and a custom host does not end in a slash.
pub build_endpoint_lem :
    (cfg : Config) (bucket key region : Text)
    → AreBytes bucket
    → AreBytes key
    → let e = build_endpoint cfg bucket key region in
      (percent_decode e.path ≡ some (object_path cfg bucket key))
      × (e.url ≡ expected_scheme cfg ++ (e.host ++ e.path))
      × ((cfg.path_style && ends_with_char b'/' e.host) ≡ false)
build_endpoint_lem cfg bucket key region hb hk = (
  rw build_endpoint-path
      (percent_decode-uri_encode_path _ (object_path-AreBytes cfg bucket key hb hk)),
  build_endpoint-url cfg bucket key region,
  build_endpoint-host cfg bucket key region,
)
