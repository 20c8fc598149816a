-- ===== src/Tests/Vectors.antt =====
-- The known-answer tests of tests/sigv4_test.cpp, over the bundled SHA-256.
use nanos3reader.Prelude.{◌≡◌, refl, [], ◌∷◌}
use nanos3reader.Text.{Text, codes}
use nanos3reader.Sha256.{sha256_raw}
use nanos3reader.Sigv4.{sha256_hex, derive_signing_key, build_authorization, CanonicalRequest}
use nanos3reader.Encode.{hex_encode}

sha256_of_empty :
    sha256_hex sha256_raw []
    ≡ codes "e3b0c44298fc1c149afbf4c8996fb92427ae41e4649b934ca495991b7852b855"
unfolding sha256_hex sha256_raw
sha256_of_empty = refl

abbrev example_secret : Text
example_secret = codes "wJalrXUtnFEMI/K7MDENG+bPxRfiCYEXAMPLEKEY"

signing_key_vector :
    hex_encode (
      derive_signing_key sha256_raw example_secret
        (codes "20120215")
        (codes "us-east-1")
        (codes "iam"))
    ≡ codes "f4780e2d9f65fa895f9c67b32ce1baf0b0d8a43505a000a1a9e090d414db404d"
unfolding hex_encode derive_signing_key sha256_raw
signing_key_vector = refl

abbrev get_vanilla : CanonicalRequest
get_vanilla = record {
  method = codes "GET";
  uri = codes "/";
  query = [];
  headers =
      record { name = codes "x-amz-date"; value = codes "20150830T123600Z" }
      ∷ record { name = codes "host"; value = codes "example.amazonaws.com" }
      ∷ [];
  payload_hash = sha256_hex sha256_raw [];
}

get_vanilla_vector :
    build_authorization sha256_raw get_vanilla
      (codes "AKIDEXAMPLE")
      example_secret
      (codes "us-east-1")
      (codes "service")
      (codes "20150830T123600Z")
    ≡ codes
        "AWS4-HMAC-SHA256 Credential=AKIDEXAMPLE/20150830/us-east-1/service/aws4_request, SignedHeaders=host;x-amz-date, Signature=5fa00fa31553b73ebf1942676e86291e8372ff2a2260956d9b8aae1d763fbf31"
unfolding build_authorization sha256_raw sha256_hex
get_vanilla_vector = refl
