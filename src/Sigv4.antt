-- ===== src/Sigv4.antt =====
-- AWS Signature Version 4 (namespace s3v4 of src/s3_reader.cpp) over a SHA-256 primitive: HMAC, the
-- signing key, and the Authorization header. The primitive is a parameter: OpenSSL's, or the bundled
-- one of Sha256.
pub mod Order
use Prim.Native.Nat.{bit_xor}
use nanos3reader.Prelude.{
  ℕ, zero, suc, ◌+◌, ◌-◌, ◌*◌, ◌/◌, ◌%◌, ◌^◌, ◌≤◌, ◌<◌, min, max, ◌≡◌, refl, sym, ap, ◌∙◌, subst,
  ◌≢◌, ◌↔◌, ◌⊎◌, inl, inr, Bool, true, false, not, ◌&&◌, ◌||◌, Option, none, some, List, [], ◌∷◌,
  map, ◌++◌, arith, ltb, leb, ◌==◌, if◌then◌else◌, ltb→lt, lt→ltb, leb→le, ==_iff, tests,
  Bool-cases, Option-cases, all_below, all_below_sound, length, get_elem?, take, drop, replicate,
  set, All, length-append, take-append-drop, length-take, length-drop, length-replicate, length-map,
  length-set, take-append, drop-append, take-all, drop-all, get_elem?-take, get_elem?-drop,
  get_elem?-none, All-append,
}
use nanos3reader.Text.{Text, codes, text_lt, trim, substr}
use nanos3reader.Encode.{hex_encode}

pub record Header : Type 0 where
  pub name : Text
  pub value : Text

pub record CanonicalRequest : Type 0 where
  pub method : Text
  pub uri : Text
  pub query : Text
  pub headers : List Header
  pub payload_hash : Text

-- std::sort by name. The names of a request differ, so every sort gives this list.
unfoldable pub insert_header : Header → List Header → List Header
unfolding text_lt
insert_header h [] = h ∷ []
insert_header h (k ∷ hs) = if text_lt k.name h.name then k ∷ insert_header h hs else h ∷ (k ∷ hs)

unfoldable pub sort_headers : List Header → List Header
unfolding insert_header
sort_headers [] = []
sort_headers (h ∷ hs) = insert_header h (sort_headers hs)

unfoldable pub canonical_headers : List Header → Text
unfolding trim
canonical_headers [] = []
canonical_headers (h ∷ hs) = h.name ++ (codes ":" ++ (trim h.value ++ (10 ∷ canonical_headers hs)))

-- A ';' stands behind every name but the last.
unfoldable pub signed_headers : List Header → Text
signed_headers [] = []
signed_headers (h ∷ []) = h.name
signed_headers (h ∷ k ∷ hs) = h.name ++ (codes ";" ++ signed_headers (k ∷ hs))

unfoldable pub canonical_request : CanonicalRequest → Text
unfolding canonical_headers signed_headers sort_headers
canonical_request req =
    let headers = sort_headers req.headers in
    req.method
    ++ (10
        ∷ (req.uri
            ++ (10
                ∷ (req.query
                    ++ (10
                        ∷ (canonical_headers headers
                            ++ (10 ∷ (signed_headers headers ++ (10 ∷ req.payload_hash)))))))))

abbrev pub credential_scope : Text → Text → Text → Text
credential_scope date region service =
    date ++ (codes "/" ++ (region ++ (codes "/" ++ (service ++ codes "/aws4_request"))))

-- `unsigned char k[64] = {0}` with the key copied to its front
abbrev pub pad_key : Text → Text
pad_key key = key ++ replicate (64 - length key) 0

module _ (sha256_raw : Text → Text) where
  unfoldable pub sha256_hex : Text → Text
  unfolding hex_encode
  sha256_hex payload = hex_encode (sha256_raw payload)

  -- hmac_sha256 and hmac_sha256_raw
  unfoldable pub hmac_sha256 : Text → Text → Text
  hmac_sha256 key msg =
      let k = pad_key (if ltb 64 (length key) then sha256_raw key else key) in
      let ipad = map (λ b. bit_xor b 0x36) k in
      let opad = map (λ b. bit_xor b 0x5c) k in sha256_raw (opad ++ sha256_raw (ipad ++ msg))

  unfoldable pub derive_signing_key : Text → Text → Text → Text → Text
  unfolding hmac_sha256
  derive_signing_key secret date region service =
      let k_date = hmac_sha256 (codes "AWS4" ++ secret) date in
      let k_region = hmac_sha256 k_date region in
      let k_service = hmac_sha256 k_region service in hmac_sha256 k_service (codes "aws4_request")

  unfoldable pub string_to_sign : CanonicalRequest → Text → Text → Text → Text
  unfolding canonical_request sha256_hex substr
  string_to_sign req region service amz_date =
      codes "AWS4-HMAC-SHA256"
      ++ (10
          ∷ (amz_date
              ++ (10
                  ∷ (credential_scope (substr amz_date 0 8) region service
                      ++ (10 ∷ sha256_hex (canonical_request req))))))

  unfoldable pub signature : CanonicalRequest → Text → Text → Text → Text → Text
  unfolding string_to_sign derive_signing_key hmac_sha256 substr hex_encode
  signature req secret_key region service amz_date = hex_encode (
      hmac_sha256 (derive_signing_key secret_key (substr amz_date 0 8) region service)
        (string_to_sign req region service amz_date))

  unfoldable pub build_authorization : CanonicalRequest → Text → Text → Text → Text → Text → Text
  unfolding signature signed_headers sort_headers substr
  build_authorization req access_key secret_key region service amz_date =
      codes "AWS4-HMAC-SHA256 Credential="
      ++ (access_key
          ++ (codes "/"
              ++ (credential_scope (substr amz_date 0 8) region service
                  ++ (codes ", SignedHeaders="
                      ++ (signed_headers (sort_headers req.headers)
                          ++ (codes ", Signature="
                              ++ signature req secret_key region service amz_date))))))
