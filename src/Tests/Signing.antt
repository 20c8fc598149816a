-- ===== src/Tests/Signing.antt =====
-- Witnesses: SHA-256 and the Authorization header.
use mathlib.Core.Logic.{∥∥₁_elim}
use mathlib.Core.HLevel.{⊥_prop}
use mathlib.Core.List.Memᴰ
use mathlib.Core.List.{Nodup-cons, Pairwise, not-mem-nil}
use mathlib.Core.List.Perm
use nanos3reader.Prelude.{◌≡◌, ◌≢◌, inl, inr, [], ◌∷◌, arith}
use nanos3reader.Text.{codes}
use nanos3reader.Sha256.{init, update, sha256_raw}
use nanos3reader.Sha256.Streaming.{update-append}
use nanos3reader.Sha256.Padding.{sha256_spec, sha256_raw-eq-sha256_spec}
use nanos3reader.Sigv4.{CanonicalRequest, Header, build_authorization}
use nanos3reader.Sigv4.Order.{DistinctNames, build_authorization-Perm}
use nanos3reader.Http.Request.{header}

update-append_example : update (update init (codes "ab")) (codes "c") ≡ update init (codes "abc")
update-append_example = update-append init (codes "ab") (codes "c") (omega arith)

sha256_raw-eq-sha256_spec_example : sha256_raw (codes "abc") ≡ sha256_spec (codes "abc")
sha256_raw-eq-sha256_spec_example = sha256_raw-eq-sha256_spec (codes "abc") (omega arith)

abbrev host_header : Header
host_header = header (codes "host") (codes "h")

abbrev date_header : Header
date_header = header (codes "x-amz-date") (codes "20130524T000000Z")

abbrev two_headers : CanonicalRequest
two_headers = record {
  method = codes "GET";
  uri = codes "/";
  query = [];
  headers = date_header ∷ host_header ∷ [];
  payload_hash = codes "UNSIGNED-PAYLOAD";
}

names_differ : date_header.name ≢ host_header.name
names_differ e = cc

distinct_names : DistinctNames two_headers.headers
distinct_names = Nodup-cons.1 (
  (λ m.
      ∥∥₁_elim m ⊥_prop
        (λ d. elim (Memᴰ.cases_cons d) [ inl e ↦ names_differ e | inr n ↦ Memᴰ.not-nil n ])),
  Nodup-cons.1 (not-mem-nil, Pairwise.nil),
)

build_authorization-Perm_example :
    build_authorization sha256_raw two_headers
      (codes "AK")
      (codes "SK")
      (codes "r")
      (codes "s3")
      (codes "20130524T000000Z")
    ≡ build_authorization sha256_raw
        (record two_headers { headers = host_header ∷ date_header ∷ [] })
        (codes "AK")
        (codes "SK")
        (codes "r")
        (codes "s3")
        (codes "20130524T000000Z")
build_authorization-Perm_example =
    build_authorization-Perm sha256_raw two_headers (host_header ∷ date_header ∷ []) (codes "AK")
      (codes "SK") (codes "r") (codes "s3") (codes "20130524T000000Z")
      (Perm.swap host_header date_header []) distinct_names
