-- ===== src/Sigv4/Order.antt =====
-- The order in which a caller lists the headers does not reach the signature.
use mathlib.Core.List.{Permᴰ, Perm, Nodup, Nodup-cons, mem-cons_self}
use mathlib.Core.List.Perm
use mathlib.Core.HLevel.{hedberg}
use mathlib.Core.Logic.{∥∥₁_elim}
use native.Mathlib.Decide.{ℕ_discrete}
use nanos3reader.Sigv4.{
  CanonicalRequest, canonical_request, string_to_sign, Header, sort_headers, build_authorization,
  insert_header,
}
use nanos3reader.Prelude.{
  Bool-cases, ◌≡◌, refl, true, false, [], ◌∷◌, arith, ap, ◌∙◌, ◌≢◌, inl, inr, List, map,
}
use nanos3reader.Text.{Text, text_lt}

text_lt_irrefl : (s : Text) → text_lt s s ≡ false
unfolding text_lt
text_lt_irrefl [] = refl
text_lt_irrefl (c ∷ s) = ground (arith, text_lt_irrefl s)

text_lt_asymm : (s t : Text) → text_lt s t ≡ true → text_lt t s ≡ false
unfolding text_lt
text_lt_asymm s [] h = cc
text_lt_asymm [] (d ∷ t) h = refl
text_lt_asymm (c ∷ s) (d ∷ t) h = ground (arith, text_lt_asymm s t)

text_lt_connected : (s t : Text) → text_lt s t ≡ false → text_lt t s ≡ false → s ≡ t
unfolding text_lt
text_lt_connected [] [] h k = refl
text_lt_connected (c ∷ s) [] h k = cc
text_lt_connected [] (d ∷ t) h k = cc
text_lt_connected (c ∷ s) (d ∷ t) h k = ground (arith, text_lt_connected s t)

text_lt_trans : (s t u : Text) → text_lt s t ≡ true → text_lt t u ≡ true → text_lt s u ≡ true
unfolding text_lt
text_lt_trans s t [] h k = cc
text_lt_trans s [] (e ∷ u) h k = cc
text_lt_trans [] (d ∷ t) (e ∷ u) h k = refl
text_lt_trans (c ∷ s) (d ∷ t) (e ∷ u) h k = ground (arith, text_lt_trans s t u)

text_le_lt_trans : (s t u : Text) → text_lt t s ≡ false → text_lt t u ≡ true → text_lt s u ≡ true
text_le_lt_trans s t u h k = elim (Bool-cases (text_lt s t)) [
  | inl e ↦ text_lt_trans s t u e k
  | inr e ↦ rw (text_lt_connected s t e h) k
]

-- Two headers of different names go in in either order.
insert_comm :
    (a b : Header) (hs : List Header)
    → a.name ≢ b.name
    → insert_header a (insert_header b hs) ≡ insert_header b (insert_header a hs)
unfolding insert_header
insert_comm a b [] ne = ground (arith, text_lt_asymm a.name b.name, text_lt_connected a.name b.name)
insert_comm a b (k ∷ hs) ne = ground (
  arith,
  insert_comm a b hs ne,
  text_lt_asymm a.name b.name,
  text_lt_connected a.name b.name,
  text_le_lt_trans b.name k.name a.name,
  text_le_lt_trans a.name k.name b.name,
)

-- The names of the headers differ.
abbrev pub DistinctNames : List Header → Type 0
DistinctNames hs = Nodup (map (λ h. h.name) hs)

sort_headers-Permᴰ :
    {hs ks : List Header} → Permᴰ hs ks → DistinctNames hs → sort_headers hs ≡ sort_headers ks
unfolding sort_headers
sort_headers-Permᴰ Permᴰ.nil d = refl
sort_headers-Permᴰ (Permᴰ.cons {a = h} {b = k} e p) d =
    rw e (ap (insert_header k) (sort_headers-Permᴰ p (Nodup-cons.0 d).1))
sort_headers-Permᴰ (Permᴰ.swap {a = a} {b = b} {a' = a'} {b' = b'} {l = l} e f) d =
    rw (← e, ← f) (insert_comm a b (sort_headers l) (λ q. (Nodup-cons.0 d).0 (rw q mem-cons_self)))
sort_headers-Permᴰ (Permᴰ.trans p q) d =
    sort_headers-Permᴰ p d ∙ sort_headers-Permᴰ q (Perm.nodup (Perm.map _ ∣ p ∣₁) d)

Header-set : IsSet Header
Header-set = hedberg (hlevel ℕ_discrete)

List-Header-set : IsSet (List Header)
List-Header-set = hlevel Header-set

pub sort_headers-Perm :
    {hs ks : List Header} → Perm hs ks → DistinctNames hs → sort_headers hs ≡ sort_headers ks
sort_headers-Perm p d = ∥∥₁_elim p (List-Header-set _ _) (λ q. sort_headers-Permᴰ q d)

-- Two requests that differ only in the order of their headers, whose names are distinct, get the
-- same Authorization value, whatever the hash is.
pub build_authorization-Perm :
    (sha256_raw : Text → Text) (req : CanonicalRequest) (headers : List Header)
    (access_key secret_key region service amz_date : Text)
    → Perm req.headers headers
    → DistinctNames req.headers
    → build_authorization sha256_raw req access_key secret_key region service amz_date
      ≡ build_authorization sha256_raw
          (record req { headers = headers })
          access_key
          secret_key
          region
          service
          amz_date
unfolding build_authorization string_to_sign canonical_request
build_authorization-Perm sha256_raw req headers ak sk region service amz_date p d =
    rw (sort_headers-Perm p d)
