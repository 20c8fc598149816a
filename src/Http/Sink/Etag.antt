-- ===== src/Http/Sink/Etag.antt =====
-- The ETag that capture_etag reads from a header line.
use nanos3reader.Prelude.{
  ℕ, ◌-◌, ◌%◌, ◌^◌, ◌≤◌, ◌<◌, ◌≡◌, refl, ap, ◌∙◌, Bool, true, false, none, some, [], ◌∷◌, ◌++◌,
  arith, ltb, lt→ltb, length, take, All, length-append, drop-append, take-all,
}
use nanos3reader.Text.{
  Text, codes, text_eq, find_first_not_of, find_last_not_of, is_blank, is_space,
}
use nanos3reader.Http.Sink.{to_lower, etag_count, capture_etag}

find_first_not_of-append :
    (p : ℕ → Bool) (blanks : Text) (c : ℕ) (t : Text)
    → All (λ b. p b ≡ true) blanks
    → p c ≡ false
    → find_first_not_of p (blanks ++ c ∷ t) ≡ some (length blanks)
unfolding find_first_not_of
find_first_not_of-append p [] c t all h = rw h refl
find_first_not_of-append p (b ∷ blanks) c t all h =
    rw (all.0, find_first_not_of-append p blanks c t all.1 h) (ap some (omega arith))

find_last_not_of-none :
    (p : ℕ → Bool) (t : Text) → All (λ b. p b ≡ true) t → find_last_not_of p t ≡ none
unfolding find_last_not_of
find_last_not_of-none p [] all = refl
find_last_not_of-none p (b ∷ t) all = rw (find_last_not_of-none p t all.1, all.0) refl

blank-space : (b : ℕ) → is_blank b ≡ true → is_space b ≡ true
blank-space b h = ground arith

blanks_then_break :
    (blanks : Text)
    → All (λ b. is_blank b ≡ true) blanks
    → All (λ b. is_space b ≡ true) (blanks ++ codes "\r\n")
blanks_then_break [] all = (refl, (refl, tt))
blanks_then_break (b ∷ blanks) all = (blank-space b all.0, blanks_then_break blanks all.1)

-- A line whose value is blank does not give the empty ETag, but the line break: the count of the
-- characters to keep wraps around.
capture_etag-blank :
    (etag blanks : Text)
    → All (λ b. is_blank b ≡ true) blanks
    → 0 < length blanks
    → length blanks < 2 ^ 63
    → capture_etag etag (codes "ETag:" ++ (blanks ++ codes "\r\n")) ≡ codes "\r\n"
unfolding capture_etag text_eq to_lower
capture_etag-blank etag blanks all some_blank few =
    let value = blanks ++ codes "\r\n" in
    let first = find_first_not_of-append is_blank blanks 13 (10 ∷ []) all refl in
    let last = find_last_not_of-none is_space value (blanks_then_break blanks all) in
    let len = length-append blanks (codes "\r\n") in
    let long : ltb 5 (length (codes "ETag:" ++ value)) ≡ true = lt→ltb _ _ (omega (arith, len)) in
    let rest = drop-append blanks (codes "\r\n") (length blanks) refl in
    let count : 2 ≤ (2 ^ 64 - length blanks) % 2 ^ 64 = omega arith in
    let n = etag_count none (length blanks) in
    rw (capture_etag, long, first, last) (ap (take n) rest ∙ take-all n (codes "\r\n") count)
