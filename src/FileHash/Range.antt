-- ===== src/FileHash/Range.antt =====
-- What sha256_file_hex gives: the hash of the range, where the file has all of it.
use mathlib.Core.List.{append-nil, append_assoc}
use nanos3reader.Prelude.{
  ℕ, zero, suc, ◌+◌, ◌-◌, ◌*◌, ◌/◌, ◌≤◌, min, ◌≡◌, refl, sym, ap, ◌∙◌, inl, inr, true, false,
  Option, none, some, [], ◌++◌, arith, leb, ◌==◌, if◌then◌else◌, Bool-cases, length, take, drop,
  length-take, length-drop, take-add, ◌^◌, ◌&&◌, ltb,
}
use nanos3reader.Text.{Text}
use nanos3reader.Encode.{hex_encode}
use nanos3reader.Sha256.{
  Sha256, init as sha_init, update as sha_update, finish as sha_finish, sha256_raw, update_loop,
}
use nanos3reader.Sha256.Streaming.{update-append}
use nanos3reader.FileHash.{Hasher, read_chunk, hash_loop, hash_digest, sha256_file_hex}

leb-sub_drop :
    (left n : ℕ) (rest : Text)
    → n ≤ left
    → n ≤ length rest
    → leb (left - n) (length (drop n rest)) ≡ leb left (length rest)
leb-sub_drop left n rest h k =
    let e = length-drop n rest in
    elim (Bool-cases (leb left (length rest))) [ inl q ↦ ground arith | inr q ↦ ground arith ]

take-split :
    (left n : ℕ) (rest : Text)
    → n ≤ left
    → take n rest ++ take (left - n) (drop n rest) ≡ take left rest
take-split left n rest h =
    sym (take-add n (left - n) rest) ∙ ap (λ (k : ℕ). take k rest) (omega arith)

module _ {digest : Text → Text} (h : Hasher digest) where
  open h use {State, init, update, finish, update-nil, update-append, finish-update}

  abbrev in_file : ℕ → Text → Text → Option State
  in_file left rest m =
      if leb left (length rest) then some (update init (m ++ take left rest)) else none

  hash_loop-read :
      (fuel left : ℕ) (rest m : Text)
      → left + read_chunk ≤ fuel * read_chunk
      → hash_loop h fuel left rest (update init m) ≡ in_file left rest m
  unfolding hash_loop
  hash_loop-read zero left rest m k = absurd (omega arith)
  hash_loop-read (suc fuel) left rest m k = elim (Bool-cases (left == 0)) [
    | inl e ↦
        let z : left ≡ 0 = ground arith in
        let none_left : take left rest ≡ [] = ap (λ (j : ℕ). take j rest) z in
        let whole : leb left (length rest) ≡ true = ground arith in
        rw (e, whole, none_left, append-nil m) refl
    | inr e ↦
        let n = min left read_chunk in
        elim (Bool-cases (length (take n rest) == n)) [
          | inl q ↦
              let enough : n ≤ length rest = ground (arith, length-take n rest) in
              let ih =
                hash_loop-read fuel (left - n) (drop n rest) (m ++ take n rest) (ground arith) in
              rw
                (
                  e,
                  q,
                  update-append m (take n rest),
                  ih,
                  leb-sub_drop left n rest (omega arith) enough,
                  append_assoc m (take n rest) (take (left - n) (drop n rest)),
                  take-split left n rest (omega arith),
                )
                refl
          | inr q ↦
              let short : leb left (length rest) ≡ false = ground (arith, length-take n rest) in
              rw (e, q, short) refl
        ]
  ]

  hash_digest_lem :
      (bytes : Text) (offset len : ℕ)
      → hash_digest h (hash_loop h (len / read_chunk + 2) len (drop offset bytes) init) ≡ (
          if leb len (length bytes - offset)
          then some (hex_encode (digest (take len (drop offset bytes))))
          else none)
  unfolding hash_digest
  hash_digest_lem bytes offset len =
      let rest = drop offset bytes in
      let read =
        ap (λ (s : State). hash_loop h (len / read_chunk + 2) len rest s) (sym update-nil)
        ∙ hash_loop-read (len / read_chunk + 2) len rest [] (omega arith) in
      elim (Bool-cases (leb len (length bytes - offset))) [
        | inl q ↦
            let p : leb len (length rest) ≡ true = rw (length-drop offset bytes) q in
            rw (q, read, p, finish-update) refl
        | inr q ↦
            let p : leb len (length rest) ≡ false = rw (length-drop offset bytes) q in
            rw (q, read, p) refl
      ]

  -- The hash of a range of a file, in hex, where the offset is below 2^63 and the file holds the whole
  -- range; otherwise nothing, and never a hash of fewer bytes. An empty range is hashed wherever it
  -- stands below 2^63.
  pub sha256_file_hex_lem :
      (bytes : Text) (offset len : ℕ)
      → sha256_file_hex h bytes offset len ≡ (
          if ltb offset (2 ^ 63) && leb len (length bytes - offset)
          then some (hex_encode (digest (take len (drop offset bytes))))
          else none)
  unfolding sha256_file_hex
  sha256_file_hex_lem bytes offset len = elim (Bool-cases (leb (2 ^ 63) offset)) [
    | inl e ↦ let out : ltb offset (2 ^ 63) ≡ false = ground arith in rw (e, out) refl
    | inr e ↦
        let in_reach : ltb offset (2 ^ 63) ≡ true = ground arith in
        rw (e, in_reach) (hash_digest_lem bytes offset len)
  ]

pub sha_update-nil : sha_update sha_init [] ≡ sha_init
unfolding sha_update update_loop
sha_update-nil = refl

pub sha_update-append :
    (p q : Text) → sha_update (sha_update sha_init p) q ≡ sha_update sha_init (p ++ q)
sha_update-append p q = update-append sha_init p q (omega arith)

pub finish-sha_update : (m : Text) → sha_finish (sha_update sha_init m) ≡ sha256_raw m
unfolding sha256_raw
finish-sha_update m = refl

-- The bundled Sha256.
abbrev pub bundled : Hasher sha256_raw
bundled = record {
  State = Sha256;
  init = sha_init;
  update = sha_update;
  finish = sha_finish;
  update-nil = sha_update-nil;
  update-append = sha_update-append;
  finish-update = finish-sha_update;
}

-- OpenSSL's context, as the message that it has taken.
abbrev pub evp : (digest : Text → Text) → Hasher digest
evp digest = record {
  State = Text;
  init = [];
  update = ◌++◌;
  finish = digest;
  update-nil = refl;
  update-append = λ p q. refl;
  finish-update = λ m. refl;
}
