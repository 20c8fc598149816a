-- ===== src/Sha256/Padding.antt =====
-- The streaming hash against the one-shot definition of FIPS 180-4: pad the message to whole
-- blocks, and compress them in turn.
use mathlib.Core.List.{append_assoc}
use nanos3reader.Prelude.{
  ℕ, zero, suc, ◌+◌, ◌-◌, ◌*◌, ◌/◌, ◌%◌, ◌^◌, ◌≤◌, ◌<◌, ◌≡◌, refl, sym, ap, ◌∙◌, subst, inl, inr,
  true, false, [], ◌∷◌, ◌++◌, arith, ◌==◌, ==_iff, Bool-cases, length, take, drop, replicate,
  length-append, take-append-drop, length-take, length-drop, length-replicate,
}
use nanos3reader.Text.{Text}
use nanos3reader.Sha256.{
  update, pad_loop, big_endian, digest_bytes, finish, sha256_raw, block, init, initial_words, Words,
  Sha256,
}
use nanos3reader.Sha256.Streaming.{
  feed, feed_byte, feed-append, feed-HasRoom, feed-full, update-feed, Feed, state_of, HasRoom,
}

-- The compression of whole blocks; the fuel bounds their number.
unfoldable pub compress : ℕ → Words → Text → Words
compress zero s m = s
compress (suc k) s m = compress k (block s (take 64 m)) (drop 64 m)

-- The zero bytes behind the mark 0x80, so that 8 bytes are left of the last block.
abbrev pub zeros_for : ℕ → ℕ
zeros_for n = (119 - n % 64) % 64

unfoldable pub padded : Text → Text
unfolding big_endian
padded m = m ++ (0x80 ∷ (replicate (zeros_for (length m)) 0 ++ big_endian 8 (8 * length m)))

unfoldable pub sha256_spec : Text → Text
unfolding compress padded digest_bytes
sha256_spec m = digest_bytes (compress (length (padded m) / 64) initial_words (padded m))

-- Feeding k whole blocks compresses them.
feed-blocks :
    (k : ℕ) (s : Words) (m : Text) → length m ≡ 64 * k → feed (s, []) m ≡ (compress k s m, [])
unfolding compress
feed-blocks zero s [] h = unfold feed in refl
feed-blocks zero s (c ∷ m) h = absurd (omega arith)
feed-blocks (suc k) s m h =
    let n = length-take 64 m in
    ap (feed (s, [])) (sym (take-append-drop 64 m))
    ∙ feed-append (s, []) (take 64 m) (drop 64 m)
    ∙ ap (λ (x : Feed). feed x (drop 64 m)) (feed-full s [] (take 64 m) (omega arith) (omega arith))
    ∙ feed-blocks k (block s (take 64 m)) (drop 64 m) (omega (arith, length-drop 64 m))

pending_byte :
    (s : Words) (pending : Text) (c : ℕ)
    → length pending < 64
    → length (feed_byte (s, pending) c).1 ≡ (length pending + 1) % 64
unfolding feed_byte
pending_byte s pending c h =
    let n = length-append pending (c ∷ []) in
    elim (Bool-cases (length (pending ++ c ∷ []) == 64)) [
      | inl e ↦ rw e (ground arith)
      | inr e ↦ rw e (ground arith)
    ]

-- The bytes that wait in the buffer are counted modulo the block.
pending_fed : (x : Feed) (p : Text) → HasRoom x → length (feed x p).1 ≡ (length x.1 + length p) % 64
unfolding feed
pending_fed x [] r = omega arith
pending_fed (s, pending) (c ∷ p) r =
    let n = pending_byte s pending c r in
    omega (arith, pending_fed (feed_byte (s, pending) c) p (omega arith))

-- The padding loop feeds the zeros that leave 56 bytes in the buffer.
pad_loop-feed :
    (fuel z : ℕ) (h : Sha256)
    → HasRoom (state_of h)
    → z ≤ fuel
    → z < 64
    → (length h.pending + z) % 64 ≡ 56
    → state_of (pad_loop fuel h) ≡ feed (state_of h) (replicate z 0)
unfolding pad_loop
pad_loop-feed zero zero h r k l e = unfold feed in refl
pad_loop-feed zero (suc z) h r k l e = absurd (omega arith)
pad_loop-feed (suc fuel) zero h r k l e =
    let q : (length h.pending == 56) ≡ true = (==_iff _ 56).1 (omega arith) in
    rw q (unfold feed in refl)
pad_loop-feed (suc fuel) (suc z) h r k l e =
    let q : (length h.pending == 56) ≡ false = ground arith in
    let u = (update-feed h (0 ∷ []) r).0 in
    let n = pending_fed (state_of h) (0 ∷ []) r in
    let m : length (update h (0 ∷ [])).pending ≡ (length h.pending + 1) % 64 =
      ap (λ (x : Feed). length x.1) u ∙ n in
    rw q (
      pad_loop-feed fuel z (update h (0 ∷ [])) (omega arith) (omega arith) (omega arith)
        (omega arith)
      ∙ ap (λ (x : Feed). feed x (replicate z 0)) u
      ∙ sym (feed-append (state_of h) (0 ∷ []) (replicate z 0)))

length-big_endian : (k x : ℕ) → length (big_endian k x) ≡ k
unfolding big_endian
length-big_endian zero x = refl
length-big_endian (suc k) x = ap suc (length-big_endian k x)

length-padded : (m : Text) → length (padded m) ≡ length m + 1 + zeros_for (length m) + 8
unfolding padded
length-padded m =
    let tail = replicate (zeros_for (length m)) 0 ++ big_endian 8 (8 * length m) in
    omega (
      arith,
      length-append m (0x80 ∷ tail),
      length-append (replicate (zeros_for (length m)) 0) (big_endian 8 (8 * length m)),
      length-replicate {A = ℕ} (zeros_for (length m)) 0,
      length-big_endian 8 (8 * length m),
    )

abbrev start : Feed
start = (initial_words, [])

-- The state is that after the bytes `p` of the whole input.
abbrev Fed : Sha256 → Text → Type 0
Fed h p = state_of h ≡ feed start p

Fed-HasRoom : (h : Sha256) (p : Text) → Fed h p → HasRoom (state_of h)
Fed-HasRoom h p e = subst HasRoom (sym e) (feed-HasRoom start p (omega arith))

Fed-pending : (h : Sha256) (p : Text) → Fed h p → length h.pending ≡ length p % 64
Fed-pending h p e =
    let n : length h.pending ≡ length (feed start p).1 = ap (λ (x : Feed). length x.1) e in
    omega (arith, pending_fed start p (omega arith))

Fed-append :
    (h h' : Sha256) (p q : Text) → Fed h p → state_of h' ≡ feed (state_of h) q → Fed h' (p ++ q)
Fed-append h h' p q e f = f ∙ ap (λ (x : Feed). feed x q) e ∙ sym (feed-append start p q)

update-Fed : (h : Sha256) (p q : Text) → Fed h p → Fed (update h q) (p ++ q)
update-Fed h p q e = Fed-append h (update h q) p q e (update-feed h q (Fed-HasRoom h p e)).0

abbrev marked : Text → Sha256
marked m = update (update init m) (0x80 ∷ [])

pad_loop-Fed :
    (m : Text)
    → Fed (pad_loop 64 (marked m)) ((m ++ 0x80 ∷ []) ++ replicate (zeros_for (length m)) 0)
pad_loop-Fed m =
    let one : Fed (update init m) m = (update-feed init m (omega arith)).0 in
    let two : Fed (marked m) (m ++ 0x80 ∷ []) = update-Fed (update init m) m (0x80 ∷ []) one in
    let z = zeros_for (length m) in
    Fed-append (marked m) (pad_loop 64 (marked m)) (m ++ 0x80 ∷ []) (replicate z 0) two (
      pad_loop-feed 64 z (marked m) (Fed-HasRoom (marked m) _ two) (omega arith) (omega arith)
        (omega (arith, Fed-pending (marked m) _ two, length-append m (0x80 ∷ []))))

bits_of : (m : Text) → length m < 2 ^ 61 → ((update init m).total * 8) % 2 ^ 64 ≡ 8 * length m
bits_of m h = omega (arith, (update-feed init m (omega arith)).1)

-- The state behind the last update of `finish`.
finish_feed :
    (m : Text)
    → length m < 2 ^ 61
    → Fed
        (update (pad_loop 64 (marked m)) (big_endian 8 (((update init m).total * 8) % 2 ^ 64)))
        (padded m)
unfolding padded
finish_feed m h =
    let z = replicate (zeros_for (length m)) 0 in
    let b = big_endian 8 (8 * length m) in
    rw (bits_of m h) (
      update-Fed (pad_loop 64 (marked m)) _ b (pad_loop-Fed m)
      ∙ ap (feed start) (append_assoc (m ++ 0x80 ∷ []) z b ∙ append_assoc m (0x80 ∷ []) (z ++ b)))

-- The bundled SHA-256 of any message below 2^61 bytes is the one-shot definition's.
pub sha256_raw-eq-sha256_spec : (m : Text) → length m < 2 ^ 61 → sha256_raw m ≡ sha256_spec m
unfolding sha256_raw sha256_spec finish
sha256_raw-eq-sha256_spec m h =
    let k = length (padded m) / 64 in
    ap (λ (x : Feed). digest_bytes x.0)
      (finish_feed m h ∙ feed-blocks k initial_words (padded m) (omega (arith, length-padded m)))
