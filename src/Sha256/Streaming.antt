-- ===== src/Sha256/Streaming.antt =====
-- Sha256::update in pieces and at once, against the feeding of single bytes.
use mathlib.Core.List.{append_assoc, append-nil}
use nanos3reader.Prelude.{
  ℕ, zero, suc, ◌+◌, ◌-◌, ◌%◌, ◌^◌, ◌≤◌, ◌<◌, min, ◌≡◌, refl, sym, ap, ◌∙◌, subst, inl, inr, [],
  ◌∷◌, ◌++◌, arith, ◌==◌, if◌then◌else◌, Bool-cases, length, take, drop, length-append,
  take-append-drop, length-take, length-drop,
}
use nanos3reader.Text.{Text}
use nanos3reader.Sha256.{absorb_chunk, update_loop, update, block, Words, Sha256}

-- The hash state as the bytes are fed one by one.
abbrev pub Feed : Type 0
Feed = Words × Text

unfoldable pub feed_byte : Feed → ℕ → Feed
feed_byte (s, pending) c =
    if length (pending ++ c ∷ []) == 64
    then (block s (pending ++ c ∷ []), [])
    else (s, pending ++ c ∷ [])

unfoldable pub feed : Feed → Text → Feed
unfolding feed_byte
feed x [] = x
feed x (c ∷ p) = feed (feed_byte x c) p

abbrev pub state_of : Sha256 → Feed
state_of h = (h.s, h.pending)

-- The buffer is not full between calls.
abbrev pub HasRoom : Feed → Type 0
HasRoom x = length x.1 < 64

pub feed-append : (x : Feed) (p q : Text) → feed x (p ++ q) ≡ feed (feed x p) q
unfolding feed
feed-append x [] q = refl
feed-append x (c ∷ p) q = feed-append (feed_byte x c) p q

feed_byte-HasRoom : (x : Feed) (c : ℕ) → HasRoom x → HasRoom (feed_byte x c)
unfolding feed_byte
feed_byte-HasRoom (s, pending) c h = ground (arith, length-append pending (c ∷ []))

pub feed-HasRoom : (x : Feed) (p : Text) → HasRoom x → HasRoom (feed x p)
unfolding feed
feed-HasRoom x [] h = h
feed-HasRoom x (c ∷ p) h = feed-HasRoom (feed_byte x c) p (feed_byte-HasRoom x c h)

-- Bytes that leave the buffer short of full are appended.
feed-short :
    (s : Words) (pending p : Text)
    → length pending + length p < 64
    → feed (s, pending) p ≡ (s, pending ++ p)
unfolding feed
feed-short s pending [] h = simp append-nil
feed-short s pending (c ∷ p) h =
    let n = length-append pending (c ∷ []) in
    let e : feed_byte (s, pending) c ≡ (s, pending ++ c ∷ []) = ground arith in
    rw e (
      feed-short s (pending ++ c ∷ []) p (omega arith)
      ∙ ap (λ (t : Text). (s, t)) (append_assoc pending (c ∷ []) p))

-- Bytes that fill the buffer make a block.
pub feed-full :
    (s : Words) (pending p : Text)
    → length pending < 64
    → length pending + length p ≡ 64
    → feed (s, pending) p ≡ (block s (pending ++ p), [])
unfolding feed
feed-full s pending [] r h = absurd (omega arith)
feed-full s pending (c ∷ []) r h = let n = length-append pending (c ∷ []) in ground arith
feed-full s pending (c ∷ d ∷ p) r h =
    let n = length-append pending (c ∷ []) in
    let e : feed_byte (s, pending) c ≡ (s, pending ++ c ∷ []) = ground arith in
    rw e (
      feed-full s (pending ++ c ∷ []) (d ∷ p) (omega arith) (omega arith)
      ∙ ap (λ (t : Text). (block s t, [])) (append_assoc pending (c ∷ []) (d ∷ p)))

-- A chunk that fits in the buffer is absorbed as its bytes are.
absorb_chunk-feed :
    (h : Sha256) (p : Text)
    → HasRoom (state_of h)
    → length h.pending + length p ≤ 64
    → state_of (absorb_chunk h p) ≡ feed (state_of h) p
unfolding absorb_chunk
absorb_chunk-feed h p r k =
    let n = length-append h.pending p in
    elim (Bool-cases (length (h.pending ++ p) == 64)) [
      | inl e ↦ rw e (sym (feed-full h.s h.pending p r (ground arith)))
      | inr e ↦ rw e (sym (feed-short h.s h.pending p (ground arith)))
    ]

absorb_chunk-total : (h : Sha256) (p : Text) → (absorb_chunk h p).total ≡ h.total
unfolding absorb_chunk
absorb_chunk-total h p = ground arith

update_loop-feed :
    (fuel : ℕ) (h : Sha256) (p : Text)
    → HasRoom (state_of h)
    → length p ≤ fuel
    → (state_of (update_loop fuel h p) ≡ feed (state_of h) p)
      × ((update_loop fuel h p).total ≡ h.total)
unfolding update_loop
update_loop-feed zero h [] r k = (unfold feed in refl, refl)
update_loop-feed zero h (c ∷ p) r k = absurd (omega arith)
update_loop-feed (suc fuel) h [] r k = (unfold feed in refl, refl)
update_loop-feed (suc fuel) h (c ∷ p) r k =
    let n = min (64 - length h.pending) (length (c ∷ p)) in
    let chunk = take n (c ∷ p) in
    let h' = absorb_chunk h chunk in
    let fed = absorb_chunk-feed h chunk r (omega (arith, length-take n (c ∷ p))) in
    let room : HasRoom (state_of h') =
      subst HasRoom (sym fed) (feed-HasRoom (state_of h) chunk r) in
    let ih =
      update_loop-feed fuel h' (drop n (c ∷ p)) room (omega (arith, length-drop n (c ∷ p))) in
    (
      ih.0
          ∙ ap (λ (x : Feed). feed x (drop n (c ∷ p))) fed
          ∙ sym (feed-append (state_of h) chunk (drop n (c ∷ p)))
          ∙ ap (feed (state_of h)) (take-append-drop n (c ∷ p)),
      ih.1 ∙ absorb_chunk-total h chunk,
    )

-- What update does: the bytes are fed, and counted modulo 2^64.
pub update-feed :
    (h : Sha256) (p : Text)
    → HasRoom (state_of h)
    → (state_of (update h p) ≡ feed (state_of h) p)
      × ((update h p).total ≡ (h.total + length p) % 2 ^ 64)
unfolding update
update-feed h p r =
    update_loop-feed (length p) (record h { total = (h.total + length p) % 2 ^ 64 }) p r
      (omega arith)

-- Hashing a message in two pieces leaves the state that hashing it at once leaves, wherever it is
-- cut, from any state whose buffer is not full.
pub update-append :
    (h : Sha256) (p q : Text) → HasRoom (state_of h) → update (update h p) q ≡ update h (p ++ q)
update-append h p q r =
    let one = update-feed h p r in
    let room : HasRoom (state_of (update h p)) =
      subst HasRoom (sym one.0) (feed-HasRoom (state_of h) p r) in
    let two = update-feed (update h p) q room in
    let all = update-feed h (p ++ q) r in
    let states : state_of (update (update h p) q) ≡ state_of (update h (p ++ q)) =
      two.0 ∙ ap (λ (x : Feed). feed x q) one.0 ∙ sym (feed-append (state_of h) p q) ∙ sym all.0 in
    let totals : (update (update h p) q).total ≡ (update h (p ++ q)).total =
      omega (arith, one.1, two.1, all.1, length-append p q) in
    λ i. record { s = (states i).0; total = totals i; pending = (states i).1 }
