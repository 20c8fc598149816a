-- ===== src/Stream/Load/Reading.antt =====
-- Reading on: the bytes that a reader of the stream gets, over all the windows that it takes.
use nanos3reader.Prelude.{
  ℕ, zero, suc, ◌+◌, ◌≡◌, ◌⊎◌, Bool, false, Option, none, some, [], ◌∷◌, length, get_elem?, take,
  drop,
}
use nanos3reader.Text.{Text}
use nanos3reader.Uri.{Config}
use nanos3reader.World.{World}
use nanos3reader.DiskCache.{Io}
use nanos3reader.Stream.Fetch.{Object}
use nanos3reader.Stream.Buffer.{Buffer, at_get, underflow}
use nanos3reader.Stream.Buffer.Stands.{Stands, bump}
use nanos3reader.Stream.Load.{Around, load_window}
use nanos3reader.Stream.Load.Ranges.{SendsAll}

-- Up to `n` bytes, to the first end of file. `none` is an underflow that has no result.
unfoldable pub read_bytes :
    {S : Type 0}
    → (ℕ → Buffer → S → Option (Bool × Buffer × S))
    → ℕ
    → Buffer
    → S
    → Option (Text × Buffer × S)
read_bytes load zero b s = some ([], b, s)
read_bytes load (suc n) b s = elim (underflow load b s) [
  | none ↦ none
  | some (o, b', s') ↦ elim o [
    | none ↦ some ([], b', s')
    | some c ↦ elim (read_bytes load n (bump b') s') [
      | none ↦ none
      | some (text, b'', s'') ↦ some (c ∷ text, b'', s'')
    ]
  ]
]

-- A load that failed left neither window nor get pointer.
abbrev pub IsBroken : Buffer → Type 0
IsBroken b = (b.get ≡ none) × (b.window_len ≡ 0)

module _ (w : World) (cfg : Config) (uri : Text) (object : Object) (bytes : Text) (io : Io)
    (fuel : ℕ) where
  open w use {State}

  abbrev load : ℕ → Buffer → Around State → Option (Bool × Buffer × Around State)
  load = load_window w cfg uri object io fuel

  -- What an underflow at `p` gives.
  abbrev Stepped : ℕ → Option ℕ × Buffer × Around State → Type 0
  Stepped p (o, b, a) =
      (a.cache.enabled ≡ false)
      × (((o ≡ get_elem? bytes p) × (at_get b ≡ o) × Stands bytes p b) ⊎ ((o ≡ none) × IsBroken b))

  -- A range that starts at the end of an object with bytes is not answered with a 200.
  abbrev pub EndsKnown : Type 0
  EndsKnown = SendsAll w cfg uri object bytes (length bytes) → length bytes ≡ 0

  -- Up to `n` bytes of the object from `p` on: all of them that there are, with the get pointer
  -- behind them, or those before a load that failed.
  abbrev pub ReadsOn : ℕ → ℕ → Text × Buffer × Around State → Type 0
  ReadsOn n p (text, b, a) =
      (a.cache.enabled ≡ false)
      × (((text ≡ take n (drop p bytes)) × Stands bytes (p + length text) b)
          ⊎ ((text ≡ take (length text) (drop p bytes)) × IsBroken b))

  -- The reads of `n` bytes from any position.
  abbrev Continues : ℕ → Type 0
  Continues n =
      (p : ℕ) (b : Buffer) (a : Around State)
      → a.cache.enabled ≡ false
      → Stands bytes p b
      → (r : Text × Buffer × Around State) × ((read_bytes load n b a ≡ some r) × ReadsOn n p r)
