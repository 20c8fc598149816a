-- ===== src/Stream/Load/Seeks.antt =====
-- A seek outside the window, and the byte that is read behind it.
use nanos3reader.Prelude.{
  ℕ, ◌^◌, ◌<◌, ◌≡◌, refl, sym, ◌∙◌, ◌⊎◌, inl, inr, Bool, true, false, Option, none, some,
  if◌then◌else◌, Option-cases, length, get_elem?,
}
use nanos3reader.Text.{Text}
use nanos3reader.Uri.{Config}
use nanos3reader.World.{World}
use nanos3reader.DiskCache.{Io}
use nanos3reader.Stream.Fetch.{Object}
use nanos3reader.Stream.Buffer.{Buffer, at_get, in_window, clear_error, refill, underflow, seekpos}
use nanos3reader.Stream.Buffer.Position.{Placed}
use nanos3reader.Stream.Load.{Around, load_window}
use nanos3reader.Stream.Load.Ranges.{Honours, Left, load_window-Left}

-- What is read where the get pointer was placed.
underflow-Placed :
    {S : Type 0} (load : ℕ → Buffer → S → Option (Bool × Buffer × S)) (bytes : Text) (target : ℕ)
    (b : Buffer) (s : S)
    → Placed bytes target b
    → underflow load b s ≡ some (get_elem? bytes target, b, s)
unfolding underflow refill
underflow-Placed load bytes target b s v = elim (Option-cases (at_get b)) [
  | inl e ↦
      let gone : get_elem? bytes target ≡ none = sym v.byte ∙ e in
      rw (underflow, e, v.end_noted e, gone) refl
  | inr (c, e) ↦
      let there : get_elem? bytes target ≡ some c = sym v.byte ∙ e in rw (underflow, e, there) refl
]

module _ (w : World) (cfg : Config) (uri : Text) (object : Object) (bytes : Text) (io : Io)
    (fuel : ℕ) where
  open w use {State}

  -- Whether a seek that was answered went to `target`, and what is read behind it.
  abbrev pub SeeksTo : ℕ → Option ℕ × Buffer × Around State → Type 0
  SeeksTo target (at, b, a) =
      (at ≡ none)
      ⊎ ((at ≡ some target)
          × (underflow (load_window w cfg uri object io fuel) b a
              ≡ some (get_elem? bytes target, b, a)))

  Left-SeeksTo :
      (target : ℕ) (r : Bool × Buffer × Around State)
      → Left w cfg uri object bytes target r
      → SeeksTo target (if r.0 then some target else none, r.1, r.2)
  unfolding Left
  Left-SeeksTo target (true, b, a) v =
      inr (refl, underflow-Placed (load_window w cfg uri object io fuel) bytes target b a v.0)
  Left-SeeksTo target (false, b, a) v = inl refl

  -- Without the disk cache, with an object below 2^64 bytes and servers that honour ranges in the
  -- transfers that end without an error, a seek to a position outside the window, and below 2^64,
  -- always returns, interrupted transfers and other failures included; and where it returns the
  -- position, the next byte read is the object's byte there, or the end of file where the object has
  -- none, without another load.
  pub seekpos-underflow :
      (target : ℕ) (b : Buffer) (a : Around State)
      → 0 < object.read_ahead
      → a.cache.enabled ≡ false
      → length bytes < 2 ^ 64
      → target < 2 ^ 64
      → Honours w cfg uri object bytes target
      → in_window b target ≡ false
      → (r : Option ℕ × Buffer × Around State) × ((seekpos
              (load_window w cfg uri object io fuel)
              target
              b
              a
            ≡ some r)
          × SeeksTo target r)
  unfolding seekpos
  seekpos-underflow target b a some_ahead off h k hon out =
      let (r, (ends, left)) =
        load_window-Left w cfg uri object bytes io fuel some_ahead target (clear_error b) a off h k
          hon in
      (
        (if r.0 then some target else none, r.1, r.2),
        (rw (seekpos, out, ends) refl, Left-SeeksTo target r left),
      )
