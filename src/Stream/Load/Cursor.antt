-- ===== src/Stream/Load/Cursor.antt =====
-- The stream as a cursor over the object: what seeks and reads do, one behind the other.
use nanos3reader.Stream.Load.Reading.{IsBroken}
use nanos3reader.Prelude.{
  ℕ, ◌^◌, ◌≤◌, ◌<◌, ◌≡◌, refl, ◌⊎◌, inl, inr, Bool, true, false, Option, none, some, arith,
  if◌then◌else◌, Bool-cases, length,
}
use nanos3reader.Text.{Text}
use nanos3reader.Uri.{Config}
use nanos3reader.World.{World}
use nanos3reader.DiskCache.{Io}
use nanos3reader.Stream.Fetch.{Object}
use nanos3reader.Stream.Buffer.{Buffer, in_window, move_get, clear_error, seekpos}
use nanos3reader.Stream.Buffer.Stands.{Stands, Placed-Stands, clear_error-Stands, move_get-Stands}
use nanos3reader.Stream.Load.{Around, load_window}
use nanos3reader.Stream.Load.Ranges.{Honours, Left, load_window-Left}

module _ (w : World) (cfg : Config) (uri : Text) (object : Object) (bytes : Text) (io : Io)
    (fuel : ℕ) where
  open w use {State}

  abbrev load : ℕ → Buffer → Around State → Option (Bool × Buffer × Around State)
  load = load_window w cfg uri object io fuel

  -- What a seek to `target` gives.
  abbrev pub SeeksTo : ℕ → Option ℕ × Buffer × Around State → Type 0
  SeeksTo target (at, b, a) =
      (a.cache.enabled ≡ false)
      × (((at ≡ some target) × Stands bytes target b) ⊎ ((at ≡ none) × IsBroken b))

  Left-SeeksTo :
      (target : ℕ) (r : Bool × Buffer × Around State)
      → target ≤ length bytes
      → Left w cfg uri object bytes target r
      → SeeksTo target (if r.0 then some target else none, r.1, r.2)
  unfolding Left
  Left-SeeksTo target (true, b, a) h v = (v.1, inl (refl, Placed-Stands bytes target b h v.0))
  Left-SeeksTo target (false, b, a) h v = (v.2, inr (refl, (v.1, v.0)))

  -- A seek from any position to any other of the object, in the window or outside it, without the disk
  -- cache, with an object below 2^64 bytes and servers that honour ranges in the transfers that end
  -- without an error: it always returns, and is at the position asked for, or a load failed and left
  -- no window.
  pub seekpos-Stands :
      (p target : ℕ) (b : Buffer) (a : Around State)
      → 0 < object.read_ahead
      → a.cache.enabled ≡ false
      → length bytes < 2 ^ 64
      → target ≤ length bytes
      → Honours w cfg uri object bytes target
      → Stands bytes p b
      → (r : Option ℕ × Buffer × Around State) × ((seekpos
              (load_window w cfg uri object io fuel)
              target
              b
              a
            ≡ some r)
          × SeeksTo target r)
  unfolding seekpos in_window
  seekpos-Stands p target b a some_ahead off small h hon v =
      elim (Bool-cases (in_window b target)) [
        | inl q ↦ (
          (some target, move_get target (clear_error b), a),
          (
            rw (seekpos, q) refl,
            (
              off,
              inl (
                refl,
                move_get-Stands bytes p target (clear_error b) (clear_error-Stands bytes p b v) h q,
              ),
            ),
          ),
        )
        | inr q ↦
            let (r, (ends, left)) =
              load_window-Left w cfg uri object bytes io fuel some_ahead target (clear_error b) a
                off small (omega arith) hon in
            (
              (if r.0 then some target else none, r.1, r.2),
              (rw (seekpos, q, ends) refl, Left-SeeksTo target r h left),
            )
      ]
