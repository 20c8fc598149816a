-- ===== src/Stream/Buffer/Window.antt =====
-- What the buffer shows of the object: a window of its bytes at the right place.
use nanos3reader.Prelude.{
  ℕ, ◌+◌, ◌-◌, ◌%◌, ◌^◌, ◌≤◌, ◌<◌, min, ◌≡◌, refl, sym, ap, ◌∙◌, inl, inr, true, ◌&&◌, Option, none,
  some, ◌++◌, arith, ltb, leb, if◌then◌else◌, ltb→lt, Bool-cases, length, get_elem?, take, drop,
  take-append-drop, length-take, length-drop, take-append, take-all, get_elem?-take, get_elem?-drop,
  false,
}
use nanos3reader.Text.{Text}
use nanos3reader.Stream.Buffer.{
  Buffer, distance, cur_pos, at_get, install_window, end_window, clear_error, in_window, move_get,
}

-- The live window has the object's bytes, the get pointer is in it, and positions fit in 64 bits.
pub record Shows (object : Text) (b : Buffer) : Type 0 where
  pub bytes : take b.window_len b.window ≡ take b.window_len (drop b.window_start object)
  pub whole : b.window_len ≤ length b.window
  pub inside : distance b.get ≤ b.window_len
  pub fits : b.window_start + b.window_len < 2 ^ 64

get_elem?-window :
    (len g : ℕ) (xs ys : Text)
    → g < len
    → take len xs ≡ take len ys
    → get_elem? xs g ≡ get_elem? ys g
get_elem?-window len g xs ys h e =
    sym (get_elem?-take xs len g h) ∙ ap (λ (t : Text). get_elem? t g) e ∙ get_elem?-take ys len g h

byte_at-object :
    (object window : Text) (start len c : ℕ) (o : Option ℕ)
    → take len window ≡ take len (drop start object)
    → start + len < 2 ^ 64
    → (elim o [ none ↦ none | some g ↦ if ltb g len then get_elem? window g else none ]) ≡ some c
    → get_elem? object ((start + distance o) % 2 ^ 64) ≡ some c
byte_at-object object window start len c none e fits h = absurd (cc)
byte_at-object object window start len c (some g) e fits h = elim (Bool-cases (ltb g len)) [
  | inr q ↦ let bad = rw q at h in absurd (cc)
  | inl q ↦
      let here = rw q at h in
      let lt = ltb→lt _ _ q in
      let place : start + g ≡ (start + g) % 2 ^ 64 = omega arith in
      sym (get_elem?-drop object start g _ place)
      ∙ sym (get_elem?-window len g window (drop start object) lt e)
      ∙ here
]

-- The byte at the get pointer is the object's byte at the stream's position.
pub at_get-object :
    (object : Text) (b : Buffer) (c : ℕ)
    → Shows object b
    → at_get b ≡ some c
    → get_elem? object (cur_pos b) ≡ some c
unfolding at_get cur_pos
at_get-object object b c v h =
    byte_at-object object b.window b.window_start b.window_len c b.get v.bytes v.fits h

-- A window of the object that starts at `start`, with the get pointer at the position asked for.
pub install_window-Shows :
    (object window : Text) (read_ahead start logical_pos : ℕ) (b : Buffer)
    → window ≡ take read_ahead (drop start object)
    → length object < 2 ^ 64
    → start ≤ length object
    → Shows object (install_window read_ahead start logical_pos true window b)
unfolding install_window
install_window-Shows object window read_ahead start logical_pos b e h k =
    let rest = drop start object in
    let len : length window ≡ min read_ahead (length object - start) =
      ap length e ∙ length-take read_ahead rest ∙ ap (min read_ahead) (length-drop start object) in
    let split : rest ≡ window ++ drop read_ahead rest =
      sym (take-append-drop read_ahead rest)
      ∙ ap (λ (t : Text). t ++ drop read_ahead rest) (sym e) in
    record {
      bytes =
          take-all (length window) window (omega arith)
          ∙ sym (
              ap (take (length window)) split
              ∙ take-append window (drop read_ahead rest) (length window) refl);
      whole = omega arith;
      inside = omega arith;
      fits = omega arith;
    }

-- A whole object from offset 0.
pub whole_window-Shows :
    (object : Text) (read_ahead start logical_pos : ℕ) (b : Buffer)
    → length object < 2 ^ 64
    → Shows object (install_window read_ahead start logical_pos false object b)
unfolding install_window
whole_window-Shows object read_ahead start logical_pos b h = record {
  bytes = refl;
  whole = omega arith;
  inside = omega arith;
  fits = omega arith;
}

pub end_window-Shows :
    (object : Text) (start : ℕ) (b : Buffer) → start < 2 ^ 64 → Shows object (end_window start b)
unfolding end_window
end_window-Shows object start b h = record {
  bytes = refl;
  whole = omega arith;
  inside = omega arith;
  fits = omega arith;
}

-- The error text has no part in what a buffer shows.
pub clear_error-Shows : (object : Text) (b : Buffer) → Shows object b → Shows object (clear_error b)
clear_error-Shows object b v = record {
  bytes = v.bytes;
  whole = v.whole;
  inside = v.inside;
  fits = v.fits;
}

in_window-bounds :
    (start len target : ℕ)
    → (start + len) % 2 ^ 64 ≡ start + len
    → (ltb 0 len && (leb start target && leb target ((start + len) % 2 ^ 64))) ≡ true
    → (start ≤ target) × (target ≤ start + len)
in_window-bounds start len target e h = ground arith

-- A seek in the window leaves the window, and the position is the one asked for.
pub move_get-Shows :
    (object : Text) (b : Buffer) (target : ℕ)
    → Shows object b
    → in_window b target ≡ true
    → Shows object (move_get target b) × (cur_pos (move_get target b) ≡ target)
unfolding in_window move_get cur_pos
move_get-Shows object b target v h =
    let sum : (b.window_start + b.window_len) % 2 ^ 64 ≡ b.window_start + b.window_len =
      omega (arith, v.fits) in
    let (from, to) = in_window-bounds b.window_start b.window_len target sum h in
    (
      record { bytes = v.bytes; whole = v.whole; inside = omega arith; fits = v.fits },
      omega (arith, v.fits),
    )
