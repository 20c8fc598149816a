-- ===== src/Stream/Buffer/Position.antt =====
-- Where the get pointer stands in a window that was loaded for a position.
use nanos3reader.Prelude.{
  ℕ, ◌^◌, ◌≤◌, ◌<◌, ◌≡◌, refl, sym, ap, ◌∙◌, ◌⊎◌, inl, inr, true, false, Option, none, arith, ltb,
  if◌then◌else◌, ltb→lt, Bool-cases, length, get_elem?, take, drop, get_elem?-take, get_elem?-drop,
  get_elem?-none, get_elem?-some, ◌+◌, ◌-◌, min, length-take, length-drop,
}
use nanos3reader.Text.{Text}
use nanos3reader.Stream.Buffer.{
  Buffer, at_get, place_get, install_window, end_window, clear_error, distance,
}
use nanos3reader.Stream.Buffer.Window.{
  Shows, install_window-Shows, whole_window-Shows, end_window-Shows, clear_error-Shows,
}

-- A window of the object, with the get pointer at the object's byte at `target`; or, where the object
-- has no byte there, with none left in the window, and the end of the object noted.
pub record Placed (object : Text) (target : ℕ) (b : Buffer) : Type 0 where
  pub shows : Shows object b
  pub byte : at_get b ≡ get_elem? object target
  pub end_noted : at_get b ≡ none → b.reached_eof ≡ true
  pub ends : b.reached_eof ≡ true → length object ≤ b.window_start + b.window_len
  pub here : target ≤ length object → b.window_start + distance b.get ≡ target
  pub empty : b.get ≡ none → b.window_len ≡ 0

in_or_none : (xs : Text) (i : ℕ) → (i < length xs) ⊎ (get_elem? xs i ≡ none)
in_or_none xs i = elim (Bool-cases (ltb i (length xs))) [
  | inl e ↦ inl (ltb→lt i (length xs) e)
  | inr e ↦ inr (get_elem?-none xs i (ground arith))
]

-- The byte at a position of the window.
abbrev byte_in : Text → ℕ → ℕ → Option ℕ
byte_in window g len = if ltb g len then get_elem? window g else none

byte_in-get : (window : Text) (g : ℕ) → byte_in window g (length window) ≡ get_elem? window g
byte_in-get window g = elim (Bool-cases (ltb g (length window))) [
  | inl e ↦ rw e refl
  | inr e ↦ rw (e, get_elem?-none window g (ground arith)) refl
]

pub install_window-Placed :
    (object : Text) (read_ahead target : ℕ) (window : Text) (b : Buffer)
    → 0 < read_ahead
    → window ≡ take read_ahead (drop target object)
    → length object < 2 ^ 64
    → target ≤ length object
    → Placed object target (install_window read_ahead target target true window b)
unfolding install_window at_get
install_window-Placed object read_ahead target window b some_ahead e h k =
    let front : place_get target target (length window) ≡ 0 = ground arith in
    let first : get_elem? window 0 ≡ get_elem? object target =
      ap (λ (x : Text). get_elem? x 0) e
      ∙ get_elem?-take (drop target object) read_ahead 0 some_ahead
      ∙ get_elem?-drop object target 0 target (omega arith) in
    let here : at_get (install_window read_ahead target target true window b)
        ≡ get_elem? object target =
      rw front (byte_in-get window 0 ∙ first) in
    record {
      shows = install_window-Shows object window read_ahead target target b e h k;
      byte = here;
      end_noted = λ q. elim (Bool-cases (ltb (length window) read_ahead)) [
        | inl l ↦ l
        | inr l ↦
            let (x, at) = get_elem?-some window 0 (ground arith) in
            let none_there : get_elem? window 0 ≡ none = first ∙ sym here ∙ q in absurd (cc)
      ];
      ends = λ q.
          let len : length window ≡ min read_ahead (length object - target) =
            ap length e
            ∙ length-take read_ahead (drop target object)
            ∙ ap (min read_ahead) (length-drop target object) in
          ground arith;
      here = λ q. rw front (omega arith);
      empty = λ q. absurd (cc);
    }

-- The get pointer is at the end of such a window only where it is empty.
pub install_window-empty :
    (object : Text) (read_ahead target : ℕ) (window : Text) (b : Buffer)
    → 0 < read_ahead
    → window ≡ take read_ahead (drop target object)
    → length object < 2 ^ 64
    → target ≤ length object
    → at_get (install_window read_ahead target target true window b) ≡ none
    → (install_window read_ahead target target true window b).window_len ≡ 0
unfolding install_window at_get
install_window-empty object read_ahead target window b some_ahead e h k q =
    let front : place_get target target (length window) ≡ 0 = ground arith in
    let here : get_elem? window 0 ≡ none = sym (byte_in-get window 0) ∙ (rw front at q) in
    elim (in_or_none window 0) [
      | inl l ↦ let (x, at) = get_elem?-some window 0 l in absurd (cc)
      | inr gone ↦ elim (Bool-cases (ltb 0 (length window))) [
        | inl l ↦ let (x, at) = get_elem?-some window 0 (ltb→lt 0 (length window) l) in absurd (cc)
        | inr l ↦ ground arith
      ]
    ]

at_place :
    (object : Text) (target : ℕ)
    → get_elem? object (place_get target 0 (length object)) ≡ get_elem? object target
at_place object target = elim (in_or_none object target) [
  | inl l ↦ ap (get_elem? object) (ground arith)
  | inr e ↦ elim (Bool-cases (ltb target (length object))) [
    | inl l ↦ ap (get_elem? object) (ground arith)
    | inr l ↦ get_elem?-none object (place_get target 0 (length object)) (ground arith) ∙ sym e
  ]
]

pub whole_window-Placed :
    (object : Text) (read_ahead target : ℕ) (b : Buffer)
    → length object < 2 ^ 64
    → Placed object target (install_window read_ahead target target false object b)
unfolding install_window at_get
whole_window-Placed object read_ahead target b h = record {
  shows = whole_window-Shows object read_ahead target target b h;
  byte = byte_in-get object (place_get target 0 (length object)) ∙ at_place object target;
  end_noted = λ q. refl;
  ends = λ q. omega arith;
  here = λ q. ground arith;
  empty = λ q. absurd (cc);
}

pub end_window-Placed :
    (object : Text) (target : ℕ) (b : Buffer)
    → target < 2 ^ 64
    → length object ≤ target
    → Placed object target (end_window target b)
unfolding end_window at_get
end_window-Placed object target b h k = record {
  shows = end_window-Shows object target b h;
  byte = sym (get_elem?-none object target k);
  end_noted = λ q. refl;
  ends = λ q. omega arith;
  here = λ q. omega arith;
  empty = λ q. refl;
}

pub clear_error-Placed :
    (object : Text) (target : ℕ) (b : Buffer)
    → Placed object target b
    → Placed object target (clear_error b)
unfolding at_get
clear_error-Placed object target b v = record {
  shows = clear_error-Shows object b v.shows;
  byte = v.byte;
  end_noted = v.end_noted;
  ends = v.ends;
  here = v.here;
  empty = v.empty;
}
