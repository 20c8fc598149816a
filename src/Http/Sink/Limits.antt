-- ===== src/Http/Sink/Limits.antt =====
-- The limits that the write callback keeps, and what it collects.
use mathlib.Core.List.{flatten, append-nil, append_assoc}
use mathlib.Core.List.{flatten, append-nil, append_assoc}
use nanos3reader.Prelude.{
  ℕ, ◌+◌, ◌-◌, ◌≤◌, ◌≡◌, refl, sym, ◌∙◌, inl, inr, true, false, Option, none, some, List, [], ◌∷◌,
  ◌++◌, arith, ltb, ◌==◌, Bool-cases, length, length-append,
}
use nanos3reader.Text.{Text}
use nanos3reader.Http.Sink.{write_to, Sink, text_cap, append_text, sink_write, sink_all, new_sink}

-- No more than the caller's bytes, and no more text than the cap.
pub record IsWithin (s : Sink) : Type 0 where
  pub dst_fits : (cap : ℕ) → s.dst_cap ≡ some cap → length s.dst ≤ cap
  pub text_fits : length s.text ≤ text_cap

append_text-IsWithin : (s : Sink) (chunk : Text) → IsWithin s → IsWithin (append_text s chunk).0
unfolding append_text
append_text-IsWithin s chunk v = elim (Bool-cases (ltb text_cap (length s.text + length chunk))) [
  | inl e ↦ rw e (record { dst_fits = v.dst_fits; text_fits = v.text_fits })
  | inr e ↦
      rw e (record {
        dst_fits = v.dst_fits;
        text_fits = rw (length-append s.text chunk) (ground arith);
      })
]

dst_append-IsWithin :
    (room : ℕ) (s : Sink) (chunk : Text)
    → IsWithin s
    → s.dst_cap ≡ some room
    → ltb (room - length s.dst) (length chunk) ≡ false
    → IsWithin (record s { dst = s.dst ++ chunk })
dst_append-IsWithin room s chunk v q f = record {
  dst_fits = λ c e.
      let same : room ≡ c = ground arith in
      let fits : length s.dst ≤ room = v.dst_fits room q in
      rw (length-append s.dst chunk) (ground arith);
  text_fits = v.text_fits;
}

write_to-IsWithin :
    (o : Option ℕ) (code : ℕ) (s : Sink) (chunk : Text)
    → s.dst_cap ≡ o
    → IsWithin s
    → IsWithin (write_to o code s chunk).0
unfolding write_to
write_to-IsWithin none code s chunk q v = append_text-IsWithin s chunk v
write_to-IsWithin (some room) code s chunk q v = elim (Bool-cases (code == 206)) [
  | inl e ↦ elim (Bool-cases (ltb (room - length s.dst) (length chunk))) [
    | inl f ↦ rw (e, f) (record { dst_fits = v.dst_fits; text_fits = v.text_fits })
    | inr f ↦ rw (e, f) (dst_append-IsWithin room s chunk v q f)
  ]
  | inr e ↦ rw e (append_text-IsWithin s chunk v)
]

sink_write-IsWithin :
    (code : ℕ) (s : Sink) (chunk : Text) → IsWithin s → IsWithin (sink_write code s chunk).0
unfolding sink_write
sink_write-IsWithin code s chunk v = write_to-IsWithin s.dst_cap code s chunk refl v

-- Whatever the server sends, the sink stays within its limits.
pub sink_all-IsWithin :
    (code : ℕ) (s : Sink) (chunks : List Text) → IsWithin s → IsWithin (sink_all code s chunks).0
unfolding sink_all
sink_all-IsWithin code s [] v = v
sink_all-IsWithin code s (chunk ∷ chunks) v =
    let w = sink_write-IsWithin code s chunk v in
    elim (Bool-cases (sink_write code s chunk).1) [
      | inl e ↦ rw e (sink_all-IsWithin code (sink_write code s chunk).0 chunks w)
      | inr e ↦ rw e w
    ]

pub new_sink-IsWithin : (o : Option ℕ) → IsWithin (new_sink o)
new_sink-IsWithin o = record { dst_fits = λ c e. omega arith; text_fits = omega arith }

write_to-partial :
    (o : Option ℕ) (room : ℕ) (s : Sink) (chunk : Text)
    → o ≡ some room
    → (write_to o 206 s chunk).1 ≡ true
    → (write_to o 206 s chunk).0 ≡ record s { dst = s.dst ++ chunk }
unfolding write_to
write_to-partial o room s chunk e h = ground arith

-- A 206 body that is taken whole goes to the destination, and none of it to the text.
pub sink_all-partial :
    (room : ℕ) (s : Sink) (chunks : List Text)
    → s.dst_cap ≡ some room
    → (sink_all 206 s chunks).1 ≡ true
    → (sink_all 206 s chunks).0 ≡ record s { dst = s.dst ++ flatten chunks }
unfolding sink_all sink_write flatten
sink_all-partial room s [] e h = λ i. record s { dst = sym (append-nil s.dst) i }
sink_all-partial room s (chunk ∷ chunks) e h =
    elim (Bool-cases (write_to s.dst_cap 206 s chunk).1) [
      | inl t ↦
          let one = write_to-partial s.dst_cap room s chunk e t in
          let rest = rw (t, one) at h in
          rw (t, one)
            (sink_all-partial room (record s { dst = s.dst ++ chunk }) chunks e rest ∙ λ i.
              record s { dst = append_assoc s.dst chunk (flatten chunks) i })
      | inr t ↦ absurd (ground arith)
    ]
