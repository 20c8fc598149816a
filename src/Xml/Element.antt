-- ===== src/Xml/Element.antt =====
-- next_element, xml_error_code and xml_tag.
use nanos3reader.Prelude.{
  ℕ, ◌+◌, ◌-◌, ◌≤◌, ◌<◌, ◌≡◌, inl, inr, Option, none, some, [], ◌++◌, arith, Option-cases, length,
  drop, length-drop,
}
use nanos3reader.Text.{Text, codes, find_from, substr, find}
use nanos3reader.Text.Find.{find-bound}
use nanos3reader.Xml.Entity.{xml_unescape}

abbrev pub open_tag : Text → Text
open_tag tag = codes "<" ++ (tag ++ codes ">")

abbrev pub close_tag : Text → Text
close_tag tag = codes "</" ++ (tag ++ codes ">")

-- The text between the tags, and the position behind the closing tag.
unfoldable pub next_element : Text → ℕ → Text → Option (Text × ℕ)
unfolding find_from substr
next_element xml pos tag = elim (find_from (open_tag tag) xml pos) [
  | none ↦ none
  | some b ↦
      let start = b + length (open_tag tag) in
      elim (find_from (close_tag tag) xml start) [
        | none ↦ none
        | some e ↦ some (substr xml start (e - start), e + length (close_tag tag))
      ]
]

unfoldable pub xml_error_code : Text → Text
unfolding next_element xml_unescape
xml_error_code body = elim (next_element body 0 (codes "Code")) [
  | none ↦ []
  | some (code, pos) ↦ xml_unescape code
]

-- Written apart from next_element in the source.
unfoldable pub xml_tag : Text → Text → Text
unfolding find_from substr xml_unescape
xml_tag body tag = elim (find_from (open_tag tag) body 0) [
  | none ↦ []
  | some b ↦
      let start = b + length (open_tag tag) in
      elim (find_from (close_tag tag) body start) [
        | none ↦ []
        | some e ↦ xml_unescape (substr body start (e - start))
      ]
]

-- xml_tag is the unescaped text of the first element.
pub xml_tag-eq-next_element :
    (body tag : Text)
    → xml_tag body tag
      ≡ (elim (next_element body 0 tag) [ none ↦ [] | some (t, pos) ↦ xml_unescape t ])
unfolding xml_tag next_element
xml_tag-eq-next_element body tag = ground arith

find_from-bound :
    (needle s : Text) (pos i : ℕ)
    → 0 < length needle
    → find_from needle s pos ≡ some i
    → (pos ≤ i) × (i + length needle ≤ length s)
unfolding find_from
find_from-bound needle s pos i h e = elim (Option-cases (find needle (drop pos s))) [
  | inl q ↦ absurd (ground arith)
  | inr (j, q) ↦
      let b = find-bound needle (drop pos s) j q in
      let p : pos + j ≡ i = ground arith in omega (arith, length-drop pos s)
]

-- A found element ends behind the place where the search began, and inside the text.
pub next_element-bound :
    (xml : Text) (pos : ℕ) (tag inner : Text) (next : ℕ)
    → next_element xml pos tag ≡ some (inner, next)
    → (pos < next) × (next ≤ length xml)
unfolding next_element
next_element-bound xml pos tag inner next h =
    elim (Option-cases (find_from (open_tag tag) xml pos)) [
      | inl q ↦ absurd (ground arith)
      | inr (b, q) ↦
          elim (Option-cases (find_from (close_tag tag) xml (b + length (open_tag tag)))) [
            | inl r ↦ absurd (ground arith)
            | inr (e, r) ↦
                let m = find_from-bound (open_tag tag) xml pos b (omega arith) q in
                let n = find_from-bound (close_tag tag) xml _ e (omega arith) r in
                let p : e + length (close_tag tag) ≡ next = ground arith in omega arith
          ]
    ]
