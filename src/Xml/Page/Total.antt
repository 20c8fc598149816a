-- ===== src/Xml/Page/Total.antt =====
-- The loops of parse_list_page end, on any reply.
use nanos3reader.Prelude.{
  ℕ, zero, suc, ◌+◌, ◌≤◌, ◌<◌, ◌≡◌, ◌≢◌, inl, inr, none, some, List, [], ◌∷◌, ◌++◌, arith,
  Option-cases, length,
}
use nanos3reader.Text.{Text, codes}
use nanos3reader.Result.{Result, ok, err}
use nanos3reader.Xml.Element.{next_element, next_element-bound}
use nanos3reader.Xml.Entity.{xml_unescape}
use nanos3reader.Xml.Page.{
  ObjectInfo, Page, contents_object, contents_loop, prefixes_loop, finish_page, parse_list_page,
}

contents_loop-total :
    (fuel : ℕ) (xml : Text) (pos : ℕ) (objects : List ObjectInfo)
    → length xml < pos + fuel
    → pos ≤ length xml
    → contents_loop fuel xml pos objects ≢ none
unfolding contents_loop
contents_loop-total zero xml pos objects h k e = absurd (omega arith)
contents_loop-total (suc fuel) xml pos objects h k e =
    elim (Option-cases (next_element xml pos (codes "Contents"))) [
      | inl q ↦ ground arith
      | inr ((body, next), q) ↦
          let b = next_element-bound xml pos (codes "Contents") body next q in
          elim (Option-cases (contents_object body)) [
            | inl r ↦ ground arith
            | inr (object, r) ↦
                contents_loop-total fuel xml next (objects ++ object ∷ []) (omega arith) b.1
                  (ground arith)
          ]
    ]

prefixes_loop-total :
    (fuel : ℕ) (xml : Text) (pos : ℕ) (prefixes : List Text)
    → length xml < pos + fuel
    → pos ≤ length xml
    → prefixes_loop fuel xml pos prefixes ≢ none
unfolding prefixes_loop
prefixes_loop-total zero xml pos prefixes h k e = absurd (omega arith)
prefixes_loop-total (suc fuel) xml pos prefixes h k e =
    elim (Option-cases (next_element xml pos (codes "CommonPrefixes"))) [
      | inl q ↦ ground arith
      | inr ((body, next), q) ↦
          let b = next_element-bound xml pos (codes "CommonPrefixes") body next q in
          elim (Option-cases (next_element body 0 (codes "Prefix"))) [
            | inl r ↦ ground arith
            | inr ((prefix, p), r) ↦
                prefixes_loop-total fuel xml next (prefixes ++ xml_unescape prefix ∷ [])
                  (omega arith) b.1 (ground arith)
          ]
    ]

-- The reader of a page ends with a page or an error, whatever the bytes of the reply.
pub parse_list_page-total :
    (xml : Text) (objects : List ObjectInfo) (prefixes : List Text)
    → (r : Result Page) × (parse_list_page xml objects prefixes ≡ some r)
unfolding parse_list_page
parse_list_page-total xml objects prefixes =
    let c = contents_loop-total (length xml + 1) xml 0 objects (omega arith) (omega arith) in
    let p = prefixes_loop-total (length xml + 1) xml 0 prefixes (omega arith) (omega arith) in
    elim (Option-cases (contents_loop (length xml + 1) xml 0 objects)) [
      | inl q ↦ absurd (c q)
      | inr (err e, q) ↦ (err e, ground arith)
      | inr (ok found, q) ↦ elim (Option-cases (prefixes_loop (length xml + 1) xml 0 prefixes)) [
        | inl r ↦ absurd (p r)
        | inr (err e, r) ↦ (err e, ground arith)
        | inr (ok common, r) ↦ (finish_page xml found common, ground arith)
      ]
    ]
