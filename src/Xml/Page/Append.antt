-- ===== src/Xml/Page/Append.antt =====
-- A page's reader adds to the lists that it is given, and reads nothing of them.
use mathlib.Core.List.{append_assoc, append-nil}
use nanos3reader.Prelude.{
  ℕ, zero, suc, ◌+◌, ◌≡◌, refl, sym, ap, ◌∙◌, inl, inr, Option, none, some, List, [], ◌∷◌, ◌++◌,
  arith, Option-cases, length,
}
use nanos3reader.Text.{Text, codes}
use nanos3reader.Result.{Result, ok, err}
use nanos3reader.Xml.Entity.{xml_unescape}
use nanos3reader.Xml.Element.{next_element}
use nanos3reader.Xml.Page.{
  Page, ObjectInfo, contents_object, contents_loop, prefixes_loop, finish_page, parse_list_page,
}

-- A successful value changed by a function.
abbrev pub map_ok {ℓ κ} : {A : Type ℓ} {B : Type κ} → (A → B) → Result A → Result B
map_ok f (ok a) = ok (f a)
map_ok f (err e) = err e

abbrev pub map_some {ℓ κ} : {A : Type ℓ} {B : Type κ} → (A → B) → Option A → Option B
map_some f none = none
map_some f (some a) = some (f a)

contents_loop-append :
    (fuel : ℕ) (xml : Text) (pos : ℕ) (front objects : List ObjectInfo)
    → contents_loop fuel xml pos (front ++ objects)
      ≡ map_some (map_ok (λ found. front ++ found)) (contents_loop fuel xml pos objects)
unfolding contents_loop
contents_loop-append zero xml pos front objects = refl
contents_loop-append (suc fuel) xml pos front objects =
    elim (Option-cases (next_element xml pos (codes "Contents"))) [
      | inl q ↦ rw (q, contents_loop) refl
      | inr ((body, next), q) ↦ elim (Option-cases (contents_object body)) [
        | inl r ↦ rw (q, contents_loop, r) refl
        | inr (object, r) ↦
            rw (q, contents_loop, r)
              (ap (contents_loop fuel xml next) (append_assoc front objects (object ∷ []))
                ∙ contents_loop-append fuel xml next front (objects ++ object ∷ []))
      ]
    ]

prefixes_loop-append :
    (fuel : ℕ) (xml : Text) (pos : ℕ) (front prefixes : List Text)
    → prefixes_loop fuel xml pos (front ++ prefixes)
      ≡ map_some (map_ok (λ found. front ++ found)) (prefixes_loop fuel xml pos prefixes)
unfolding prefixes_loop
prefixes_loop-append zero xml pos front prefixes = refl
prefixes_loop-append (suc fuel) xml pos front prefixes =
    elim (Option-cases (next_element xml pos (codes "CommonPrefixes"))) [
      | inl q ↦ rw (q, prefixes_loop) refl
      | inr ((body, next), q) ↦ elim (Option-cases (next_element body 0 (codes "Prefix"))) [
        | inl r ↦ rw (q, prefixes_loop, r) refl
        | inr ((prefix, p), r) ↦
            rw (q, prefixes_loop, r)
              (ap (prefixes_loop fuel xml next)
                  (append_assoc front prefixes (xml_unescape prefix ∷ []))
                ∙ prefixes_loop-append fuel xml next front (prefixes ++ xml_unescape prefix ∷ []))
      ]
    ]

-- What a page adds to the objects and prefixes of the pages before it.
abbrev pub behind : List ObjectInfo → List Text → Page → Page
behind objects prefixes p = record p {
  objects = objects ++ p.objects;
  prefixes = prefixes ++ p.prefixes;
}

finish_page-behind :
    (xml : Text) (objects found : List ObjectInfo) (prefixes common : List Text)
    → finish_page xml (objects ++ found) (prefixes ++ common)
      ≡ map_ok (behind objects prefixes) (finish_page xml found common)
unfolding finish_page
finish_page-behind xml objects found prefixes common = ground arith

-- The page that a reply stands for does not depend on the pages before it. Its objects and prefixes
-- are added behind theirs, in order, and an error stays the same error.
pub parse_list_page-behind :
    (xml : Text) (objects : List ObjectInfo) (prefixes : List Text)
    → parse_list_page xml objects prefixes
      ≡ map_some (map_ok (behind objects prefixes)) (parse_list_page xml [] [])
unfolding parse_list_page
parse_list_page-behind xml objects prefixes =
    let c =
      ap (contents_loop (length xml + 1) xml 0) (sym (append-nil objects))
      ∙ contents_loop-append (length xml + 1) xml 0 objects [] in
    let p =
      ap (prefixes_loop (length xml + 1) xml 0) (sym (append-nil prefixes))
      ∙ prefixes_loop-append (length xml + 1) xml 0 prefixes [] in
    elim (Option-cases (contents_loop (length xml + 1) xml 0 [])) [
      | inl q ↦ rw (parse_list_page, c, q) refl
      | inr (err e, q) ↦ rw (parse_list_page, c, q) refl
      | inr (ok found, q) ↦ elim (Option-cases (prefixes_loop (length xml + 1) xml 0 [])) [
        | inl r ↦ rw (parse_list_page, c, q, p, r) refl
        | inr (err e, r) ↦ rw (parse_list_page, c, q, p, r) refl
        | inr (ok common, r) ↦
            rw (parse_list_page, c, q, p, r)
              (ap some (finish_page-behind xml objects found prefixes common))
      ]
    ]
