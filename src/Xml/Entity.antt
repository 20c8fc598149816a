-- ===== src/Xml/Entity.antt =====
-- xml_escape and xml_unescape.
use nanos3reader.Prelude.{
  ℕ, zero, suc, ◌+◌, ◌-◌, ◌*◌, ◌%◌, ◌^◌, ◌≡◌, refl, ap, ◌∙◌, Bool, true, false, ◌&&◌, ◌||◌, Option,
  none, some, [], ◌∷◌, ◌++◌, arith, ltb, leb, ◌==◌, if◌then◌else◌, take,
}
use nanos3reader.Text.{Text, codes, text_eq, find_char}
use nanos3reader.Xml.Utf8.{append_utf8}

unfoldable pub xml_escape_char : ℕ → Text
xml_escape_char c =
    if c == 38
    then codes "&amp;"
    else if c == 60
    then codes "&lt;"
    else if c == 62
    then codes "&gt;"
    else if c == 34
    then codes "&quot;"
    else if c == 39
    then codes "&apos;"
    else c ∷ []

unfoldable pub xml_escape : Text → Text
unfolding xml_escape_char
xml_escape [] = []
xml_escape (c ∷ s) = xml_escape_char c ++ xml_escape s

-- One digit of a numeric reference, in base 16 or 10.
unfoldable pub reference_digit : Bool → ℕ → Option ℕ
reference_digit hex c =
    if leb b'0' c && leb c b'9'
    then some (c - b'0')
    else if hex && (leb b'a' c && leb c b'f')
    then some (c - b'a' + 10)
    else if hex && (leb b'A' c && leb c b'F')
    then some (c - b'A' + 10)
    else none

abbrev pub base_of : Bool → ℕ
base_of true = 16
base_of false = 10

-- The digit loop; `none` is `ok == false`. `cp` is a uint32_t.
unfoldable pub reference_loop : Bool → ℕ → Text → Option ℕ
unfolding reference_digit
reference_loop hex cp [] = some cp
reference_loop hex cp (c ∷ s) = elim (reference_digit hex c) [
  | none ↦ none
  | some d ↦
      let next = (cp * base_of hex + d) % 2 ^ 32 in
      let rest = reference_loop hex next s in if ltb 0x10ffff next then none else rest
]

-- The digits of "#..." or "#x..."; there must be one.
unfoldable pub numeric_reference : Text → Option ℕ
unfolding reference_loop
numeric_reference [] = none
numeric_reference (c ∷ s) =
    if c == b'x' || c == b'X'
    then (elim s [ [] ↦ none | d ∷ t ↦ reference_loop true 0 (d ∷ t) ])
    else reference_loop false 0 (c ∷ s)

-- What the entity between '&' and ';' stands for; `none` where a literal '&' is kept.
unfoldable pub entity : Text → Option Text
unfolding text_eq numeric_reference append_utf8
entity ent =
    if text_eq ent (codes "amp")
    then some (38 ∷ [])
    else if text_eq ent (codes "lt")
    then some (60 ∷ [])
    else if text_eq ent (codes "gt")
    then some (62 ∷ [])
    else if text_eq ent (codes "quot")
    then some (34 ∷ [])
    else if text_eq ent (codes "apos")
    then some (39 ∷ [])
    else elim ent [
      | [] ↦ none
      | c ∷ digits ↦
          if c == b'#'
          then (elim (numeric_reference digits) [
            | none ↦ none
            | some cp ↦ some (append_utf8 [] cp)
          ])
          else none
    ]

-- One round of the loop at the byte `c`, with the text behind it: what is written, and how many
-- further bytes are passed over.
unfoldable pub unescape_step : ℕ → Text → Text × ℕ
unfolding find_char entity
unescape_step c s =
    if c == 38
    then (elim (find_char b';' s) [
      | none ↦ (38 ∷ [], 0)
      | some j ↦
          if ltb 12 (j + 1)
          then (38 ∷ [], 0)
          else elim (entity (take j s)) [ none ↦ (38 ∷ [], 0) | some out ↦ (out, j + 1) ]
    ])
    else (c ∷ [], 0)

-- The loop of xml_unescape: `k` bytes of an entity are still to be passed over.
unfoldable pub unescape_from : ℕ → Text → Text
unfolding unescape_step
unescape_from k [] = []
unescape_from (suc k) (c ∷ s) = unescape_from k s
unescape_from zero (c ∷ s) = let (out, k) = unescape_step c s in out ++ unescape_from k s

unfoldable pub xml_unescape : Text → Text
unfolding unescape_from
xml_unescape s = unescape_from 0 s

-- The entity of one byte is read back as that byte, whatever follows.
unescape_from-xml_escape_char :
    (c : ℕ) (s : Text) → unescape_from 0 (xml_escape_char c ++ s) ≡ c ∷ unescape_from 0 s
unfolding unescape_from xml_escape_char
unescape_from-xml_escape_char c s = ground arith

-- Any text that xml_escape wrote is read back by xml_unescape.
pub xml_unescape-xml_escape : (s : Text) → xml_unescape (xml_escape s) ≡ s
unfolding xml_unescape xml_escape
xml_unescape-xml_escape [] = refl
xml_unescape-xml_escape (c ∷ s) =
    unescape_from-xml_escape_char c (xml_escape s) ∙ ap (◌∷◌ c) (xml_unescape-xml_escape s)
