-- ===== src/Credentials/Json.antt =====
-- json_field: a string value of a flat JSON text.
use nanos3reader.Prelude.{◌+◌, none, some, [], ◌∷◌, ◌++◌, ◌==◌, if◌then◌else◌, length, take, drop}
use nanos3reader.Text.{Text, find_char, find, is_blank}

-- while (p < size && (body[p] == ' ' || body[p] == '\t')) ++p;
unfoldable pub skip_blanks : Text → Text
skip_blanks [] = []
skip_blanks (c ∷ s) = let rest = skip_blanks s in if is_blank c then rest else c ∷ s

-- The text from a '"' up to the next one; "" where either is missing.
unfoldable pub quoted : Text → Text
unfolding find_char
quoted [] = []
quoted (c ∷ s) = if c == 34 then (elim (find_char 34 s) [ none ↦ [] | some e ↦ take e s ]) else []

unfoldable pub json_field : Text → Text → Text
unfolding find find_char skip_blanks quoted
json_field body key =
    let needle = 34 ∷ (key ++ 34 ∷ []) in
    elim (find needle body) [
      | none ↦ []
      | some p ↦
          let rest = drop (p + length needle) body in
          elim (find_char b':' rest) [
            | none ↦ []
            | some q ↦ quoted (skip_blanks (drop (q + 1) rest))
          ]
    ]
