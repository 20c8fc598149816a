-- ===== src/Credentials/Ini.antt =====
-- parse_ini_section: the key and value pairs of one section of a profile file.
use nanos3reader.Prelude.{
  ℕ, ◌+◌, ◌-◌, Bool, false, ◌&&◌, ◌||◌, Option, none, some, List, [], ◌∷◌, ◌==◌, if◌then◌else◌,
  length, take, drop,
}
use nanos3reader.Text.{Text, text_eq, is_empty, find_char, ends_with_char, trim_ws}

-- std::map<std::string, std::string>, read by key only: a later binding stands in front.
abbrev pub Pairs : Type 0
Pairs = List (Text × Text)

unfoldable pub find_key : Text → Pairs → Option Text
unfolding text_eq
find_key key [] = none
find_key key ((k, v) ∷ kv) = if text_eq key k then some v else find_key key kv

-- std::getline until the end of the text: no line stands behind a last line break.
unfoldable pub lines : Text → List Text
lines [] = []
lines (c ∷ s) =
    let rest = lines s in
    if c == 10
    then [] ∷ rest
    else elim rest [ [] ↦ (c ∷ []) ∷ [] | line ∷ more ↦ (c ∷ line) ∷ more ]

-- The loop's state: the section that the line stands in, and the pairs so far.
pub record IniState : Type 0 where
  pub current : Text
  pub kv : Pairs

unfoldable pub starts_with_char : ℕ → Text → Bool
starts_with_char c [] = false
starts_with_char c (d ∷ s) = d == c

-- The pair of a `key = value` line, which counts only in the section that is asked for.
unfoldable pub ini_pair : Text → Text → IniState → IniState
unfolding text_eq find_char trim_ws
ini_pair section s state =
    if text_eq state.current section
    then (elim (find_char b'=' s) [
      | none ↦ state
      | some eq ↦ record state { kv = (trim_ws (take eq s), trim_ws (drop (eq + 1) s)) ∷ state.kv }
    ])
    else state

-- One line of the file.
unfoldable pub ini_line : Text → IniState → Text → IniState
unfolding trim_ws starts_with_char ends_with_char ini_pair
ini_line section state line =
    let s = trim_ws line in
    if is_empty s || starts_with_char b'#' s || starts_with_char b';' s
    then state
    else if starts_with_char b'[' s && ends_with_char b']' s
    then record state { current = trim_ws (take (length s - 2) (drop 1 s)) }
    else ini_pair section s state

unfoldable pub ini_lines : Text → IniState → List Text → IniState
unfolding ini_line
ini_lines section state [] = state
ini_lines section state (line ∷ rest) = ini_lines section (ini_line section state line) rest

-- A file that cannot be opened has no pairs.
unfoldable pub parse_ini_section : Option Text → Text → Pairs
unfolding lines ini_lines
parse_ini_section none section = []
parse_ini_section (some content) section =
    (ini_lines section (record { current = []; kv = [] }) (lines content)).kv
