-- ===== src/Xml/Page.antt =====
-- list_query and parse_list_page: the query and the reply of one page of ListObjectsV2.
pub mod Total
pub mod Append
use nanos3reader.Prelude.{
  ℕ, zero, suc, ◌+◌, ◌-◌, ◌*◌, ◌/◌, ◌%◌, ◌^◌, ◌≤◌, ◌<◌, min, max, ◌≡◌, refl, sym, ap, ◌∙◌, subst,
  ◌≢◌, ◌↔◌, ◌⊎◌, inl, inr, Bool, true, false, not, ◌&&◌, ◌||◌, Option, none, some, List, [], ◌∷◌,
  map, ◌++◌, arith, ltb, leb, ◌==◌, if◌then◌else◌, ltb→lt, lt→ltb, leb→le, ==_iff, tests,
  Bool-cases, Option-cases, all_below, all_below_sound, length, get_elem?, take, drop, replicate,
  set, All, length-append, take-append-drop, length-take, length-drop, length-replicate, length-map,
  length-set, take-append, drop-append, take-all, drop-all, get_elem?-take, get_elem?-drop,
  get_elem?-none,
}
use nanos3reader.Text.{Text, codes, is_empty, text_eq, parse_u64}
use nanos3reader.Encode.{uri_encode_component}
use nanos3reader.Xml.Entity.{xml_unescape}
use nanos3reader.Xml.Element.{next_element}
use nanos3reader.Result.{Result, ok, err}

pub record ObjectInfo : Type 0 where
  pub key : Text
  pub size : ℕ

-- Parameter names in byte order, values encoded.
unfoldable pub list_query : Text → Text → Text → Text
unfolding uri_encode_component
list_query prefix delimiter token =
    (if is_empty token
      then []
      else codes "continuation-token=" ++ (uri_encode_component token ++ codes "&"))
    ++ ((if is_empty delimiter
          then []
          else codes "delimiter=" ++ (uri_encode_component delimiter ++ codes "&"))
        ++ (codes "list-type=2&prefix=" ++ uri_encode_component prefix))

-- One <Contents> element; `none` where it is malformed.
unfoldable pub contents_object : Text → Option ObjectInfo
unfolding next_element parse_u64 xml_unescape
contents_object body = elim (next_element body 0 (codes "Key")) [
  | none ↦ none
  | some (key, p) ↦ elim (next_element body 0 (codes "Size")) [
    | none ↦ none
    | some (size_text, q) ↦ elim (parse_u64 size_text) [
      | none ↦ none
      | some size ↦ some (record { key = xml_unescape key; size = size })
    ]
  ]
]

-- The loop over <Contents>. The fuel bounds the rounds; `none` means that it ran out.
unfoldable pub contents_loop : ℕ → Text → ℕ → List ObjectInfo → Option (Result (List ObjectInfo))
unfolding next_element contents_object
contents_loop zero xml pos objects = none
contents_loop (suc fuel) xml pos objects = elim (next_element xml pos (codes "Contents")) [
  | none ↦ some (ok objects)
  | some (body, next) ↦ elim (contents_object body) [
    | none ↦ some (err (codes "malformed ListObjectsV2 response (Contents)"))
    | some object ↦ contents_loop fuel xml next (objects ++ object ∷ [])
  ]
]

-- The loop over <CommonPrefixes>.
unfoldable pub prefixes_loop : ℕ → Text → ℕ → List Text → Option (Result (List Text))
unfolding next_element xml_unescape
prefixes_loop zero xml pos prefixes = none
prefixes_loop (suc fuel) xml pos prefixes = elim (next_element xml pos (codes "CommonPrefixes")) [
  | none ↦ some (ok prefixes)
  | some (body, next) ↦ elim (next_element body 0 (codes "Prefix")) [
    | none ↦ some (err (codes "malformed ListObjectsV2 response (CommonPrefixes)"))
    | some (prefix, p) ↦ prefixes_loop fuel xml next (prefixes ++ xml_unescape prefix ∷ [])
  ]
]

pub record Page : Type 0 where
  pub objects : List ObjectInfo
  pub prefixes : List Text
  pub truncated : Bool
  pub next_token : Text

unfoldable pub is_truncated : Text → Bool
unfolding next_element text_eq
is_truncated xml = elim (next_element xml 0 (codes "IsTruncated")) [
  | none ↦ false
  | some (flag, pos) ↦ text_eq flag (codes "true")
]

unfoldable pub continuation : Text → Text
unfolding next_element xml_unescape
continuation xml = elim (next_element xml 0 (codes "NextContinuationToken")) [
  | none ↦ []
  | some (tok, pos) ↦ xml_unescape tok
]

-- The end of parse_list_page, behind its two loops.
unfoldable pub finish_page : Text → List ObjectInfo → List Text → Result Page
unfolding is_truncated continuation
finish_page xml objects prefixes =
    if is_truncated xml && is_empty (continuation xml)
    then err (codes "truncated ListObjectsV2 response without NextContinuationToken")
    else ok (record {
      objects = objects;
      prefixes = prefixes;
      truncated = is_truncated xml;
      next_token = continuation xml;
    })

-- Each round of a loop passes over at least one byte, so a round for each byte and one more is
-- enough (Total).
unfoldable pub parse_list_page : Text → List ObjectInfo → List Text → Option (Result Page)
unfolding contents_loop prefixes_loop finish_page
parse_list_page xml objects prefixes = elim (contents_loop (length xml + 1) xml 0 objects) [
  | none ↦ none
  | some (err e) ↦ some (err e)
  | some (ok found) ↦ elim (prefixes_loop (length xml + 1) xml 0 prefixes) [
    | none ↦ none
    | some (err e) ↦ some (err e)
    | some (ok common) ↦ some (finish_page xml found common)
  ]
]
