-- ===== src/PutDirectory/Items.antt =====
-- The files that put_directory sends, with their URIs, in the order in which it starts them.
use nanos3reader.Prelude.{
  ℕ, Bool, not, ◌&&◌, Option, none, some, List, [], ◌∷◌, ◌++◌, ltb, if◌then◌else◌,
}
use nanos3reader.Text.{Text, codes, is_empty, ends_with_char}
use nanos3reader.Result.{Result, ok, err, ◌>>=◌}

-- What recursive_directory_iterator shows of an entry: its path, the path relative to the root with '/'
-- between names, whether it is a regular file behind its symlinks, and its size.
pub record Entry : Type 0 where
  pub path : Text
  pub relative : Text
  pub regular : Bool
  pub size : Result ℕ

-- The entries up to the end, or up to the error that ended the walk.
pub record Walk : Type 0 where
  pub entries : List Entry
  pub failure : Option Text

-- std::filesystem on directories: whether a path is one, with the message of an error or an empty
-- one; and the walk, or the message of a directory that cannot be opened.
pub record Directories (State : Type 0) : Type 0 where
  pub is_directory : Text → State → Bool
  pub directory_error : Text → State → Text
  pub walk : Text → State → Result Walk

pub record Item : Type 0 where
  pub path : Text
  pub uri : Text
  pub size : ℕ

-- base, with a '/' behind a prefix that has none
unfoldable pub base_uri : Text × Text → Text
unfolding ends_with_char
base_uri (bucket, prefix) =
    let base = codes "s3://" ++ (bucket ++ (codes "/" ++ prefix)) in
    if not (is_empty prefix) && not (ends_with_char b'/' prefix) then base ++ codes "/" else base

unfoldable pub list_items : Text → List Entry → Result (List Item)
list_items base [] = ok []
list_items base (e ∷ es) =
    let rest = list_items base es in
    if e.regular
    then elim e.size [
      | err message ↦ err (e.path ++ (codes ": " ++ message))
      | ok n ↦ rest >>= λ items.
          ok (record { path = e.path; uri = base ++ e.relative; size = n } ∷ items)
    ]
    else rest

-- An error that ended the walk, behind the entries before it.
unfoldable pub walked : Text → Text → Walk → Result (List Item)
walked dir base walk = list_items base walk.entries >>= λ items. elim walk.failure [
  | none ↦ ok items
  | some message ↦ err (dir ++ (codes ": " ++ message))
]

-- std::stable_sort by `a.size > b.size`.
unfoldable pub insert_item : Item → List Item → List Item
insert_item x [] = x ∷ []
insert_item x (y ∷ ys) = if ltb x.size y.size then y ∷ insert_item x ys else x ∷ y ∷ ys

unfoldable pub largest_first : List Item → List Item
largest_first [] = []
largest_first (x ∷ xs) = insert_item x (largest_first xs)
