-- ===== src/Client/Read.antt =====
-- S3Client::head and S3Client::read_range.
pub mod Served
use nanos3reader.Prelude.{
  ℕ, ◌+◌, ◌-◌, ◌%◌, Bool, true, not, none, some, [], ◌++◌, ltb, ◌==◌, if◌then◌else◌, length, zero,
  suc, ◌*◌, ◌/◌, ◌^◌, ◌≤◌, ◌<◌, min, max, ◌≡◌, refl, sym, ap, ◌∙◌, subst, ◌≢◌, ◌↔◌, ◌⊎◌, inl, inr,
  false, ◌&&◌, ◌||◌, Option, List, ◌∷◌, map, arith, leb, ltb→lt, lt→ltb, leb→le, ==_iff, tests,
  Bool-cases, Option-cases, all_below, all_below_sound, get_elem?, take, drop, replicate, set, All,
  length-append, take-append-drop, length-take, length-drop, length-replicate, length-map,
  length-set, take-append, drop-append, take-all, drop-all, get_elem?-take, get_elem?-drop,
  get_elem?-none, All-append, drop-drop, take-add, take-take,
}
use nanos3reader.Text.{
  Text, codes, to_string, uint64_max, text_eq, is_empty, text_lt, starts_with, shift, find_char,
  find, find_from, find_char_from, substr, substr_from, find_first_not_of, find_last_not_of,
  no_line_break, ends_with_char, is_blank, is_space, trim_by, trim, trim_ws, to_string_fuel,
  parse_digits, parse_u64,
}
use nanos3reader.Result.{Result, ok, err, ◌>>=◌}
use nanos3reader.World.{World}
use nanos3reader.Http.Request.{Call, Reply, new_call}
use nanos3reader.Client.Calls.{
  Client, Done, check_target, http_failure, transferred, exchange, then_with,
}

abbrev pub head_call : Text × Text → Call
head_call (bucket, key) = record new_call { method = codes "HEAD"; bucket = bucket; key = key }

-- offset + n - 1 on std::uint64_t
unfoldable pub last_byte : ℕ → ℕ → ℕ
last_byte offset n = (offset + n + uint64_max) % (uint64_max + 1)

-- The checks of a range that is not empty; `given` says that the destination is not null.
unfoldable pub check_range : Text → ℕ → ℕ → Bool → Result ℕ
check_range uri offset n given =
    if not given
    then err (uri ++ codes ": read_range called with a null destination")
    else if ltb (uint64_max - (n - 1)) offset
    then err (uri ++ codes ": byte range overflows 64 bits")
    else ok (last_byte offset n)

abbrev pub range_call : ℕ → ℕ → Text × Text → ℕ → Call
range_call offset n (bucket, key) last = record new_call {
  method = codes "GET";
  bucket = bucket;
  key = key;
  range = codes "bytes=" ++ (to_string offset ++ (codes "-" ++ to_string last));
  dst_cap = some n;
}

unfoldable pub head_result : Text → Reply → Result ℕ
head_result uri r =
    if r.code == 200
    then elim r.content_length [
      | none ↦ err (uri ++ codes ": HEAD response has no Content-Length")
      | some size ↦ ok size
    ]
    else err (http_failure uri r)

unfoldable pub range_result : Text → ℕ → ℕ → Reply → Result Text
range_result uri offset n r =
    if r.code == 200
    then err (uri ++ codes ": server ignored the Range header (HTTP 200)")
    else if not (r.code == 206)
    then err (http_failure uri r)
    else if length r.dst == n
    then ok r.dst
    else err (
        uri
        ++ (codes ": short read at offset "
            ++ (to_string offset
                ++ (codes ": got "
                    ++ (to_string (length r.dst)
                        ++ (codes " of "
                            ++ (to_string n ++ codes " bytes (object ends first)")))))))

module _ (w : World) where
  open w use {State}

  unfoldable pub head : Client → Text → State → Done (Result ℕ) State
  head c uri s =
      then_with (exchange w c (check_target c uri true >>= λ t. ok (head_call t)) s)
        (λ r. r >>= transferred w uri >>= head_result uri)

  -- The bytes written to `dst` where the read succeeds.
  unfoldable pub read_range : Client → Text → ℕ → ℕ → Bool → State → Done (Result Text) State
  read_range c uri offset n given s = elim (check_target c uri true) [
    | err e ↦ record { result = err e; client = c; state = s }
    | ok t ↦
        if n == 0
        then record { result = ok []; client = c; state = s }
        else then_with
            (exchange w c
              (check_range uri offset n given >>= λ last. ok (range_call offset n t last)) s)
            (λ r. r >>= transferred w uri >>= range_result uri offset n)
  ]
