-- ===== src/Client/List.antt =====
-- S3Client::list: the pages of a listing, one request each.
pub mod Pages
use nanos3reader.Prelude.{
  ℕ, zero, suc, false, not, Option, none, some, List, [], ◌++◌, ◌==◌, if◌then◌else◌,
}
use nanos3reader.Text.{Text, codes, text_eq}
use nanos3reader.Result.{Result, ok, err, ◌>>=◌, map_err}
use nanos3reader.Xml.Page.{ObjectInfo, Page, list_query, parse_list_page}
use nanos3reader.World.{World}
use nanos3reader.Http.Request.{Call, Reply, new_call}
use nanos3reader.Client.Calls.{
  Client, Done, check_target, http_failure, transferred, exchange, then_with,
}

abbrev pub list_call : Text → Text → Text → Text → Call
list_call bucket prefix delimiter token = record new_call {
  method = codes "GET";
  bucket = bucket;
  query = list_query prefix delimiter token;
}

-- One page of a listing; `found` and `prefixes` are those of the pages before.
unfoldable pub page_result : Text → List ObjectInfo → List Text → Reply → Result Page
page_result uri found prefixes r =
    if r.code == 200
    then elim (parse_list_page r.text found prefixes) [
      | none ↦ err uri
      | some p ↦ map_err (λ e. uri ++ (codes ": " ++ e)) p
    ]
    else err (http_failure uri r)

module _ (w : World) where
  open w use {State}

  unfoldable pub list_page :
      Client
      → Text
      → Text
      → Text
      → Text
      → Text
      → List ObjectInfo
      → List Text
      → State
      → Done (Result Page) State
  list_page c uri bucket prefix delimiter token found prefixes s =
      then_with (exchange w c (ok (list_call bucket prefix delimiter token)) s)
        (λ r. r >>= transferred w uri >>= page_result uri found prefixes)

  -- The loop of list over the pages. The fuel bounds their number, and `none` means that it ran out.
  unfoldable pub list_loop :
      ℕ
      → Client
      → Text
      → Text
      → Text
      → Text
      → Text
      → List ObjectInfo
      → List Text
      → State
      → Option (Done (Result (List ObjectInfo × List Text)) State)
  list_loop zero c uri bucket prefix delimiter token found prefixes s = none
  list_loop (suc fuel) c uri bucket prefix delimiter token found prefixes s =
      let d = list_page c uri bucket prefix delimiter token found prefixes s in
      elim d.result [
        | err e ↦ some (record { result = err e; client = d.client; state = d.state })
        | ok page ↦
            let more =
              list_loop fuel d.client uri bucket prefix delimiter page.next_token page.objects
                page.prefixes d.state in
            if not page.truncated
            then some (record {
              result = ok (page.objects, page.prefixes);
              client = d.client;
              state = d.state;
            })
            else if text_eq page.next_token token
            then some (record {
              result = err (uri ++ codes ": listing did not advance (repeated continuation token)");
              client = d.client;
              state = d.state;
            })
            else more
      ]

  unfoldable pub list :
      ℕ → Client → Text → Text → State → Option (Done (Result (List ObjectInfo × List Text)) State)
  list fuel c uri delimiter s = elim (check_target c uri false) [
    | err e ↦ some (record { result = err e; client = c; state = s })
    | ok (bucket, prefix) ↦ list_loop fuel c uri bucket prefix delimiter [] [] [] s
  ]
