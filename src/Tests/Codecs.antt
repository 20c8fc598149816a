-- ===== src/Tests/Codecs.antt =====
-- Witnesses: numerals, encodings, XML and URIs.
use nanos3reader.Prelude.{◌≡◌, refl, true, false, ◌&&◌, some, [], ◌∷◌, ◌++◌, arith}
use nanos3reader.Text.{Text, codes, ends_with_char, to_string, parse_u64}
use nanos3reader.Result.{Result, ok}
use nanos3reader.Text.Decimal.{u64_of, parse_u64-eq-u64_of, parse_u64-to_string}
use nanos3reader.Encode.{uri_encode_path}
use nanos3reader.Encode.Percent.{percent_decode, percent_decode-uri_encode_path}
use nanos3reader.Xml.Entity.{xml_escape, xml_unescape, xml_unescape-xml_escape}
use nanos3reader.Xml.Page.{Page, ObjectInfo, parse_list_page}
use nanos3reader.Xml.Page.Append.{map_ok, map_some, behind, parse_list_page-behind}
use nanos3reader.Xml.Page.Total.{parse_list_page-total}
use nanos3reader.Uri.{Config, split_s3_uri, build_endpoint}
use nanos3reader.Uri.Split.{split_s3_uri-join}
use nanos3reader.Uri.Target.{object_path, expected_scheme, build_endpoint_lem}
use nanos3reader.Tests.Fixtures.{test_config}

parse_u64-eq-u64_of_example :
    parse_u64 (codes "18446744073709551616") ≡ u64_of (codes "18446744073709551616")
parse_u64-eq-u64_of_example = parse_u64-eq-u64_of (codes "18446744073709551616")

parse_u64-to_string_example : parse_u64 (to_string 18446744073709551615) ≡ some 18446744073709551615
parse_u64-to_string_example = parse_u64-to_string 18446744073709551615 (omega arith)

percent_decode-uri_encode_path_example :
    percent_decode (uri_encode_path (codes "a/ %")) ≡ some (codes "a/ %")
percent_decode-uri_encode_path_example =
    percent_decode-uri_encode_path (codes "a/ %")
      (omega arith, (omega arith, (omega arith, (omega arith, tt))))

xml_unescape-xml_escape_example : xml_unescape (xml_escape (codes "a<b>&amp;")) ≡ codes "a<b>&amp;"
xml_unescape-xml_escape_example = xml_unescape-xml_escape (codes "a<b>&amp;")

abbrev one_page : Text
one_page =
    codes "<Contents><Key>a&amp;b</Key><Size>7</Size></Contents><IsTruncated>false</IsTruncated>"

parse_list_page-total_example : (r : Result Page) × (parse_list_page one_page [] [] ≡ some r)
parse_list_page-total_example = parse_list_page-total one_page [] []

abbrev earlier_object : ObjectInfo
earlier_object = record { key = codes "a"; size = 1 }

parse_list_page-behind_example :
    parse_list_page one_page (earlier_object ∷ []) (codes "p/" ∷ [])
    ≡ map_some
        (map_ok (behind (earlier_object ∷ []) (codes "p/" ∷ [])))
        (parse_list_page one_page [] [])
parse_list_page-behind_example =
    parse_list_page-behind one_page (earlier_object ∷ []) (codes "p/" ∷ [])

split_s3_uri-join_example : split_s3_uri (codes "s3://b/k/1") true ≡ ok (codes "b", codes "k/1")
split_s3_uri-join_example =
    split_s3_uri-join (codes "b") (codes "k/1") true ((λ e. omega arith), tt) refl refl

abbrev local_config : Config
local_config = record test_config { endpoint = codes "http://h:9000/"; path_style = true }

build_endpoint_lem_example :
    let e = build_endpoint local_config (codes "b") (codes "k") (codes "r") in
    (percent_decode e.path ≡ some (object_path local_config (codes "b") (codes "k")))
    × (e.url ≡ expected_scheme local_config ++ (e.host ++ e.path))
    × ((true && ends_with_char b'/' e.host) ≡ false)
build_endpoint_lem_example =
    build_endpoint_lem local_config (codes "b") (codes "k") (codes "r") (omega arith, tt)
      (omega arith, tt)
