-- ===== src/Examples.antt =====
-- Concrete documents, pointers and patches on which the theorems are applied.
mod Serialization
use pjson.Common.{
  suc, none, take, drop, ltb, if◌then◌else◌, inr, ◌≤◌, ◌<◌, ◌≡◌, ◌↔◌, refl, inl, true, false, some,
  List, [], ◌∷◌, ◌++◌, length, arith, ◌^◌,
}
use pjson.Common.Bytes.{Bytes, codes, bytes_eq}
use pjson.Common.Int.{pos, negsuc}
use pjson.Value.{
  null, Double, boolean, Value, string, int, uint, double, array, object, finite, no_items, item,
  no_members, member,
}
use pjson.Value.{get_type, json_array}
use pjson.Value.ObjectStorage.{HasUniqueKeys}
use pjson.Value.Mutation.{
  reset_to, clear, erase_key, erase_index, push_back, insert_or_assign, index_key, index_element,
}
use pjson.Value.Access.{find, has_key, size}
use pjson.Value.Mutation.Effects.{
  members_of, elements, or_made, emptied, Indexed, find-mutators, elements-mutators,
}
use pjson.Value.Number.{compare_numbers}
use pjson.Value.Number.Exact.{exact, exact_order, compare_numbers-exact}
use pjson.Value.Equality.{operator_eq}
use pjson.Value.Equality.Structural.{values_equal, operator_eq-values_equal}
use pjson.Value.Nodes.{node_count}
use pjson.Text.Decimal.{to_decimal}
use pjson.Text.Utf8.{utf8_len, append_utf8}
use pjson.Text.Utf8.RoundTrip.{StartsWithScalar, utf8_len-append_utf8, utf8_len-StartsWithScalar}
use pjson.Text.Escape.{escaped, write_escaped, escape_loop, escape_piece, escape_code_point}
use pjson.Text.Escape.Accepts.{Decides, write_escaped-Decides}
use pjson.Text.Hex.{hex_digits}
use pjson.Pointer.{found}
use pjson.Pointer.Index.{index_ok, size_max, parse_pointer_index, parse_pointer_index-to_decimal}
use pjson.Pointer.Tokens.{decode_pointer, build_pointer}
use pjson.Pointer.Tokens.RoundTrip.{decode_pointer-build}
use pjson.Pointer.Resolve.{find_pointer}
use pjson.Pointer.Resolve.Located.{Located, find_pointer-Located}
use pjson.Patch.{PatchOptions, IsWithin, PatchState, patch_budget, reset_patch_error}
use pjson.Patch.Measure.{measure_clone}
use pjson.Patch.Measure.Cost.{byte_count, Measured}
use pjson.Patch.Measure.Cost.Exact.{measure_clone-Measured}
use pjson.Patch.Compare.{patch_equal}
use pjson.Patch.Compare.Sound.{Yields, patch_equal-Yields}
use pjson.Patch.Apply.{patch_document, apply_patch}
use pjson.Patch.Apply.Safe.{Safe, limits}
use pjson.Patch.Apply.Safe.Operations.{initial_state, patch_document-Safe}
use pjson.Patch.Merge.{merge_document, apply_merge_patch}
use pjson.Patch.Merge.Reference.{merge_patch, IsKeyed}
use pjson.Patch.Merge.Spends.{Spends}
use pjson.Patch.Merge.Exact.{merge_document-Spends}
use pjson.Patch.Merge.Answers.{MergesOrOverspends, apply_merge_patch-MergesOrOverspends}
use pjson.Value.ObjectStorage.{find_member}
use pjson.Parser.{parsed}
use pjson.Parser.StringBody.{decode_string_body}
use pjson.Parser.StringBody.RoundTrip.{decode_string_body-write_escaped}
use pjson.Value.ObjectStorage.{find_member}
use pjson.Parser.Number.{
  Extraction, scan_json_number, convert_number_token, take_digits, parse_double,
  reject_unrepresentable_numbers,
}
use pjson.Parser.Tokens.{
  ParseOptions, reject_duplicate_keys, skip_whitespace, new_node, parse_keyword, match_keyword,
  clamp_parse_depth,
}
use pjson.Parser.Position.{ParseError, reset_parse_error}
use pjson.Parser.Document.{parse_top, parse_value, open_container, context_of}
use pjson.RoundTrip.Leaf.{Stops, ReadsBack}
use pjson.RoundTrip.Readable.{IsReadable}
use pjson.Serializer.Number.{integer_text, format_double}
use pjson.Serializer.Sink.{account, append_bytes, string_apply}
use pjson.Parser.Document.Depth.{value_depth}
use pjson.Parser.Document.Depth.Limit.{parse_top-depth}
use pjson.Value.ArrayStorage.{push_item}
use pjson.Parser.Document.Total.{Answered, parse_top-Answered}
use pjson.Serializer.{SerializeOptions, reject_non_finite}
use pjson.Serializer.Print.{print_value}
use pjson.Serializer.Sink.{CountingSink, counting_apply, counting_ok, counting_sink}
use pjson.Serializer.Sink.Laws.{counting-Keeps, counting-Refuses}
use pjson.Serializer.Write.{write_value_to, write_round, write_loop, open_or_emit, escape_rounds}
use pjson.Serializer.Write.Refine.{run}
use pjson.Serializer.Write.Loop.{write_value_to-print_value}
use pjson.Serializer.Output.{Serialized, no_error, to_string}
use pjson.Serializer.Output.Answers.{Answers, to_string-Answers}

abbrev one_half : Value
one_half = double (finite false (2 ^ 1073))

abbrev document : Value
document = object (
    member (codes "a") (array (item (int (pos 1)) (item (string (codes "b")) no_items))) no_members)

-- { "op": "remove", "path": "/a/0" }
abbrev removal : Value
removal = array (
    item
      (object (
        member (codes "op") (string (codes "remove"))
          (member (codes "path") (string (codes "/a/0")) no_members)))
      no_items)

abbrev options : PatchOptions
options = record { max_operations = 0; max_cloned_nodes = 0; max_cloned_bytes = 0; max_work = 7 }

abbrev start : PatchState
start = record { budget = patch_budget options; error = reset_patch_error }

-- A stream that makes 1 of every text.
abbrev one_stream : Bytes → Extraction
one_stream s = record { value = finite false (2 ^ 1074); failed = false; eof = true; at_end = true }

abbrev parse_options : ParseOptions
parse_options = record {
  max_depth = pos 4;
  max_nodes = 100;
  max_input_bytes = 0;
  duplicate_keys = reject_duplicate_keys;
  number_policy = reject_unrepresentable_numbers;
}

abbrev text : Bytes
text = codes "[1.5, {\"k\": [true]}]"

-- A quotation mark, a control character and U+1F600.
abbrev body : Bytes
body = b'"' ∷ 1 ∷ 0xF0 ∷ 0x9F ∷ 0x98 ∷ 0x80 ∷ []

parse_top_example :
    (r : Value × ParseError) × (parse_top parse_options one_stream (some text) ≡ some r)
    × Answered (some text) r
parse_top_example = parse_top-Answered parse_options one_stream (some text)

-- [[true]]
nested_parsed :
    parse_top parse_options one_stream (some (codes "[[true]]"))
    ≡ some (array (item (array (item (boolean true) no_items)) no_items), reset_parse_error)
unfolding parse_top parse_value skip_whitespace open_container new_node parse_keyword match_keyword
    bytes_eq clamp_parse_depth push_item
nested_parsed = refl

parse_depth_example :
    value_depth (array (item (array (item (boolean true) no_items)) no_items))
    ≤ clamp_parse_depth (pos 4)
parse_depth_example =
    parse_top-depth parse_options one_stream (some (codes "[[true]]"))
      (array (item (array (item (boolean true) no_items)) no_items)) reset_parse_error nested_parsed

abbrev written : Bytes
written = codes "\\\"\\u0001\\ud83d\\ude00"

write_escaped-body : write_escaped true body ≡ escaped written
unfolding write_escaped escape_loop escape_piece escape_code_point hex_digits utf8_len
write_escaped-body = refl

string_body_example :
    decode_string_body true (written ++ b'"' ∷ b']' ∷ []) ≡ parsed body (b']' ∷ [])
string_body_example =
    decode_string_body-write_escaped true body written (b']' ∷ []) write_escaped-body

write_escaped_example : Decides body (write_escaped false body)
write_escaped_example = write_escaped-Decides false body

patch_document_example :
    Safe (limits (patch_budget options)) (patch_document document removal (initial_state options))
patch_document_example = patch_document-Safe document removal options

find_pointer_example : (find_pointer document (codes "/a/1") ≡ found (string (codes "b"))) ↔ (
    (tokens : List Bytes) × (codes "/a/1" ≡ build_pointer tokens)
    × Located document tokens (string (codes "b")))
find_pointer_example = find_pointer-Located document (codes "/a/1") (string (codes "b"))

start-IsWithin : IsWithin (start.budget)
unfolding patch_budget
start-IsWithin = record {
  operations_le = omega arith;
  nodes_le = omega arith;
  bytes_le = omega arith;
  work_le = omega arith;
}

measure_clone_example :
    Measured start (node_count document) (byte_count document) (measure_clone document start)
measure_clone_example = measure_clone-Measured document start start-IsWithin

compare_numbers_example :
    compare_numbers (uint 18446744073709551615) one_half
    ≡ exact_order (exact (uint 18446744073709551615)) (exact one_half)
compare_numbers_example =
    compare_numbers-exact (uint 18446744073709551615) one_half refl refl (omega arith) tt

operator_eq_example : operator_eq document removal ≡ some (values_equal document removal)
operator_eq_example = operator_eq-values_equal document removal

patch_equal_example : Yields (values_equal document removal) (patch_equal document removal start)
patch_equal_example = patch_equal-Yields document removal start

decode_pointer_example :
    (decode_pointer (codes "/a~1b/") ≡ found (codes "a/b" ∷ [] ∷ []))
    ↔ (codes "/a~1b/" ≡ build_pointer (codes "a/b" ∷ [] ∷ []))
decode_pointer_example = decode_pointer-build (codes "/a~1b/") (codes "a/b" ∷ [] ∷ [])

parse_pointer_index_example :
    (parse_pointer_index (codes "10") ≡ index_ok 10)
    ↔ ((codes "10" ≡ to_decimal 10) × (10 ≤ size_max))
parse_pointer_index_example = parse_pointer_index-to_decimal (codes "10") 10

append_utf8_example : utf8_len (append_utf8 0x20AC ++ b'x' ∷ []) ≡ length (append_utf8 0x20AC)
append_utf8_example = utf8_len-append_utf8 0x20AC (b'x' ∷ []) (inl (omega arith))

abbrev euro : Bytes
euro = 0xE2 ∷ 0x82 ∷ 0xAC ∷ b'x' ∷ []

euro_valid : 0 < utf8_len euro
unfolding utf8_len
euro_valid = omega arith

utf8_len_example : StartsWithScalar euro (utf8_len euro)
utf8_len_example = utf8_len-StartsWithScalar euro euro_valid

-- { "a": null, "b": { "c": true } }
abbrev merge : Value
merge = object (
    member (codes "a") null
      (member (codes "b") (object (member (codes "c") (boolean true) no_members)) no_members))

merge-IsKeyed : IsKeyed merge
unfolding IsKeyed find_member bytes_eq
merge-IsKeyed = ((refl, (refl, tt)), (tt, (((refl, tt), (tt, tt)), tt)))

merge_document_example :
    Spends
      (limits (patch_budget options))
      (λ r. r ≡ merge_patch merge document)
      (merge_document document merge (initial_state options))
merge_document_example = merge_document-Spends document merge options merge-IsKeyed

apply_merge_patch_example :
    MergesOrOverspends document merge (apply_merge_patch document merge options)
apply_merge_patch_example =
    apply_merge_patch-MergesOrOverspends document merge options merge-IsKeyed

document_keys : HasUniqueKeys (members_of document)
unfolding find_member
document_keys = (refl, tt)

find_mutators_example :
    (find (insert_or_assign (codes "a") one_half document) (codes "c")
      ≡ (if bytes_eq (codes "a") (codes "c") then some one_half else find document (codes "c")))
    × (find (index_key (codes "a") document) (codes "c") ≡ (
        if bytes_eq (codes "a") (codes "c")
        then some (or_made (find document (codes "a")))
        else find document (codes "c")))
    × (find ((erase_key (codes "a") document).1) (codes "c")
        ≡ (if bytes_eq (codes "a") (codes "c") then none else find document (codes "c")))
    × ((erase_key (codes "a") document).0 ≡ has_key document (codes "a"))
    × (get_type ((erase_key (codes "a") document).1) ≡ get_type document)
find_mutators_example = find-mutators document one_half (codes "a") (codes "c") document_keys

elements_mutators_example :
    (elements (push_back one_half removal) ≡ elements removal ++ one_half ∷ [])
    × (elements ((erase_index 0 removal).1)
        ≡ take 0 (elements removal) ++ drop (suc 0) (elements removal))
    × ((erase_index 0 removal).0 ≡ ltb 0 (length (elements removal)))
    × (get_type ((erase_index 0 removal).1) ≡ get_type removal)
    × Indexed 0 removal (index_element 0 removal)
    × (clear removal ≡ reset_to (emptied (get_type removal)))
    × (size (clear removal) ≡ 0)
    × (get_type (reset_to json_array) ≡ json_array)
elements_mutators_example = elements-mutators removal one_half 0 json_array
