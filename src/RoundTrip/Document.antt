-- ===== src/RoundTrip/Document.antt =====
-- parseTop on printed documents: pjson::toString of pjsonlib/src/pjson_serialize.cpp against
-- pJsonParser of pjson_parser.cpp.
use pjson.Common.{refl, ap, ◌∙◌, true, false, ◌++◌}
use pjson.Common.Bytes.{Bytes, codes}
use pjson.Common.Int.{pos}
use pjson.Value.{
  Value, Items, Members, null, string, int, uint, double, boolean, array, object, no_items, item,
  no_members, member, Double,
}
use pjson.Value.Nodes.{node_count}
use pjson.Parser.Tokens.{ParseContext}
use pjson.Serializer.{SerializeOptions}
use pjson.Serializer.Number.{integer_text, format_double}
use pjson.Serializer.Print.{print_value}
use pjson.Serializer.Output.Answers.{Answers}
use pjson.RoundTrip.Scalar.{
  string-Reads, int-Reads, uint-Reads, double-Reads, null-Reads, true-Reads, false-Reads,
  scanned-StartsNumber,
}
use pjson.RoundTrip.Double.Scan.{spelled-ReadsBack}
use pjson.RoundTrip.Readable.{
  IsReadable, AreReadable, MembersAreReadable, ReadsValue, ReadsItems, ReadsMembers,
}
use pjson.RoundTrip.Values.{double_text, leaf-Reads, at_text}
use pjson.RoundTrip.Arrays.{no_items-Reads, item-Reads, array-Reads, empty_array-Reads}
use pjson.RoundTrip.Objects.{no_members-Reads, member-Reads, object-Reads, empty_object-Reads}

module _ (c : ParseContext) (shortest : Double → Bytes) (opts : SerializeOptions) where
  mutual
    unfolding print_value node_count IsReadable

    value-Reads : (v : Value) → IsReadable c shortest v → ReadsValue c shortest opts v
    value-Reads null r = leaf-Reads c shortest opts null refl (λ n f d k t w rest room p at stop.
        null-Reads c f d k w rest room (at_text c shortest opts (codes "null") t w rest p at))
    value-Reads (boolean true) r =
        leaf-Reads c shortest opts (boolean true) refl (λ n f d k t w rest room p at stop.
          true-Reads c f d k w rest room (at_text c shortest opts (codes "true") t w rest p at))
    value-Reads (boolean false) r =
        leaf-Reads c shortest opts (boolean false) refl (λ n f d k t w rest room p at stop.
          false-Reads c f d k w rest room (at_text c shortest opts (codes "false") t w rest p at))
    value-Reads (string s) r =
        leaf-Reads c shortest opts (string s) refl (λ n f d k t w rest room p at stop.
          string-Reads c f d k w rest room (opts.escape_non_ascii) s t p at)
    value-Reads (int z) r =
        leaf-Reads c shortest opts (int z) refl (λ n f d k t w rest room p at stop.
          int-Reads c f d k w rest room z r stop
            (at_text c shortest opts (integer_text z) t w rest p at))
    value-Reads (uint m) r =
        leaf-Reads c shortest opts (uint m) refl (λ n f d k t w rest room p at stop.
          uint-Reads c f d k w rest room m (r.0) (r.1) stop
            (at_text c shortest opts (integer_text (pos m)) t w rest p at))
    value-Reads (double x) r =
        leaf-Reads c shortest opts (double x) refl (λ n f d k t w rest room p at stop.
          double-Reads c f d k w rest room (format_double shortest x) x
            (spelled-ReadsBack c shortest x (r.0) (r.1))
            (scanned-StartsNumber c (format_double shortest x) x
              (spelled-ReadsBack c shortest x (r.0) (r.1)))
            stop (at ∙ ap (λ t. t ++ rest) (double_text shortest opts x t (r.0) p)))
    value-Reads (array no_items) r = empty_array-Reads c shortest opts
    value-Reads (array (item v xs)) r =
        array-Reads c shortest opts v xs (value-Reads v (r.0)) (items-Reads xs (r.1)) (r.0)
    value-Reads (object no_members) r = empty_object-Reads c shortest opts
    value-Reads (object (member key v ms)) r =
        object-Reads c shortest opts key v ms (value-Reads v (r.1.0)) (members-Reads ms (r.1.1))
          (r.1.0) (r.0)

    items-Reads : (xs : Items) → AreReadable c shortest xs → ReadsItems c shortest opts xs
    items-Reads no_items r = no_items-Reads c shortest opts
    items-Reads (item v xs) r =
        item-Reads c shortest opts v xs (value-Reads v (r.0)) (items-Reads xs (r.1)) (r.0)

    members-Reads :
        (ms : Members) → MembersAreReadable c shortest ms → ReadsMembers c shortest opts ms
    members-Reads no_members r = no_members-Reads c shortest opts
    members-Reads (member key v ms) r =
        member-Reads c shortest opts key v ms (value-Reads v (r.0)) (members-Reads ms (r.1)) (r.0)
