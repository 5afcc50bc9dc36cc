-- ===== src/Examples/Serialization.antt =====
-- Documents printed, and read back.
use pjson.Common.{ℕ, ◌≡◌, refl, true, false, some, [], ◌^◌}
use pjson.Common.Bytes.{Bytes, codes}
use pjson.Common.Int.{pos, negsuc}
use pjson.Value.{
  Double, Value, string, int, double, array, object, finite, no_items, item, no_members, member,
}
use pjson.Text.Decimal.{to_decimal}
use pjson.RoundTrip.Double.{ryu_text, scientific}
use pjson.RoundTrip.Double.Place.{Formats}
use pjson.RoundTrip.Double.Expand.{format_double-Formats}
use pjson.Serializer.Number.{integer_text, format_double}
use pjson.Serializer.{SerializeOptions, reject_non_finite}
use pjson.Serializer.Print.{print_value}
use pjson.Serializer.Sink.{CountingSink, counting_apply, counting_ok, counting_sink}
use pjson.Serializer.Sink.Laws.{counting-Keeps, counting-Refuses}
use pjson.Serializer.Write.{write_value_to}
use pjson.Serializer.Write.Refine.{run}
use pjson.Serializer.Write.Loop.{write_value_to-print_value}
use pjson.Serializer.Output.{Serialized, no_error, to_string}
use pjson.Serializer.Output.Answers.{Answers, to_string-Answers}
use pjson.Examples.{document}

-- max_size of a std::string.
abbrev string_max : ℕ
string_max = 2 ^ 62

-- A conversion that spells every double alike.
abbrev one_digits : Double → Bytes
one_digits d = codes "1E0"

abbrev pretty_options : SerializeOptions
pretty_options = record {
  pretty = true;
  indent_width = 2;
  indent_character = b' ';
  escape_non_ascii = false;
  non_finite = reject_non_finite;
  max_output_bytes = 20;
}

to_string_example :
    (r : Serialized) × (to_string string_max one_digits pretty_options document (codes "old")
      ≡ some r)
    × Answers string_max 20 (print_value one_digits pretty_options 0 document) (codes "old") r
to_string_example = to_string-Answers string_max one_digits pretty_options document (codes "old")

abbrev after_printing : CountingSink
after_printing =
    run counting_apply counting_ok (print_value one_digits pretty_options 0 document)
      (counting_sink 20)

write_value_to_example :
    write_value_to counting_apply counting_ok one_digits pretty_options document (counting_sink 20)
    ≡ some (counting_ok after_printing, after_printing)
write_value_to_example =
    write_value_to-print_value counting_apply counting_ok counting-Keeps counting-Refuses one_digits
      pretty_options document (counting_sink 20) refl

abbrev one_double : Double
one_double = finite false (2 ^ 1074)

-- {"a":[1.0,"b",-7]}
abbrev readable : Value
readable = object (
    member (codes "a")
      (array
        (item (double one_double) (item (string (codes "b")) (item (int (negsuc 6)) no_items))))
      no_members)

abbrev compact_options : SerializeOptions
compact_options = record pretty_options { pretty = false; max_output_bytes = 0 }

abbrev readable_text : Serialized
readable_text = record { result = true; out = codes "{\"a\":[1.0,\"b\",-7]}"; code = no_error }

one_spelled : one_digits one_double ≡ ryu_text false b'1' [] (pos 0)
unfolding integer_text to_decimal
one_spelled = refl

format_double_example :
    Formats (scientific false b'1' [] (pos 0)) (format_double one_digits one_double)
format_double_example =
    format_double-Formats one_digits one_double false b'1' [] (pos 0) refl one_spelled
      (refl, tt, λ h. cc)
