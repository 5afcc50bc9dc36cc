-- ===== src/Serializer/Output.antt =====
-- pjson::toString into a caller's string, of pjsonlib/src/pjson_serialize.cpp: the preflight by
-- CountingSink, then the emission by StringSink.
pub mod Answers
use pjson.Common.{ltb, if◌then◌else◌, ℕ, Bool, true, false, Option, none, some}
use pjson.Common.Bytes.{Bytes}
use pjson.Value.{Value, Double}
use pjson.Serializer.{SerializeOptions}
use pjson.Serializer.Sink.{
  CountingSink, counting_apply, counting_ok, counting_sink, Exception, length_error,
  invalid_argument, StringSink, string_apply, string_ok, string_sink,
}
use pjson.Serializer.Write.{write_value_to}

-- SerializeError::Code
pub data SerializeCode : Type 0 where
  no_error invalid_utf8_code non_finite_number output_limit allocation_failure : SerializeCode
  stream_failure internal_error : SerializeCode

-- The bool that is returned, the caller's string and the error code after the call.
pub record Serialized : Type 0 where
  pub result : Bool
  pub out : Bytes
  pub code : SerializeCode

abbrev pub failure_code : Bool → Bool → SerializeCode
failure_code true number = invalid_utf8_code
failure_code false true = non_finite_number
failure_code false false = output_limit

-- The catch clauses.
abbrev caught : Exception → SerializeCode
caught length_error = output_limit
caught invalid_argument = internal_error

abbrev pub emitted : Bytes → Bytes → Option Exception → Serialized
emitted out text none = record { result = true; out = text; code = no_error }
emitted out text (some e) = record { result = false; out = out; code = caught e }

-- _appendValue ignores the bool.
abbrev pub appended : Bytes → Option (Bool × StringSink) → Option Serialized
appended out none = none
appended out (some (b, s)) = some (emitted out (s.out) (s.thrown))

-- The end of the preflight, then reserve, which throws beyond max_size, then the emission.
abbrev pub counted :
    ℕ
    → (Double → Bytes)
    → SerializeOptions
    → Value
    → Bytes
    → Option (Bool × CountingSink)
    → Option Serialized
counted max_size shortest opts v out none = none
counted max_size shortest opts v out (some (true, c)) =
    if ltb max_size (c.written)
    then some (record { result = false; out = out; code = caught length_error })
    else appended out (
        write_value_to string_apply string_ok shortest opts v
          (string_sink max_size (opts.max_output_bytes)))
counted max_size shortest opts v out (some (false, c)) = some (record {
  result = false;
  out = out;
  code = failure_code (c.has_invalid_utf8) (c.has_invalid_number);
})

-- max_size is std::string's; none is a model loop out of rounds.
unfoldable pub to_string :
    ℕ → (Double → Bytes) → SerializeOptions → Value → Bytes → Option Serialized
to_string max_size shortest opts v out = counted max_size shortest opts v out (
    write_value_to counting_apply counting_ok shortest opts v
      (counting_sink (opts.max_output_bytes)))
