-- ===== src/Serializer/Sink.antt =====
-- The sinks of pjsonlib/src/pjson_serialize.cpp that keep their own state: CountingSink, which only
-- counts, and StringSink, which appends to a string and reports by exceptions. After an exception
-- no call reaches the sink; in the model such a call has no effect.
pub mod Laws
pub mod Fit
pub mod Text
use pjson.Common.{
  ℕ, zero, suc, ◌+◌, ◌-◌, ◌^◌, ◌%◌, ◌≡◌, refl, Bool, true, false, ◌&&◌, ◌||◌, not, Option, none,
  some, [], ◌∷◌, ◌++◌, ltb, ◌==◌, if◌then◌else◌, length, min, List,
}
use pjson.Common.Bytes.{Bytes}
use pjson.Pointer.Index.{size_max}
use pjson.Serializer.{Command, write, repeat, fail, invalid_utf8, invalid_number}

pub record CountingSink : Type 0 where
  pub limit : ℕ
  pub written : ℕ
  pub valid : Bool
  pub has_invalid_utf8 : Bool
  pub has_invalid_number : Bool

abbrev pub exceeds : ℕ → ℕ → ℕ → Bool
exceeds limit written amount = not (limit == 0) && ltb (limit - min written limit) amount

abbrev pub overflows : CountingSink → ℕ → Bool
overflows s amount = ltb (size_max - s.written) amount || exceeds (s.limit) (s.written) amount

unfoldable pub account : CountingSink → ℕ → CountingSink
account s amount =
    if not (s.valid)
    then s
    else if overflows s amount
    then record s { valid = false }
    else record s { written = s.written + amount }

unfoldable pub counting_apply : Command → CountingSink → CountingSink
counting_apply (write s) c = account c (length s)
counting_apply (repeat ch n) c = account c n
counting_apply fail c = record c { valid = false }
counting_apply invalid_utf8 c = record c { valid = false; has_invalid_utf8 = true }
counting_apply invalid_number c = record c { valid = false; has_invalid_number = true }

abbrev pub counting_ok : CountingSink → Bool
counting_ok c = c.valid

abbrev pub counting_sink : ℕ → CountingSink
counting_sink limit = record {
  limit = limit;
  written = 0;
  valid = true;
  has_invalid_utf8 = false;
  has_invalid_number = false;
}

-- std::length_error, and std::invalid_argument
pub data Exception : Type 0 where
  length_error invalid_argument : Exception

pub record StringSink : Type 0 where
  pub out : Bytes
  pub max_size : ℕ
  pub limit : ℕ
  pub written : ℕ
  pub thrown : Option Exception

abbrev pub replicate : ℕ → ℕ → Bytes
replicate zero ch = []
replicate (suc n) ch = ch ∷ replicate n ch

-- account, then the append of the same bytes, which throws beyond max_size.
unfoldable pub append_bytes : StringSink → Bytes → StringSink
append_bytes s text =
    if exceeds (s.limit) (s.written) (length text)
    then record s { thrown = some length_error }
    else if ltb (s.max_size - length (s.out)) (length text)
    then record s { thrown = some length_error }
    else record s { out = s.out ++ text; written = (s.written + length text) % 2 ^ 64 }

abbrev pub string_apply_well : Command → StringSink → StringSink
string_apply_well (write text) s = append_bytes s text
string_apply_well (repeat ch n) s = append_bytes s (replicate n ch)
string_apply_well fail s = record s { thrown = some length_error }
string_apply_well invalid_utf8 s = record s { thrown = some invalid_argument }
string_apply_well invalid_number s = record s { thrown = some invalid_argument }

abbrev pub unless_thrown : Option Exception → StringSink → StringSink → StringSink
unless_thrown none s s' = s'
unless_thrown (some e) s s' = s

unfoldable pub string_apply : Command → StringSink → StringSink
string_apply c s = unless_thrown (s.thrown) s (string_apply_well c s)

abbrev pub is_calm : Option Exception → Bool
is_calm none = true
is_calm (some e) = false

abbrev pub string_ok : StringSink → Bool
string_ok s = is_calm (s.thrown)

-- max_size is std::string's, of the standard library.
abbrev pub string_sink : ℕ → ℕ → StringSink
string_sink max_size limit = record {
  out = [];
  max_size = max_size;
  limit = limit;
  written = 0;
  thrown = none;
}
