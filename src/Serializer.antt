-- ===== src/Serializer.antt =====
-- The serializer of pjsonlib/src/pjson_serialize.cpp: options, and the calls that it makes on a sink.
-- The source's templates over Sink are functions of the sink's operations here.
pub mod Number
pub mod Print
pub mod Write
pub mod Sink
pub mod Output
use pjson.Common.{ℕ, Bool, true, false}
use pjson.Common.Bytes.{Bytes}

-- SerializeOptions::NonFinitePolicy
pub data NonFinitePolicy : Type 0 where
  reject_non_finite non_finite_to_null non_finite_to_string : NonFinitePolicy

pub record SerializeOptions : Type 0 where
  pub pretty : Bool
  pub indent_width : ℕ
  pub indent_character : ℕ
  pub escape_non_ascii : Bool
  pub non_finite : NonFinitePolicy
  pub max_output_bytes : ℕ

-- A call on a sink: write and put, repeat, fail, invalidUtf8 and invalidNumber.
pub data Command : Type 0 where
  write : Bytes → Command
  repeat : ℕ → ℕ → Command
  fail invalid_utf8 invalid_number : Command
