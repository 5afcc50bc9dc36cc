-- ===== src/Serializer/Print.antt =====
-- The calls on a sink that print a value, by recursion on the value: the reference for the
-- iterative traversal of pjsonlib/src/pjson_serialize.cpp.
use pjson.Common.{
  ℕ, zero, suc, ◌*◌, ◌/◌, Bool, true, false, ◌&&◌, not, none, some, List, [], ◌∷◌, ◌++◌, ltb, ◌==◌,
  if◌then◌else◌, length, take, drop,
}
use pjson.Common.Bytes.{Bytes, codes}
use pjson.Pointer.Index.{size_max}
use pjson.Common.Int.{pos}
use pjson.Value.{
  Value, Items, Members, null, string, int, uint, double, boolean, array, object, no_items, item,
  no_members, member, Double, infinite, finite,
}
use pjson.Text.Escape.{escape_piece}
use pjson.Serializer.{
  NonFinitePolicy, reject_non_finite, non_finite_to_null, non_finite_to_string, SerializeOptions,
  Command, write, repeat, fail, invalid_utf8, invalid_number,
}
use pjson.Serializer.Number.{integer_text, format_double}

-- The writes of one escape: each half of a surrogate pair is written by itself.
abbrev pub unit_writes : Bytes → List Command
unit_writes piece =
    if ltb 6 (length piece)
    then write (take 6 piece) ∷ write (drop 6 piece) ∷ []
    else write piece ∷ []

unfoldable pub escape_commands : ℕ → Bool → Bytes → List Command
escape_commands zero escape_non_ascii s = []
escape_commands (suc f) escape_non_ascii [] = []
escape_commands (suc f) escape_non_ascii (ch ∷ s) = elim (escape_piece escape_non_ascii ch s) [
  | none ↦ invalid_utf8 ∷ []
  | some p ↦ unit_writes (p.0) ++ escape_commands f escape_non_ascii (drop (p.1) (ch ∷ s))
]

abbrev pub string_commands : Bool → Bytes → List Command
string_commands escape_non_ascii s = escape_commands (suc (length s)) escape_non_ascii s

-- std::isfinite
abbrev pub is_finite : Double → Bool
is_finite (finite negative scaled) = true
is_finite _ = false

abbrev non_finite_text : Double → Bytes
non_finite_text (infinite true) = codes "\"-Infinity\""
non_finite_text (infinite false) = codes "\"Infinity\""
non_finite_text _ = codes "\"NaN\""

abbrev pub non_finite_command : NonFinitePolicy → Double → Command
non_finite_command reject_non_finite d = invalid_number
non_finite_command non_finite_to_null d = write (codes "null")
non_finite_command non_finite_to_string d = write (non_finite_text d)

abbrev pub double_command : (Double → Bytes) → NonFinitePolicy → Double → Command
double_command shortest policy d =
    if is_finite d then write (format_double shortest d) else non_finite_command policy d

-- opts.indentCharacter == '\t' ? '\t' : ' '
abbrev pub indent_char : SerializeOptions → ℕ
indent_char opts = if opts.indent_character == 9 then 9 else b' '

abbrev pub indent_command : SerializeOptions → ℕ → Command
indent_command opts depth =
    if not (opts.indent_width == 0) && ltb (size_max / opts.indent_width) depth
    then fail
    else repeat (indent_char opts) (depth * opts.indent_width)

abbrev pub new_line : SerializeOptions → ℕ → List Command
new_line opts depth = if opts.pretty then write (10 ∷ []) ∷ indent_command opts depth ∷ [] else []

abbrev pub separator : Bool → List Command
separator first = if first then [] else write (b',' ∷ []) ∷ []

abbrev pub after_key : SerializeOptions → Bytes
after_key opts = if opts.pretty then codes "\": " else codes "\":"

abbrev pub key_commands : SerializeOptions → Bytes → List Command
key_commands opts key =
    write (b'"' ∷ []) ∷ (string_commands opts.escape_non_ascii key ++ write (after_key opts) ∷ [])

unfoldable mutual
  pub print_value : (Double → Bytes) → SerializeOptions → ℕ → Value → List Command
  print_value shortest opts depth null = write (codes "null") ∷ []
  print_value shortest opts depth (string s) =
      write (b'"' ∷ []) ∷ (string_commands opts.escape_non_ascii s ++ write (b'"' ∷ []) ∷ [])
  print_value shortest opts depth (int z) = write (integer_text z) ∷ []
  print_value shortest opts depth (uint n) = write (integer_text (pos n)) ∷ []
  print_value shortest opts depth (double d) = double_command shortest (opts.non_finite) d ∷ []
  print_value shortest opts depth (boolean true) = write (codes "true") ∷ []
  print_value shortest opts depth (boolean false) = write (codes "false") ∷ []
  print_value shortest opts depth (array no_items) = write (codes "[]") ∷ []
  print_value shortest opts depth (array (item v xs)) =
      write (b'[' ∷ []) ∷ print_items shortest opts depth true (item v xs)
  print_value shortest opts depth (object no_members) = write (codes "{}") ∷ []
  print_value shortest opts depth (object (member k v ms)) =
      write (b'{' ∷ []) ∷ print_members shortest opts depth true (member k v ms)

  -- The children that are left, and the closing delimiter.
  pub print_items : (Double → Bytes) → SerializeOptions → ℕ → Bool → Items → List Command
  print_items shortest opts depth first no_items = new_line opts depth ++ write (b']' ∷ []) ∷ []
  print_items shortest opts depth first (item v xs) =
      separator first
      ++ (new_line opts (suc depth)
          ++ (print_value shortest opts (suc depth) v ++ print_items shortest opts depth false xs))

  pub print_members : (Double → Bytes) → SerializeOptions → ℕ → Bool → Members → List Command
  print_members shortest opts depth first no_members = new_line opts depth ++ write (b'}' ∷ []) ∷ []
  print_members shortest opts depth first (member k v ms) =
      separator first
      ++ (new_line opts (suc depth)
          ++ (key_commands opts k
              ++ (print_value shortest opts (suc depth) v
                  ++ print_members shortest opts depth false ms)))
