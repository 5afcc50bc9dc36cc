-- ===== src/Serializer/Write.antt =====
-- The traversal of pjsonlib/src/pjson_serialize.cpp over any sink: writeIndent, _writeEscapedTo,
-- _openOrEmit and _writeValueTo with its stack of frames. A sink is its state, what a call does to
-- it, and operator bool. A function that the source leaves with false stops the ones that call it.
pub mod Refine
pub mod Values
pub mod Loop
use pjson.Common.{
  ℕ, zero, suc, ◌+◌, ◌-◌, ◌*◌, ◌/◌, Bool, true, false, ◌&&◌, not, Option, none, some, List, [], ◌∷◌,
  ◌++◌, ltb, ◌==◌, if◌then◌else◌, length, drop,
}
use pjson.Common.Bytes.{Bytes, codes}
use pjson.Common.Int.{pos}
use pjson.Value.{
  Value, Items, Members, null, string, int, uint, double, boolean, array, object, no_items, item,
  no_members, member, Double,
}
use pjson.Value.Nodes.{node_count}
use pjson.Pointer.Index.{size_max}
use pjson.Text.Escape.{escape_piece}
use pjson.Serializer.{
  NonFinitePolicy, SerializeOptions, Command, write, repeat, fail, invalid_utf8, invalid_number,
}
use pjson.Serializer.Number.{integer_text}
use pjson.Serializer.Print.{unit_writes, double_command, indent_char}

-- The cursor of a SerializeFrame: what is left of the array or of the object.
pub data Children : Type 0 where
  of_array : Items → Children
  of_object : Members → Children

pub record SerializeFrame : Type 0 where
  pub depth : ℕ
  pub first : Bool
  pub children : Children

-- The frame that _openOrEmit pushes for a value that is not empty.
abbrev pub opened : ℕ → Value → List SerializeFrame
opened depth (array (item v xs)) =
    record { depth = depth; first = true; children = of_array (item v xs) } ∷ []
opened depth (object (member k v ms)) =
    record { depth = depth; first = true; children = of_object (member k v ms) } ∷ []
opened depth _ = []

abbrev pub advanced : SerializeFrame → Children → SerializeFrame
advanced frame rest = record frame { first = false; children = rest }

abbrev pub next_frames : SerializeFrame → Children → List SerializeFrame → List SerializeFrame
next_frames frame (of_array no_items) stack = stack
next_frames frame (of_array (item v xs)) stack =
    opened (suc (frame.depth)) v ++ (advanced frame (of_array xs) ∷ stack)
next_frames frame (of_object no_members) stack = stack
next_frames frame (of_object (member k v ms)) stack =
    opened (suc (frame.depth)) v ++ (advanced frame (of_object ms) ∷ stack)

-- The stack after a round, when it succeeds.
abbrev pub next_stack : SerializeFrame → List SerializeFrame → List SerializeFrame
next_stack frame stack = next_frames frame (frame.children) stack

-- The returned bool, and the sink.
abbrev pub Writing : Type 0 → Type 0
Writing S = S → Bool × S

abbrev pub continue : {S : Type 0} → Bool → S → Writing S → Bool × S
continue true s k = k s
continue false s k = (false, s)

abbrev pub then_write : {S : Type 0} → Writing S → Writing S → Writing S
then_write m k s = continue ((m s).0) ((m s).1) k

abbrev pub skip : {S : Type 0} → Writing S
skip s = (true, s)

module _ {S : Type 0} (apply : Command → S → S) where
  -- A call whose effect on the sink is not tested at once.
  abbrev pub call : Command → Writing S
  call c s = (true, apply c s)

  -- return aOut.invalidUtf8(), and the like
  abbrev pub refuse : Command → Writing S
  refuse c s = (false, apply c s)

-- if (!aOut) return false
abbrev pub check : {S : Type 0} → (S → Bool) → Writing S
check is_ok s = (is_ok s, s)

module _ {S : Type 0} (apply : Command → S → S) (is_ok : S → Bool) where
  abbrev pub emit : Command → Writing S
  emit c = then_write (call apply c) (check is_ok)

  abbrev pub emit_all : List Command → Writing S
  emit_all [] = skip
  emit_all (c ∷ cs) = then_write (emit c) (emit_all cs)

  abbrev pub write_indent : SerializeOptions → ℕ → Writing S
  write_indent opts depth =
      if not (opts.indent_width == 0) && ltb (size_max / opts.indent_width) depth
      then refuse apply fail
      else emit (repeat (indent_char opts) (depth * opts.indent_width))

  -- The loop; it is left with false, and no call, at the end of the rounds.
  unfoldable pub escape_rounds : ℕ → Bool → Bytes → Writing S
  escape_rounds zero escape_non_ascii s sink = (false, sink)
  escape_rounds (suc f) escape_non_ascii [] sink = check is_ok sink
  escape_rounds (suc f) escape_non_ascii (ch ∷ s) sink = elim (escape_piece escape_non_ascii ch s) [
    | none ↦ refuse apply invalid_utf8 sink
    | some p ↦
        then_write (emit_all (unit_writes (p.0)))
          (escape_rounds f escape_non_ascii (drop (p.1) (ch ∷ s))) sink
  ]

  abbrev pub write_escaped_to : Bool → Bytes → Writing S
  write_escaped_to escape_non_ascii s = escape_rounds (suc (length s)) escape_non_ascii s

  abbrev pub emit_number : Command → Writing S
  emit_number invalid_number = refuse apply invalid_number
  emit_number c = emit c

  unfoldable pub open_or_emit : (Double → Bytes) → SerializeOptions → Value → Writing S
  open_or_emit shortest opts null = emit (write (codes "null"))
  open_or_emit shortest opts (string s) =
      then_write (emit (write (b'"' ∷ [])))
        (then_write (write_escaped_to (opts.escape_non_ascii) s) (emit (write (b'"' ∷ []))))
  open_or_emit shortest opts (int z) = emit (write (integer_text z))
  open_or_emit shortest opts (uint n) = emit (write (integer_text (pos n)))
  open_or_emit shortest opts (double d) = emit_number (double_command shortest (opts.non_finite) d)
  open_or_emit shortest opts (boolean true) = emit (write (codes "true"))
  open_or_emit shortest opts (boolean false) = emit (write (codes "false"))
  open_or_emit shortest opts (array no_items) = emit (write (codes "[]"))
  open_or_emit shortest opts (array (item v xs)) = emit (write (b'[' ∷ []))
  open_or_emit shortest opts (object no_members) = emit (write (codes "{}"))
  open_or_emit shortest opts (object (member k v ms)) = emit (write (b'{' ∷ []))

  -- if (!frame.first) aOut.put(',')
  abbrev pub put_comma : Bool → Writing S
  put_comma true = skip
  put_comma false = call apply (write (b',' ∷ []))

  abbrev pub put_line : SerializeOptions → ℕ → Writing S
  put_line opts depth =
      if opts.pretty
      then then_write (call apply (write (10 ∷ []))) (write_indent opts depth)
      else skip

  abbrev pub after_key_call : SerializeOptions → Writing S
  after_key_call opts =
      if opts.pretty then call apply (write (codes "\": ")) else call apply (write (codes "\":"))

  abbrev pub write_key : SerializeOptions → Bytes → Writing S
  write_key opts key = then_write (emit (write (b'"' ∷ []))) (
      then_write (write_escaped_to (opts.escape_non_ascii) key)
        (then_write (after_key_call opts) (check is_ok)))

  abbrev pub write_close : SerializeOptions → ℕ → ℕ → Writing S
  write_close opts depth close = then_write (put_line opts depth) (emit (write (close ∷ [])))

  abbrev pub write_children : (Double → Bytes) → SerializeOptions → ℕ → Bool → Children → Writing S
  write_children shortest opts depth first (of_array no_items) = write_close opts depth b']'
  write_children shortest opts depth first (of_array (item v xs)) = then_write (put_comma first) (
      then_write (put_line opts (suc depth))
        (then_write (check is_ok) (open_or_emit shortest opts v)))
  write_children shortest opts depth first (of_object no_members) = write_close opts depth b'}'
  write_children shortest opts depth first (of_object (member k v ms)) =
      then_write (put_comma first) (
        then_write (put_line opts (suc depth))
          (then_write (write_key opts k) (open_or_emit shortest opts v)))

  -- One round of the loop, on the frame at the back of the stack.
  unfoldable pub write_round : (Double → Bytes) → SerializeOptions → SerializeFrame → Writing S
  write_round shortest opts frame =
      write_children shortest opts (frame.depth) (frame.first) (frame.children)

  unfoldable pub write_loop :
      ℕ → (Double → Bytes) → SerializeOptions → List SerializeFrame → S → Option (Bool × S)
  write_loop f shortest opts [] s = some (is_ok s, s)
  write_loop zero shortest opts (frame ∷ stack) s = none
  write_loop (suc f) shortest opts (frame ∷ stack) s =
      let (b, s') = write_round shortest opts frame s in
      elim b [
        | true ↦ write_loop f shortest opts (next_stack frame stack) s'
        | false ↦ some (false, s')
      ]

  abbrev pub write_rest : (Double → Bytes) → SerializeOptions → Value → Bool × S → Option (Bool × S)
  write_rest shortest opts v (true, s) = write_loop (2 * node_count v) shortest opts (opened 0 v) s
  write_rest shortest opts v (false, s) = some (false, s)

  -- Each node is met in two rounds at most, one for its parent and one to close it.
  unfoldable pub write_value_to :
      (Double → Bytes) → SerializeOptions → Value → S → Option (Bool × S)
  write_value_to shortest opts v s = write_rest shortest opts v (open_or_emit shortest opts v s)
