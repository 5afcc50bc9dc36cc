-- ===== src/Serializer/Write/Values.antt =====
-- Each round of the iterative traversal makes calls of the recursive printer.
use pjson.Common.{
  ℕ, zero, suc, ◌*◌, ◌/◌, ◌<◌, ◌≡◌, refl, Bool, true, false, ◌&&◌, not, Option, none, some, List,
  [], ◌∷◌, ◌++◌, ltb, ◌==◌, if◌then◌else◌, length, drop, drop-length_lt, Bool-cases, inl, inr,
  arith,
}
use pjson.Common.Bytes.{Bytes, codes}
use pjson.Value.{
  Value, null, string, int, uint, double, boolean, array, object, no_items, item, no_members,
  member, Double,
}
use pjson.Pointer.Index.{size_max}
use pjson.Text.Escape.{escape_piece}
use pjson.Text.Escape.Accepts.{escape_piece-Measures}
use pjson.Serializer.{
  SerializeOptions, Command, write, repeat, invalid_utf8, invalid_number, NonFinitePolicy,
  reject_non_finite, non_finite_to_null, non_finite_to_string,
}
use pjson.Serializer.Print.{
  unit_writes, escape_commands, string_commands, is_finite, non_finite_command, double_command,
  indent_char, indent_command, new_line, separator, key_commands, print_value, print_items,
  print_members,
}
use pjson.Serializer.Write.{
  Children, of_array, of_object, SerializeFrame, Writing, then_write, call, check, refuse, emit_all,
  write_indent, escape_rounds, write_escaped_to, emit_number, open_or_emit, put_comma, put_line,
  write_key, write_close, write_children,
}
use pjson.Serializer.Write.Refine.{
  Performs, Settles, Settles-then_write, Performs-then_write, check-Settles, emit-Performs,
  emit_all-Performs, Keeps, Refuses, refuse-Performs, emit-Settles, refuse_fail-Settles,
  call-Settles,
}

-- What open_or_emit prints of a value: all of it, or its opening delimiter.
abbrev pub opening : (Double → Bytes) → SerializeOptions → ℕ → Value → List Command
opening shortest opts depth (array (item v xs)) = write (b'[' ∷ []) ∷ []
opening shortest opts depth (object (member k v ms)) = write (b'{' ∷ []) ∷ []
opening shortest opts depth v = print_value shortest opts depth v

abbrev pub round_commands : (Double → Bytes) → SerializeOptions → ℕ → Bool → Children → List Command
round_commands shortest opts depth first (of_array no_items) =
    new_line opts depth ++ write (b']' ∷ []) ∷ []
round_commands shortest opts depth first (of_array (item v xs)) =
    separator first ++ (new_line opts (suc depth) ++ opening shortest opts (suc depth) v)
round_commands shortest opts depth first (of_object no_members) =
    new_line opts depth ++ write (b'}' ∷ []) ∷ []
round_commands shortest opts depth first (of_object (member k v ms)) =
    separator first
    ++ (new_line opts (suc depth) ++ (key_commands opts k ++ opening shortest opts (suc depth) v))

-- What is left to print of the frames.
abbrev pub children_print : (Double → Bytes) → SerializeOptions → ℕ → Bool → Children → List Command
children_print shortest opts depth first (of_array xs) = print_items shortest opts depth first xs
children_print shortest opts depth first (of_object ms) = print_members shortest opts depth first ms

abbrev pub stack_print : (Double → Bytes) → SerializeOptions → List SerializeFrame → List Command
stack_print shortest opts [] = []
stack_print shortest opts (frame ∷ stack) =
    children_print shortest opts (frame.depth) (frame.first) (frame.children)
    ++ stack_print shortest opts stack

module _ {S : Type 0} (apply : Command → S → S) (is_ok : S → Bool) where
  abbrev pub Makes : Writing S → List Command → Type 0
  Makes m cs = Performs apply is_ok m cs

  abbrev pub MakesAnyway : Writing S → List Command → Type 0
  MakesAnyway m cs = Settles apply is_ok m cs

  module _ (keeps : Keeps apply is_ok) (refuses : Refuses apply is_ok) where
    write_indent-Settles :
        (opts : SerializeOptions) (depth : ℕ)
        → MakesAnyway (write_indent apply is_ok opts depth) (indent_command opts depth ∷ [])
    write_indent-Settles opts depth =
        elim (Bool-cases
          (not (opts.indent_width == 0) && ltb (size_max / opts.indent_width) depth)) [
            | inl over ↦ rw over (refuse_fail-Settles apply is_ok keeps refuses)
            | inr fits ↦ rw fits (
                emit-Settles apply is_ok (repeat (indent_char opts) (depth * opts.indent_width))
                  keeps tt)
          ]

    put_line-Settles :
        (opts : SerializeOptions) (depth : ℕ) (m : Writing S) (ds : List Command)
        → MakesAnyway m ds
        → MakesAnyway (then_write (put_line apply is_ok opts depth) m) (new_line opts depth ++ ds)
    put_line-Settles opts depth m ds h = elim (Bool-cases (opts.pretty)) [
      | inl pretty ↦ rw pretty (
          Settles-then_write apply is_ok _ m (write (10 ∷ []) ∷ indent_command opts depth ∷ []) ds
            (call-Settles apply is_ok (write (10 ∷ [])) _ (indent_command opts depth ∷ []) keeps tt
              (write_indent-Settles opts depth))
            (λ s w. h s))
      | inr compact ↦ rw compact h
    ]

    put_comma-Settles :
        (first : Bool) (m : Writing S) (ds : List Command)
        → MakesAnyway m ds
        → MakesAnyway (then_write (put_comma apply is_ok first) m) (separator first ++ ds)
    put_comma-Settles true m ds h = h
    put_comma-Settles false m ds h = call-Settles apply is_ok (write (b',' ∷ [])) m ds keeps tt h

    escape_step :
        (f : ℕ) (escape_non_ascii : Bool) (s : Bytes) (o : Option (Bytes × ℕ))
        → ((p : Bytes × ℕ)
            → o ≡ some p
            → Makes
                (escape_rounds apply is_ok f escape_non_ascii (drop (p.1) s))
                (escape_commands f escape_non_ascii (drop (p.1) s)))
        → Makes
            (λ t. elim o [
              | none ↦ refuse apply invalid_utf8 t
              | some p ↦
                  then_write
                    (emit_all apply is_ok (unit_writes (p.0)))
                    (escape_rounds apply is_ok f escape_non_ascii (drop (p.1) s))
                    t
            ])
            (elim o [
              | none ↦ invalid_utf8 ∷ []
              | some p ↦ unit_writes (p.0) ++ escape_commands f escape_non_ascii (drop (p.1) s)
            ])
    escape_step f escape_non_ascii s none h = refuse-Performs apply is_ok invalid_utf8 refuses tt
    escape_step f escape_non_ascii s (some p) h =
        Performs-then_write apply is_ok (emit_all apply is_ok (unit_writes (p.0))) _
          (unit_writes (p.0)) (escape_commands f escape_non_ascii (drop (p.1) s))
          (emit_all-Performs apply is_ok (unit_writes (p.0))) (h p refl)

    escape_rounds-Performs :
        (f : ℕ) (escape_non_ascii : Bool) (s : Bytes)
        → length s < f
        → Makes
            (escape_rounds apply is_ok f escape_non_ascii s)
            (escape_commands f escape_non_ascii s)
    unfolding escape_rounds escape_commands
    escape_rounds-Performs zero escape_non_ascii s h = elim h [ ]
    escape_rounds-Performs (suc f) escape_non_ascii [] h = λ s w. check-Settles apply is_ok s
    escape_rounds-Performs (suc f) escape_non_ascii (ch ∷ s) h =
        escape_step f escape_non_ascii (ch ∷ s) (escape_piece escape_non_ascii ch s) (λ p e.
          escape_rounds-Performs f escape_non_ascii (drop (p.1) (ch ∷ s)) (
            omega (
              arith,
              h,
              drop-length_lt (p.1) ch s ((escape_piece-Measures escape_non_ascii ch s p e).1),
            )))

    string-Performs :
        (escape_non_ascii : Bool) (s : Bytes)
        → Makes
            (write_escaped_to apply is_ok escape_non_ascii s)
            (string_commands escape_non_ascii s)
    string-Performs escape_non_ascii s =
        escape_rounds-Performs (suc (length s)) escape_non_ascii s (omega arith)

    number-Performs :
        (shortest : Double → Bytes) (policy : NonFinitePolicy) (d : Double)
        → Makes
            (emit_number apply is_ok (double_command shortest policy d))
            (double_command shortest policy d ∷ [])
    number-Performs shortest policy d = elim (Bool-cases (is_finite d)) [
      | inl well ↦ rw well (emit-Performs apply is_ok _)
      | inr ill ↦ rw ill (other policy)
    ]
      where
        other :
            (policy : NonFinitePolicy)
            → Makes
                (emit_number apply is_ok (non_finite_command policy d))
                (non_finite_command policy d ∷ [])
        other reject_non_finite = refuse-Performs apply is_ok invalid_number refuses tt
        other non_finite_to_null = emit-Performs apply is_ok _
        other non_finite_to_string = emit-Performs apply is_ok _

    pub open-Performs :
        (shortest : Double → Bytes) (opts : SerializeOptions) (depth : ℕ) (v : Value)
        → Makes (open_or_emit apply is_ok shortest opts v) (opening shortest opts depth v)
    unfolding open_or_emit print_value
    open-Performs shortest opts depth null = emit-Performs apply is_ok _
    open-Performs shortest opts depth (string s) =
        Performs-then_write apply is_ok _ _ (write (b'"' ∷ []) ∷ []) _
          (emit-Performs apply is_ok (write (b'"' ∷ [])))
          (Performs-then_write apply is_ok _ _ (string_commands (opts.escape_non_ascii) s) _
            (string-Performs (opts.escape_non_ascii) s)
            (emit-Performs apply is_ok (write (b'"' ∷ []))))
    open-Performs shortest opts depth (int z) = emit-Performs apply is_ok _
    open-Performs shortest opts depth (uint n) = emit-Performs apply is_ok _
    open-Performs shortest opts depth (double d) = number-Performs shortest (opts.non_finite) d
    open-Performs shortest opts depth (boolean true) = emit-Performs apply is_ok _
    open-Performs shortest opts depth (boolean false) = emit-Performs apply is_ok _
    open-Performs shortest opts depth (array no_items) = emit-Performs apply is_ok _
    open-Performs shortest opts depth (array (item v xs)) = emit-Performs apply is_ok _
    open-Performs shortest opts depth (object no_members) = emit-Performs apply is_ok _
    open-Performs shortest opts depth (object (member k v ms)) = emit-Performs apply is_ok _

    key-Performs :
        (opts : SerializeOptions) (key : Bytes)
        → MakesAnyway (write_key apply is_ok opts key) (key_commands opts key)
    key-Performs opts key =
        Settles-then_write apply is_ok _ _ (write (b'"' ∷ []) ∷ []) _
          (emit-Settles apply is_ok (write (b'"' ∷ [])) keeps tt)
          (Performs-then_write apply is_ok _ _ (string_commands (opts.escape_non_ascii) key) _
            (string-Performs (opts.escape_non_ascii) key) (colon (opts.pretty)))
      where
        colon :
            (pretty : Bool)
            → Makes
                (then_write
                  (if pretty
                    then call apply (write (codes "\": "))
                    else call apply (write (codes "\":")))
                  (check is_ok))
                (write (if pretty then codes "\": " else codes "\":") ∷ [])
        colon true = emit-Performs apply is_ok _
        colon false = emit-Performs apply is_ok _

    close-Performs :
        (opts : SerializeOptions) (depth close : ℕ)
        → Makes
            (write_close apply is_ok opts depth close)
            (new_line opts depth ++ write (close ∷ []) ∷ [])
    close-Performs opts depth close = λ s w.
        put_line-Settles opts depth _ _ (emit-Settles apply is_ok (write (close ∷ [])) keeps tt) s

    pub children-Performs :
        (shortest : Double → Bytes) (opts : SerializeOptions) (depth : ℕ) (first : Bool)
        (c : Children)
        → Makes
            (write_children apply is_ok shortest opts depth first c)
            (round_commands shortest opts depth first c)
    children-Performs shortest opts depth first (of_array no_items) = close-Performs opts depth b']'
    children-Performs shortest opts depth first (of_array (item v xs)) = λ s w.
        put_comma-Settles first _ _
          (put_line-Settles opts (suc depth) _ _ (
            Settles-then_write apply is_ok (check is_ok) _ [] (opening shortest opts (suc depth) v)
              (check-Settles apply is_ok) (open-Performs shortest opts (suc depth) v)))
          s
    children-Performs shortest opts depth first (of_object no_members) =
        close-Performs opts depth b'}'
    children-Performs shortest opts depth first (of_object (member k v ms)) = λ s w.
        put_comma-Settles first _ _
          (put_line-Settles opts (suc depth) _ _ (
            Settles-then_write apply is_ok _ _ (key_commands opts k)
              (opening shortest opts (suc depth) v) (key-Performs opts k)
              (open-Performs shortest opts (suc depth) v)))
          s
