-- ===== src/Serializer/Write/Loop.antt =====
-- The rounds of the iterative traversal: how many there are, and what they print together.
use pjson.Common.{
  ℕ, zero, suc, ◌+◌, ◌*◌, ◌≤◌, ◌<◌, ◌≡◌, refl, sym, ap, ◌∙◌, subst, Bool, true, false, Option, some,
  List, [], ◌∷◌, ◌++◌, append_assoc, append-nil, arith,
}
use pjson.Common.Bytes.{Bytes}
use pjson.Value.{
  Value, Items, Members, null, string, int, uint, double, boolean, array, object, no_items, item,
  no_members, member, Double,
}
use pjson.Value.Nodes.{node_count, items_nodes, members_nodes}
use pjson.Serializer.{SerializeOptions, Command}
use pjson.Serializer.Print.{print_value}
use pjson.Serializer.Write.{
  Children, of_array, of_object, SerializeFrame, opened, advanced, next_stack, write_round,
  write_loop, write_rest, write_value_to,
}
use pjson.Serializer.Write.Refine.{run, run-stopped, run-append, Keeps, Refuses}
use pjson.Serializer.Write.{next_frames}
use pjson.Serializer.Write.Values.{
  opening, round_commands, children_print, stack_print, children-Performs, open-Performs,
}

mutual
  -- The rounds of the loop that a value's frame takes.
  value_rounds : Value → ℕ
  value_rounds (array (item v xs)) = items_rounds (item v xs)
  value_rounds (object (member k v ms)) = members_rounds (member k v ms)
  value_rounds _ = 0

  items_rounds : Items → ℕ
  items_rounds no_items = 1
  items_rounds (item v xs) = suc (value_rounds v + items_rounds xs)

  members_rounds : Members → ℕ
  members_rounds no_members = 1
  members_rounds (member k v ms) = suc (value_rounds v + members_rounds ms)

abbrev children_rounds : Children → ℕ
children_rounds (of_array xs) = items_rounds xs
children_rounds (of_object ms) = members_rounds ms

abbrev stack_rounds : List SerializeFrame → ℕ
stack_rounds [] = 0
stack_rounds (frame ∷ stack) = children_rounds (frame.children) + stack_rounds stack

children_rounds_pos : (c : Children) → 0 < children_rounds c
unfolding value_rounds
children_rounds_pos (of_array no_items) = omega arith
children_rounds_pos (of_array (item v xs)) = omega arith
children_rounds_pos (of_object no_members) = omega arith
children_rounds_pos (of_object (member k v ms)) = omega arith

opened-rounds :
    (depth : ℕ) (v : Value) (stack : List SerializeFrame)
    → stack_rounds (opened depth v ++ stack) ≡ value_rounds v + stack_rounds stack
unfolding value_rounds
opened-rounds depth (array no_items) stack = omega arith
opened-rounds depth (array (item v xs)) stack = omega arith
opened-rounds depth (object no_members) stack = omega arith
opened-rounds depth (object (member k v ms)) stack = omega arith
opened-rounds depth null stack = omega arith
opened-rounds depth (string s) stack = omega arith
opened-rounds depth (int z) stack = omega arith
opened-rounds depth (uint n) stack = omega arith
opened-rounds depth (double d) stack = omega arith
opened-rounds depth (boolean b) stack = omega arith

next_frames-rounds :
    (frame : SerializeFrame) (c : Children) (stack : List SerializeFrame)
    → suc (stack_rounds (next_frames frame c stack)) ≡ children_rounds c + stack_rounds stack
unfolding value_rounds
next_frames-rounds frame (of_array no_items) stack = omega arith
next_frames-rounds frame (of_array (item v xs)) stack =
    omega (arith, opened-rounds (suc (frame.depth)) v (advanced frame (of_array xs) ∷ stack))
next_frames-rounds frame (of_object no_members) stack = omega arith
next_frames-rounds frame (of_object (member k v ms)) stack =
    omega (arith, opened-rounds (suc (frame.depth)) v (advanced frame (of_object ms) ∷ stack))

next_stack-rounds :
    (frame : SerializeFrame) (stack : List SerializeFrame)
    → suc (stack_rounds (next_stack frame stack)) ≡ stack_rounds (frame ∷ stack)
next_stack-rounds frame stack = next_frames-rounds frame (frame.children) stack

mutual
  unfolding value_rounds node_count

  value_rounds-le : (v : Value) → suc (value_rounds v) ≤ 2 * node_count v
  value_rounds-le (array no_items) = omega arith
  value_rounds-le (array (item v xs)) = omega (arith, items_rounds-le (item v xs))
  value_rounds-le (object no_members) = omega arith
  value_rounds-le (object (member k v ms)) = omega (arith, members_rounds-le (member k v ms))
  value_rounds-le null = omega arith
  value_rounds-le (string s) = omega arith
  value_rounds-le (int z) = omega arith
  value_rounds-le (uint n) = omega arith
  value_rounds-le (double d) = omega arith
  value_rounds-le (boolean b) = omega arith

  items_rounds-le : (xs : Items) → items_rounds xs ≤ suc (2 * items_nodes xs)
  items_rounds-le no_items = omega arith
  items_rounds-le (item v xs) = omega (arith, value_rounds-le v, items_rounds-le xs)

  members_rounds-le : (ms : Members) → members_rounds ms ≤ suc (2 * members_nodes ms)
  members_rounds-le no_members = omega arith
  members_rounds-le (member k v ms) = omega (arith, value_rounds-le v, members_rounds-le ms)

-- A value's commands: its opening, and those of the frame that it pushes.
opened-print :
    (shortest : Double → Bytes) (opts : SerializeOptions) (depth : ℕ) (v : Value)
    (stack : List SerializeFrame)
    → opening shortest opts depth v ++ stack_print shortest opts (opened depth v ++ stack)
      ≡ print_value shortest opts depth v ++ stack_print shortest opts stack
unfolding print_value
opened-print shortest opts depth (array no_items) stack = refl
opened-print shortest opts depth (array (item v xs)) stack = refl
opened-print shortest opts depth (object no_members) stack = refl
opened-print shortest opts depth (object (member k v ms)) stack = refl
opened-print shortest opts depth null stack = refl
opened-print shortest opts depth (string s) stack = refl
opened-print shortest opts depth (int z) stack = refl
opened-print shortest opts depth (uint n) stack = refl
opened-print shortest opts depth (double d) stack = refl
opened-print shortest opts depth (boolean b) stack = refl

next_frames-print :
    (shortest : Double → Bytes) (opts : SerializeOptions) (frame : SerializeFrame) (c : Children)
    (stack : List SerializeFrame)
    → round_commands shortest opts (frame.depth) (frame.first) c
        ++ stack_print shortest opts (next_frames frame c stack)
      ≡ children_print shortest opts (frame.depth) (frame.first) c
        ++ stack_print shortest opts stack
unfolding print_value
next_frames-print shortest opts frame (of_array no_items) stack = refl
next_frames-print shortest opts frame (of_array (item v xs)) stack = simp (
  append_assoc,
  opened-print shortest opts (suc (frame.depth)) v (advanced frame (of_array xs) ∷ stack),
)
next_frames-print shortest opts frame (of_object no_members) stack = refl
next_frames-print shortest opts frame (of_object (member k v ms)) stack = simp (
  append_assoc,
  opened-print shortest opts (suc (frame.depth)) v (advanced frame (of_object ms) ∷ stack),
)

next_stack-print :
    (shortest : Double → Bytes) (opts : SerializeOptions) (frame : SerializeFrame)
    (stack : List SerializeFrame)
    → round_commands shortest opts (frame.depth) (frame.first) (frame.children)
        ++ stack_print shortest opts (next_stack frame stack)
      ≡ stack_print shortest opts (frame ∷ stack)
next_stack-print shortest opts frame stack =
    next_frames-print shortest opts frame (frame.children) stack

module _ {S : Type 0} (apply : Command → S → S) (is_ok : S → Bool) where
  module _ (keeps : Keeps apply is_ok) (refuses : Refuses apply is_ok) where
    loop_next :
        ℕ → (Double → Bytes) → SerializeOptions → List SerializeFrame → Bool → S → Option (Bool × S)
    loop_next f shortest opts stack true t = write_loop apply is_ok f shortest opts stack t
    loop_next f shortest opts stack false t = some (false, t)

    abbrev ran : List Command → S → Option (Bool × S)
    ran cs s = some (is_ok (run apply is_ok cs s), run apply is_ok cs s)

    loop_next-ran :
        (f : ℕ) (shortest : Double → Bytes) (opts : SerializeOptions) (stack : List SerializeFrame)
        (b : Bool) (t : S)
        → b ≡ is_ok t
        → (is_ok t ≡ true
            → write_loop apply is_ok f shortest opts stack t
              ≡ ran (stack_print shortest opts stack) t)
        → loop_next f shortest opts stack b t ≡ ran (stack_print shortest opts stack) t
    unfolding loop_next
    loop_next-ran f shortest opts stack true t e h = h (sym e)
    loop_next-ran f shortest opts stack false t e h =
        ap (λ (b : Bool). some (b, t)) e
        ∙ ap (λ (u : S). some (is_ok u, u))
            (sym (run-stopped apply is_ok (stack_print shortest opts stack) t (sym e)))

    write_loop-step :
        (f : ℕ) (shortest : Double → Bytes) (opts : SerializeOptions) (frame : SerializeFrame)
        (stack : List SerializeFrame) (s : S)
        → write_loop apply is_ok (suc f) shortest opts (frame ∷ stack) s
          ≡ loop_next f shortest opts
              (next_stack frame stack)
              ((write_round apply is_ok shortest opts frame s).0)
              ((write_round apply is_ok shortest opts frame s).1)
    unfolding write_loop loop_next
    write_loop-step f shortest opts frame stack s =
        same ((write_round apply is_ok shortest opts frame s).0)
          ((write_round apply is_ok shortest opts frame s).1)
      where
        same :
            (b : Bool) (t : S)
            → (elim b [
              | true ↦ write_loop apply is_ok f shortest opts (next_stack frame stack) t
              | false ↦ some (false, t)
            ])
              ≡ loop_next f shortest opts (next_stack frame stack) b t
        same true t = refl
        same false t = refl

    write_loop-ran :
        (f : ℕ) (shortest : Double → Bytes) (opts : SerializeOptions) (stack : List SerializeFrame)
        (s : S)
        → stack_rounds stack ≤ f
        → is_ok s ≡ true
        → write_loop apply is_ok f shortest opts stack s ≡ ran (stack_print shortest opts stack) s
    unfolding write_loop write_round run
    write_loop-ran f shortest opts [] s h w = refl
    write_loop-ran zero shortest opts (frame ∷ stack) s h w =
        absurd (omega (arith, h, children_rounds_pos (frame.children)))
    write_loop-ran (suc f) shortest opts (frame ∷ stack) s h w =
        let cs = round_commands shortest opts (frame.depth) (frame.first) (frame.children) in
        let made =
          children-Performs apply is_ok keeps refuses shortest opts (frame.depth) (frame.first)
            (frame.children) s w in
        write_loop-step f shortest opts frame stack s
        ∙ ap (λ (p : Bool × S). loop_next f shortest opts (next_stack frame stack) (p.0) (p.1)) made
        ∙ loop_next-ran f shortest opts (next_stack frame stack) (is_ok (run apply is_ok cs s))
            (run apply is_ok cs s) refl
            (write_loop-ran f shortest opts (next_stack frame stack) (run apply is_ok cs s)
              (omega (arith, h, next_stack-rounds frame stack)))
        ∙ ap (λ (t : S). some (is_ok t, t))
            (sym (run-append apply is_ok cs (stack_print shortest opts (next_stack frame stack)) s)
              ∙ ap (λ (ds : List Command). run apply is_ok ds s)
                  (next_stack-print shortest opts frame stack))

    write_rest-ran :
        (shortest : Double → Bytes) (opts : SerializeOptions) (v : Value) (b : Bool) (t : S)
        → b ≡ is_ok t
        → write_rest apply is_ok shortest opts v (b, t)
          ≡ ran (stack_print shortest opts (opened 0 v)) t
    write_rest-ran shortest opts v true t e =
        write_loop-ran (2 * node_count v) shortest opts (opened 0 v) t
          (subst (λ st. stack_rounds st ≤ 2 * node_count v) (append-nil (opened 0 v))
            (omega (arith, opened-rounds 0 v [], value_rounds-le v)))
          (sym e)
    write_rest-ran shortest opts v false t e =
        ap (λ (b : Bool). some (b, t)) e
        ∙ ap (λ (u : S). some (is_ok u, u))
            (sym (run-stopped apply is_ok (stack_print shortest opts (opened 0 v)) t (sym e)))

    -- On a sink that is well, the traversal with its stack of frames ends, having made the calls of
    -- the recursive printer up to the first that fails the sink, and returns whether none did.
    pub write_value_to-print_value :
        (shortest : Double → Bytes) (opts : SerializeOptions) (v : Value) (s : S)
        → is_ok s ≡ true
        → write_value_to apply is_ok shortest opts v s
          ≡ some (
            is_ok (run apply is_ok (print_value shortest opts 0 v) s),
            run apply is_ok (print_value shortest opts 0 v) s,
          )
    unfolding write_value_to
    write_value_to-print_value shortest opts v s w =
        let cs = opening shortest opts 0 v in
        let rest = stack_print shortest opts (opened 0 v) in
        let whole : cs ++ rest ≡ print_value shortest opts 0 v =
          ap (λ st. cs ++ stack_print shortest opts st) (sym (append-nil (opened 0 v)))
          ∙ opened-print shortest opts 0 v []
          ∙ append-nil (print_value shortest opts 0 v) in
        ap (write_rest apply is_ok shortest opts v)
          (open-Performs apply is_ok keeps refuses shortest opts 0 v s w)
        ∙ write_rest-ran shortest opts v (is_ok (run apply is_ok cs s)) (run apply is_ok cs s) refl
        ∙ ap (λ (t : S). some (is_ok t, t))
            (sym (run-append apply is_ok cs rest s)
              ∙ ap (λ (ds : List Command). run apply is_ok ds s) whole)
