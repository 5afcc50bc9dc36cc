-- ===== src/Serializer/Write/Refine.antt =====
-- Calls on a sink that stops at its first failure, and the writers that make just these calls.
use pjson.Common.{
  ◌≡◌, refl, sym, ap, ◌∙◌, Bool, true, false, List, [], ◌∷◌, ◌++◌, Bool-cases, inl, inr,
}
use pjson.Serializer.{Command, write, repeat, fail, invalid_utf8, invalid_number}
use pjson.Serializer.Write.{
  Writing, continue, then_write, call, check, emit, skip, refuse, emit_all,
}

-- The calls that a source may make on a sink that it has not tested.
abbrev pub IsQuiet : Command → Type 0
IsQuiet invalid_utf8 = ⊥
IsQuiet invalid_number = ⊥
IsQuiet _ = Unit

-- The calls after which the source returns false.
abbrev pub IsRefusal : Command → Type 0
IsRefusal (write s) = ⊥
IsRefusal (repeat c n) = ⊥
IsRefusal _ = Unit

module _ {S : Type 0} (apply : Command → S → S) (is_ok : S → Bool) where
  -- The calls in order, as long as the sink is well.
  unfoldable pub run : List Command → S → S
  run [] s = s
  run (c ∷ cs) s = elim (is_ok s) [ true ↦ run cs (apply c s) | false ↦ s ]

  pub run-stopped : (cs : List Command) (s : S) → is_ok s ≡ false → run cs s ≡ s
  unfolding run
  run-stopped [] s h = refl
  run-stopped (c ∷ cs) s h = rw (h, run) refl

  pub run-well :
      (c : Command) (cs : List Command) (s : S)
      → is_ok s ≡ true
      → run (c ∷ cs) s ≡ run cs (apply c s)
  unfolding run
  run-well c cs s h = rw (h, run) refl

  pub run-append : (cs ds : List Command) (s : S) → run (cs ++ ds) s ≡ run ds (run cs s)
  unfolding run
  run-append [] ds s = refl
  run-append (c ∷ cs) ds s = elim (Bool-cases (is_ok s)) [
    | inl well ↦ rw (well, run) (run-append cs ds (apply c s))
    | inr ill ↦ rw (ill, run) (sym (run-stopped ds s ill))
  ]

  -- m makes the calls cs on a sink that is well, and its bool tells whether it is well after them.
  abbrev pub Performs : Writing S → List Command → Type 0
  Performs m cs = (s : S) → is_ok s ≡ true → m s ≡ (is_ok (run cs s), run cs s)

  -- The same on any sink.
  abbrev pub Settles : Writing S → List Command → Type 0
  Settles m cs = (s : S) → m s ≡ (is_ok (run cs s), run cs s)

  continue-Performs :
      (k : Writing S) (ds : List Command) (b : Bool) (t : S)
      → b ≡ is_ok t
      → Performs k ds
      → continue b t k ≡ (is_ok (run ds t), run ds t)
  continue-Performs k ds true t e h = h t (sym e)
  continue-Performs k ds false t e h =
      let still = run-stopped ds t (sym e) in rw still (ap (λ (b : Bool). (b, t)) e)

  pub Settles-then_write :
      (m k : Writing S) (cs ds : List Command)
      → Settles m cs
      → Performs k ds
      → Settles (then_write m k) (cs ++ ds)
  Settles-then_write m k cs ds h g s =
      ap (λ (p : Bool × S). continue (p.0) (p.1) k) (h s)
      ∙ continue-Performs k ds (is_ok (run cs s)) (run cs s) refl g
      ∙ ap (λ (t : S). (is_ok t, t)) (sym (run-append cs ds s))

  pub Performs-then_write :
      (m k : Writing S) (cs ds : List Command)
      → Performs m cs
      → Performs k ds
      → Performs (then_write m k) (cs ++ ds)
  Performs-then_write m k cs ds h g s w =
      ap (λ (p : Bool × S). continue (p.0) (p.1) k) (h s w)
      ∙ continue-Performs k ds (is_ok (run cs s)) (run cs s) refl g
      ∙ ap (λ (t : S). (is_ok t, t)) (sym (run-append cs ds s))

  pub check-Settles : Settles (check is_ok) []
  unfolding run
  check-Settles s = refl

  pub skip-Performs : Performs skip []
  unfolding run
  skip-Performs s w = ap (λ (b : Bool). (b, s)) (sym w)

  pub emit-Performs : (c : Command) → Performs (emit apply is_ok c) (c ∷ [])
  unfolding run
  emit-Performs c s w = ap (λ (t : S). (is_ok t, t)) (sym (run-well c [] s w))

  pub emit_all-Performs : (cs : List Command) → Performs (emit_all apply is_ok cs) cs
  emit_all-Performs [] = skip-Performs
  emit_all-Performs (c ∷ cs) =
      Performs-then_write (emit apply is_ok c) (emit_all apply is_ok cs) (c ∷ []) cs
        (emit-Performs c) (emit_all-Performs cs)

  -- A sink that has failed stays as it is, and a refusal fails it.
  abbrev pub Keeps : Type 0
  Keeps = (c : Command) (s : S) → IsQuiet c → is_ok s ≡ false → apply c s ≡ s

  abbrev pub Refuses : Type 0
  Refuses = (c : Command) (s : S) → IsRefusal c → is_ok s ≡ true → is_ok (apply c s) ≡ false

  pub refuse-Performs : (c : Command) → Refuses → IsRefusal c → Performs (refuse apply c) (c ∷ [])
  unfolding run
  refuse-Performs c refuses h s w =
      ap (λ (b : Bool). (b, apply c s)) (sym (refuses c s h w))
      ∙ ap (λ (t : S). (is_ok t, t)) (sym (run-well c [] s w))

  -- From a sink that is well to any sink, for a call that keeps a failed one.
  settled :
      (m : Writing S) (cs : List Command)
      → Performs m cs
      → ((s : S) → is_ok s ≡ false → m s ≡ (false, s))
      → Settles m cs
  settled m cs h g s = elim (Bool-cases (is_ok s)) [
    | inl well ↦ h s well
    | inr ill ↦
        g s ill
        ∙ ap (λ (b : Bool). (b, s)) (sym ill)
        ∙ ap (λ (t : S). (is_ok t, t)) (sym (run-stopped cs s ill))
  ]

  pub emit-Settles : (c : Command) → Keeps → IsQuiet c → Settles (emit apply is_ok c) (c ∷ [])
  emit-Settles c keeps q =
      settled (emit apply is_ok c) (c ∷ []) (emit-Performs c)
        (λ s ill. ap (λ (t : S). (is_ok t, t)) (keeps c s q ill) ∙ ap (λ (b : Bool). (b, s)) ill)

  pub refuse_fail-Settles : Keeps → Refuses → Settles (refuse apply fail) (fail ∷ [])
  refuse_fail-Settles keeps refuses =
      settled (refuse apply fail) (fail ∷ []) (refuse-Performs fail refuses tt)
        (λ s ill. ap (λ (t : S). (false, t)) (keeps fail s tt ill))

  pub call-Settles :
      (c : Command) (m : Writing S) (ds : List Command)
      → Keeps
      → IsQuiet c
      → Settles m ds
      → Settles (then_write (call apply c) m) (c ∷ ds)
  call-Settles c m ds keeps q h s = elim (Bool-cases (is_ok s)) [
    | inl well ↦ h (apply c s) ∙ ap (λ (t : S). (is_ok t, t)) (sym (run-well c ds s well))
    | inr ill ↦
        ap m (keeps c s q ill)
        ∙ h s
        ∙ ap (λ (t : S). (is_ok t, t)) (run-stopped ds s ill ∙ sym (run-stopped (c ∷ ds) s ill))
  ]
