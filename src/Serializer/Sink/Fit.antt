-- ===== src/Serializer/Sink/Fit.antt =====
-- What the two sinks hold after a list of calls: the text, as far as it fits the limit.
use pjson.Common.{
  ℕ, zero, suc, ◌+◌, ◌≤◌, ◌<◌, ◌≡◌, ◌⊎◌, refl, sym, ap, ◌∙◌, subst, Bool, true, false, not, Option,
  none, some, [], ◌∷◌, ◌++◌, ◌==◌, if◌then◌else◌, length, min, List, Bool-cases, inl, inr, arith,
  length-append,
}
use pjson.Common.Bytes.{Bytes}
use pjson.Pointer.Index.{size_max}
use pjson.Serializer.{Command, write, repeat, fail, invalid_utf8, invalid_number}
use pjson.Serializer.Sink.{CountingSink, overflows, account, counting_apply, counting_ok, replicate}
use pjson.Serializer.Write.Refine.{run, run-well, run-stopped}

-- The text that calls write; none if one of them is a refusal.
abbrev pub prefixed : Bytes → Option Bytes → Option Bytes
prefixed text none = none
prefixed text (some later) = some (text ++ later)

unfoldable pub printed : List Command → Option Bytes
printed [] = some []
printed (write text ∷ cs) = prefixed text (printed cs)
printed (repeat ch n ∷ cs) = prefixed (replicate n ch) (printed cs)
printed (fail ∷ cs) = none
printed (invalid_utf8 ∷ cs) = none
printed (invalid_number ∷ cs) = none

-- The bytes that a sink takes in all; a limit of 0 is none.
unfoldable pub capacity : ℕ → ℕ
capacity limit = if limit == 0 then size_max else min limit size_max

abbrev pub Counted : CountingSink → Option Bytes → CountingSink → Type 0
Counted c none t = t.valid ≡ false
Counted c (some text) t =
    ((t.valid ≡ true)
      × (c.written + length text ≤ capacity (c.limit))
      × (t.written ≡ c.written + length text))
    ⊎ ((t.valid ≡ false) × (capacity (c.limit) < c.written + length text))

overflows-capacity :
    (c : CountingSink) (n : ℕ)
    → c.written ≤ capacity (c.limit)
    → overflows c n ≡ true
    → capacity (c.limit) < c.written + n
unfolding capacity
overflows-capacity c n h e = ground arith

fits-capacity :
    (c : CountingSink) (n : ℕ)
    → c.written ≤ capacity (c.limit)
    → overflows c n ≡ false
    → c.written + n ≤ capacity (c.limit)
unfolding capacity
fits-capacity c n h e = ground arith

prefixed-Counted :
    (c t : CountingSink) (text : Bytes) (later : Option Bytes)
    → Counted (record c { written = c.written + length text }) later t
    → Counted c (prefixed text later) t
prefixed-Counted c t text none h = h
prefixed-Counted c t text (some more) (inl (v, h, w)) =
    inl (v, omega (arith, h, length-append text more), omega (arith, w, length-append text more))
prefixed-Counted c t text (some more) (inr (v, h)) =
    inr (v, omega (arith, h, length-append text more))

over-Counted :
    (c t : CountingSink) (text : Bytes) (later : Option Bytes)
    → t.valid ≡ false
    → capacity (c.limit) < c.written + length text
    → Counted c (prefixed text later) t
over-Counted c t text none v h = v
over-Counted c t text (some more) v h = inr (v, omega (arith, h, length-append text more))

account_lem :
    (c : CountingSink) (n : ℕ) (b : Bool)
    → c.valid ≡ true
    → overflows c n ≡ b
    → account c n ≡ (if b then record c { valid = false } else record c { written = c.written + n })
unfolding account
account_lem c n b v e =
    ap
      (λ (w : Bool).
        if not w
        then c
        else if overflows c n
        then record c { valid = false }
        else record c { written = c.written + n })
      v
    ∙ ap
        (λ (w : Bool).
          if w then record c { valid = false } else record c { written = c.written + n })
        e

account_step :
    (c : CountingSink) (text : Bytes) (cs : List Command) (later : Option Bytes)
    → c.valid ≡ true
    → c.written ≤ capacity (c.limit)
    → ((d : CountingSink)
        → d.valid ≡ true
        → d.written ≤ capacity (d.limit)
        → Counted d later (run counting_apply counting_ok cs d))
    → Counted c (prefixed text later) (run counting_apply counting_ok cs (account c (length text)))
account_step c text cs later v h next = elim (Bool-cases (overflows c (length text))) [
  | inl over ↦
      subst (λ d. Counted c (prefixed text later) (run counting_apply counting_ok cs d))
        (sym (account_lem c (length text) true v over))
        (over-Counted c _ text later
          (ap counting_ok
            (run-stopped counting_apply counting_ok cs (record c { valid = false }) refl))
          (overflows-capacity c (length text) h over))
  | inr fits ↦
      subst (λ d. Counted c (prefixed text later) (run counting_apply counting_ok cs d))
        (sym (account_lem c (length text) false v fits))
        (prefixed-Counted c _ text later (
          next (record c { written = c.written + length text }) v
            (fits-capacity c (length text) h fits)))
]

length-replicate : (n ch : ℕ) → length (replicate n ch) ≡ n
length-replicate zero ch = refl
length-replicate (suc n) ch = ap suc (length-replicate n ch)

-- CountingSink stays valid exactly if no call is a refusal and the text fits.
pub run-Counted :
    (cs : List Command) (c : CountingSink)
    → c.valid ≡ true
    → c.written ≤ capacity (c.limit)
    → Counted c (printed cs) (run counting_apply counting_ok cs c)
unfolding printed run counting_apply
run-Counted [] c v h = inl (v, omega (arith, h), omega arith)
run-Counted (write text ∷ cs) c v h =
    subst (Counted c (prefixed text (printed cs)))
      (sym (run-well counting_apply counting_ok (write text) cs c v))
      (account_step c text cs (printed cs) v h (run-Counted cs))
run-Counted (repeat ch n ∷ cs) c v h =
    subst (Counted c (prefixed (replicate n ch) (printed cs)))
      (ap (λ m. run counting_apply counting_ok cs (account c m)) (length-replicate n ch)
        ∙ sym (run-well counting_apply counting_ok (repeat ch n) cs c v))
      (account_step c (replicate n ch) cs (printed cs) v h (run-Counted cs))
run-Counted (fail ∷ cs) c v h = ap counting_ok (
    run-well counting_apply counting_ok fail cs c v
    ∙ run-stopped counting_apply counting_ok cs (counting_apply fail c) refl)
run-Counted (invalid_utf8 ∷ cs) c v h = ap counting_ok (
    run-well counting_apply counting_ok invalid_utf8 cs c v
    ∙ run-stopped counting_apply counting_ok cs (counting_apply invalid_utf8 c) refl)
run-Counted (invalid_number ∷ cs) c v h = ap counting_ok (
    run-well counting_apply counting_ok invalid_number cs c v
    ∙ run-stopped counting_apply counting_ok cs (counting_apply invalid_number c) refl)

-- Whether calls print a text that fits the limit and a string.
abbrev pub Prints : ℕ → ℕ → List Command → Bytes → Type 0
Prints max_size limit cs text =
    (printed cs ≡ some text) × (length text ≤ capacity limit) × (length text ≤ max_size)
