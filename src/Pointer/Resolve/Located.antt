-- ===== src/Pointer/Resolve/Located.antt =====
-- What resolvePointerTokens finds, against RFC 6901's reading of a list of tokens as a relation.
use pjson.Common.{
  ℕ, ◌+◌, ◌≤◌, ◌≡◌, ◌≢◌, ◌↔◌, refl, sym, ap, ◌∙◌, subst, true, false, some, List, [], ◌∷◌, arith,
  Bool-cases, inl, inr,
}
use pjson.Common.Bytes.{Bytes, bytes_eq, eq_of_bytes_eq}
use pjson.Value.{Value, Items, Members, array, object}
use pjson.Value.ArrayStorage.{item_at, item_at-none}
use pjson.Value.ObjectStorage.{find_member}
use pjson.Value.Access.{find_index, size}
use pjson.Text.Decimal.{to_decimal}
use pjson.Pointer.{found, ◌>>=◌, >>=-found}
use pjson.Pointer.Index.{
  PointerIndexResult, index_ok, index_invalid, index_overflow, parse_pointer_index,
  parse_pointer_index-to_decimal, size_max,
}
use pjson.Pointer.Tokens.{decode_pointer, build_pointer}
use pjson.Pointer.Tokens.RoundTrip.{decode_pointer-build}
use pjson.Pointer.Resolve.{dash, element_step, pointer_step, resolve_pointer_tokens, find_pointer}

-- The child of a node under one token: a member under its key, or an element under the decimal text
-- of its position.
pub data Child : Value → Bytes → Value → Type 0 where
  member_child :
      {ms : Members} {key : Bytes} {v : Value}
      → find_member key ms ≡ some v
      → Child (object ms) key v
  element_child :
      {xs : Items} {token : Bytes} {v : Value} (i : ℕ)
      → i ≤ size_max
      → token ≡ to_decimal i
      → item_at xs i ≡ some v
      → Child (array xs) token v

pub data Located : Value → List Bytes → Value → Type 0 where
  here : {v : Value} → Located v [] v
  below :
      {v c w : Value} {token : Bytes} {tokens : List Bytes}
      → Child v token c
      → Located c tokens w
      → Located v (token ∷ tokens) w

dash-no_index : (n : ℕ) → parse_pointer_index dash ≢ index_ok n
unfolding parse_pointer_index
dash-no_index n e = cc

decimal-ne-dash : (i : ℕ) → i ≤ size_max → bytes_eq (to_decimal i) dash ≡ false
decimal-ne-dash i h = elim (Bool-cases (bytes_eq (to_decimal i) dash)) [
  | inl e ↦
      let read = (parse_pointer_index-to_decimal (to_decimal i) i).1 (refl, h) in
      absurd (
        dash-no_index i
          (subst (λ t. parse_pointer_index t ≡ index_ok i) (eq_of_bytes_eq _ _ e) read))
  | inr e ↦ e
]

element_sound :
    (r : PointerIndexResult) (xs : Items) (pointer : Bytes) (n : ℕ) (token : Bytes) (c : Value)
    → element_step r (array xs) pointer n token ≡ found c
    → (i : ℕ) × (r ≡ index_ok i) × (item_at xs i ≡ some c)
unfolding find_index size
element_sound (index_ok i) xs pointer n token c h = (i, refl, ground (arith))
element_sound index_invalid xs pointer n token c h = cc
element_sound index_overflow xs pointer n token c h = cc

array_step :
    (xs : Items) (pointer : Bytes) (n : ℕ) (token : Bytes)
    → bytes_eq token dash ≡ false
    → pointer_step (array xs) pointer n token
      ≡ element_step (parse_pointer_index token) (array xs) pointer n token
unfolding pointer_step
array_step xs pointer n token e = rw e refl

dash_step :
    (xs : Items) (pointer : Bytes) (n : ℕ) (token : Bytes) (c : Value)
    → bytes_eq token dash ≡ true
    → pointer_step (array xs) pointer n token ≢ found c
unfolding pointer_step
dash_step xs pointer n token c e h = ground (arith, e)

object_step :
    (ms : Members) (pointer : Bytes) (n : ℕ) (token : Bytes) (c : Value)
    → (pointer_step (object ms) pointer n token ≡ found c) ↔ (find_member token ms ≡ some c)
unfolding pointer_step
object_step ms pointer n token c = ground arith

step_sound :
    (v : Value) (pointer : Bytes) (n : ℕ) (token : Bytes) (c : Value)
    → pointer_step v pointer n token ≡ found c
    → Child v token c
unfolding pointer_step
step_sound (object ms) pointer n token c h = member_child ((object_step ms pointer n token c).0 h)
step_sound (array xs) pointer n token c h = elim (Bool-cases (bytes_eq token dash)) [
  | inl e ↦ absurd (dash_step xs pointer n token c e h)
  | inr e ↦
      let (i, read, held) =
        element_sound (parse_pointer_index token) xs pointer n token c
          (sym (array_step xs pointer n token e) ∙ h) in
      let (decimal, fits) = (parse_pointer_index-to_decimal token i).0 read in
      element_child i fits decimal held
]
step_sound _ pointer n token c h = cc

element_complete :
    (xs : Items) (pointer : Bytes) (n i : ℕ) (token : Bytes) (c : Value)
    → item_at xs i ≡ some c
    → element_step (index_ok i) (array xs) pointer n token ≡ found c
unfolding find_index size
element_complete xs pointer n i token c h = ground (arith, item_at-none xs i)

step_complete :
    {v c : Value} {token : Bytes} (pointer : Bytes) (n : ℕ)
    → Child v token c
    → pointer_step v pointer n token ≡ found c
step_complete pointer n (member_child {ms} {key} {v} h) = (object_step ms pointer n key v).1 h
step_complete pointer n (element_child {xs} {token} {v} i fits decimal held) =
    array_step xs pointer n token (ap (λ t. bytes_eq t dash) decimal ∙ decimal-ne-dash i fits)
    ∙ ap (λ r. element_step r (array xs) pointer n token)
        ((parse_pointer_index-to_decimal token i).1 (decimal, fits))
    ∙ element_complete xs pointer n i token v held

resolve-cons :
    (v : Value) (token : Bytes) (tokens : List Bytes) (n : ℕ) (pointer : Bytes)
    → resolve_pointer_tokens v (token ∷ tokens) n pointer ≡ (
        pointer_step v pointer n token >>= λ child.
        resolve_pointer_tokens child tokens (n + 1) pointer)
unfolding resolve_pointer_tokens
resolve-cons v token tokens n pointer = refl

resolve-nil :
    (v w : Value) (n : ℕ) (pointer : Bytes)
    → (resolve_pointer_tokens v [] n pointer ≡ found w) ↔ (v ≡ w)
unfolding resolve_pointer_tokens
resolve-nil v w n pointer = ground arith

resolve_sound :
    (tokens : List Bytes) (v : Value) (n : ℕ) (pointer : Bytes) (w : Value)
    → resolve_pointer_tokens v tokens n pointer ≡ found w
    → Located v tokens w
resolve_sound [] v n pointer w h = subst (Located v []) ((resolve-nil v w n pointer).0 h) here
resolve_sound (token ∷ tokens) v n pointer w h =
    let (c, first, rest) =
      >>=-found (pointer_step v pointer n token)
        (λ child. resolve_pointer_tokens child tokens (n + 1) pointer) {b = w}
        (sym (resolve-cons v token tokens n pointer) ∙ h) in
    below (step_sound v pointer n token c first) (resolve_sound tokens c (n + 1) pointer w rest)

resolve_complete :
    {tokens : List Bytes} {v w : Value} (n : ℕ) (pointer : Bytes)
    → Located v tokens w
    → resolve_pointer_tokens v tokens n pointer ≡ found w
resolve_complete n pointer (here {v}) = (resolve-nil v v n pointer).1 refl
resolve_complete n pointer (below {v} {c} {w} {token} {tokens} ch l) =
    resolve-cons v token tokens n pointer
    ∙ ap (λ r. r >>= λ child. resolve_pointer_tokens child tokens (n + 1) pointer)
        (step_complete pointer n ch)
    ∙ resolve_complete (n + 1) pointer l

-- resolve_pointer_tokens finds w at the end of a path exactly when each token names the child of
-- the node before it.
pub resolve_pointer_tokens-Located :
    (tokens : List Bytes) (v : Value) (n : ℕ) (pointer : Bytes) (w : Value)
    → (resolve_pointer_tokens v tokens n pointer ≡ found w) ↔ Located v tokens w
resolve_pointer_tokens-Located tokens v n pointer w =
    (resolve_sound tokens v n pointer w, resolve_complete n pointer)

find_pointer-bind :
    (root : Value) (pointer : Bytes)
    → find_pointer root pointer
      ≡ (decode_pointer pointer >>= λ tokens. resolve_pointer_tokens root tokens 0 pointer)
unfolding find_pointer
find_pointer-bind root pointer = refl

-- find_pointer returns w exactly when the pointer is the escaped spelling of some tokens and w lies
-- at the end of their path: each token the key of a member, or the decimal index of an element.
pub find_pointer-Located :
    (root : Value) (pointer : Bytes) (w : Value)
    → (find_pointer root pointer ≡ found w)
      ↔ ((tokens : List Bytes) × (pointer ≡ build_pointer tokens) × Located root tokens w)
find_pointer-Located root pointer w = (
  λ h.
      let (tokens, read, rest) =
        >>=-found (decode_pointer pointer) (λ ts. resolve_pointer_tokens root ts 0 pointer) {b = w}
          (sym (find_pointer-bind root pointer) ∙ h) in
      (
        tokens,
        (decode_pointer-build pointer tokens).0 read,
        resolve_sound tokens root 0 pointer w rest,
      ),
  λ (tokens, spelled, l).
      find_pointer-bind root pointer
      ∙ ap (λ r. r >>= λ ts. resolve_pointer_tokens root ts 0 pointer)
          ((decode_pointer-build pointer tokens).1 spelled)
      ∙ resolve_complete 0 pointer l,
)
