-- ===== src/Util/Selectors.antt =====
-- erlfdb_get_key_selector of c_src/util.c against the meaning of a key selector.
use erlfdb.Base.{
  ℕ, ◌+◌, ◌≤◌, String, Bool, true, false, some, ◌≡◌, refl, subst, Bool-cases, Option-cases, get_or,
  sym, ◌⊎◌, inl, inr, List, [], ◌∷◌, ℤ, pos, negsuc, ◌+ℤ◌, int_max, fits_int, arith,
}
use erlfdb.Term.{
  Term, atom, int, binary, tuple, terms, is_atom, get_int, get_tuple, inspect_binary, elements,
}
use erlfdb.Extern.{Selector}
use erlfdb.Util.{get_comparison, add_offset, selector_of, get_key_selector}

-- The four comparisons of a key selector, as libfdb_c defines them.
pub data Comparison : Type 0 where
  lt lteq gt gteq : Comparison

abbrev pub name : Comparison → String
name Comparison.lt = "lt"
name Comparison.lteq = "lteq"
name Comparison.gt = "gt"
name Comparison.gteq = "gteq"

-- FDB_KEYSEL_LAST_LESS_THAN and the other three of fdb_c.h.
abbrev pub keysel : List ℕ → Comparison → Selector
keysel key Comparison.lt = record { key = key; or_equal = false; offset = pos 0 }
keysel key Comparison.lteq = record { key = key; or_equal = true; offset = pos 0 }
keysel key Comparison.gt = record { key = key; or_equal = true; offset = pos 1 }
keysel key Comparison.gteq = record { key = key; or_equal = false; offset = pos 1 }

-- erlfdb_get_key_selector reads {Key, lt}, {Key, lteq}, {Key, gt} and {Key, gteq} as the four key
-- selectors of fdb_c.h.
pub get_key_selector-pair :
    (key : List ℕ) (c : Comparison)
    → get_key_selector (tuple (terms (binary key ∷ atom (name c) ∷ []))) ≡ some (keysel key c)
unfolding get_key_selector selector_of get_comparison is_atom get_int get_tuple inspect_binary
get_key_selector-pair key Comparison.lt = refl
get_key_selector-pair key Comparison.lteq = refl
get_key_selector-pair key Comparison.gt = refl
get_key_selector-pair key Comparison.gteq = refl

shifted :
    (n : ℤ) (s : Selector)
    → fits_int n ≡ true
    → add_offset s (int n) ≡ some (record s { offset = s.offset +ℤ n })
unfolding add_offset get_int
shifted n s h = rw (h, add_offset, get_int) refl

-- erlfdb_get_key_selector reads {Key, Comparison, N} with an N in the range of an int as the key
-- selector of the comparison, with N added to its offset.
pub get_key_selector-triple :
    (key : List ℕ) (c : Comparison) (n : ℤ)
    → fits_int n ≡ true
    → let s : Selector = keysel key c in
      get_key_selector (tuple (terms (binary key ∷ atom (name c) ∷ int n ∷ [])))
      ≡ some (record s { offset = s.offset +ℤ n })
unfolding get_key_selector selector_of get_comparison is_atom get_tuple inspect_binary
get_key_selector-triple key Comparison.lt n h = shifted n (keysel key Comparison.lt) h
get_key_selector-triple key Comparison.lteq n h = shifted n (keysel key Comparison.lteq) h
get_key_selector-triple key Comparison.gt n h = shifted n (keysel key Comparison.gt) h
get_key_selector-triple key Comparison.gteq n h = shifted n (keysel key Comparison.gteq) h

-- The offset is that of the comparison plus an `int`: it can be one above the largest `int`.
abbrev pub InRange : ℤ → Type 0
InRange (pos n) = n ≤ int_max + 1
InRange (negsuc n) = n ≤ int_max

abbrev pub IsUnit : ℤ → Type 0
IsUnit n = (n ≡ pos 0) ⊎ (n ≡ pos 1)

get_comparison-IsUnit : (term : Term) (c : Bool × ℤ) → get_comparison term ≡ some c → IsUnit c.1
unfolding get_comparison
get_comparison-IsUnit term c e = ground arith

shift-InRange : (a n : ℤ) → IsUnit a → fits_int n ≡ true → InRange (a +ℤ n)
unfolding ◌+ℤ◌
shift-InRange a (pos n) (inl e) h = rw e (ground arith)
shift-InRange a (pos n) (inr e) h = rw e (ground arith)
shift-InRange a (negsuc n) (inl e) h = rw e (ground arith)
shift-InRange a (negsuc n) (inr e) h = rw e (ground arith)

IsUnit-InRange : (a : ℤ) → IsUnit a → InRange a
IsUnit-InRange a (inl e) = rw e (omega arith)
IsUnit-InRange a (inr e) = rw e (omega arith)

add_offset-InRange :
    (s u : Selector) (term : Term) → IsUnit s.offset → add_offset s term ≡ some u → InRange u.offset
unfolding add_offset get_int
add_offset-InRange s u (int n) a e = elim (Bool-cases (fits_int n)) [
  | inl h ↦
      let p : u.offset ≡ s.offset +ℤ n = ground (arith, h) in
      subst InRange (sym p) (shift-InRange s.offset n a h)
  | inr h ↦ ground (arith, h)
]
add_offset-InRange s u _ a e = cc

selector_of-InRange :
    (elements : List Term) (s : Selector) → selector_of elements ≡ some s → InRange s.offset
unfolding selector_of
selector_of-InRange elements s e =
    elim (Option-cases (inspect_binary (get_or elements 0 (atom "")))) [
      | inl n ↦ absurd (ground (arith, n, e))
      | inr (bin, b) ↦ elim (Option-cases (get_comparison (get_or elements 1 (atom "")))) [
        | inl n ↦ absurd (ground (arith, n, b, e))
        | inr (c, m) ↦
            let u : Selector = record { key = bin; or_equal = c.0; offset = c.1 } in
            let cases : (u ≡ s) ⊎ (add_offset u (get_or elements 2 (atom "")) ≡ some s) =
              ground (arith, m, b, e) in
            let h = get_comparison-IsUnit (get_or elements 1 (atom "")) c m in
            elim cases [
              | inl p ↦ subst (λ (v : Selector). InRange v.offset) p (IsUnit-InRange c.1 h)
              | inr p ↦ add_offset-InRange u s (get_or elements 2 (atom "")) h p
            ]
      ]
    ]

-- The offset of a key selector that erlfdb_get_key_selector accepts, as an integer, is at most one
-- above the largest int and is not below the least int.
pub get_key_selector-InRange :
    (term : Term) (s : Selector) → get_key_selector term ≡ some s → InRange s.offset
unfolding get_key_selector get_tuple
get_key_selector-InRange (tuple ts) s e = selector_of-InRange (elements ts) s e
get_key_selector-InRange _ s e = cc
