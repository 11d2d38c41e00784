-- ===== src/Util.antt =====
-- c_src/util.c.
pub mod Selectors
use erlfdb.Base.{
  Bool, true, false, Option, none, some, List, ℤ, pos, ◌+ℤ◌, is_zero, not, ◌||◌, length, get_or,
  if◌then◌else◌, ◌==◌,
}
use erlfdb.Term.{Term, atom, int, is_atom, get_int, get_tuple, inspect_binary, make_tuple2}
use erlfdb.Extern.{Selector}
use erlfdb.Nif.{Nif, raise_exception}

-- erlfdb_erlang_error.
abbrev pub error_term : ℤ → Term
error_term err = make_tuple2 (atom "erlfdb_error") (int err)

unfoldable pub erlang_error : {A : Type 0} → ℤ → Nif A
erlang_error err = raise_exception (error_term err)

-- erlfdb_get_boolean.
unfoldable pub get_boolean : Term → Option Bool
unfolding is_atom
get_boolean term =
    if is_atom term "true" then some true else if is_atom term "false" then some false else none

-- The second element of a key selector: `or_equal` and `offset`.
unfoldable pub get_comparison : Term → Option (Bool × ℤ)
unfolding is_atom get_int
get_comparison term =
    if is_atom term "lt"
    then some (false, pos 0)
    else if is_atom term "lteq"
    then some (true, pos 0)
    else if is_atom term "gt"
    then some (true, pos 1)
    else if is_atom term "gteq"
    then some (false, pos 1)
    else if is_atom term "true"
    then some (true, pos 0)
    else if is_atom term "false"
    then some (false, pos 0)
    else elim (get_int term) [
      | none ↦ none
      | some number_or_equal ↦ some (not (is_zero number_or_equal), pos 0)
    ]

-- `*offset += add_offset`, as an integer: the C addition is defined only if the sum is an `int`.
unfoldable pub add_offset : Selector → Term → Option Selector
unfolding get_int ◌+ℤ◌
add_offset s term = elim (get_int term) [
  | none ↦ none
  | some n ↦ some (record s { offset = s.offset +ℤ n })
]

-- erlfdb_get_key_selector.
unfoldable pub selector_of : List Term → Option Selector
unfolding inspect_binary get_comparison add_offset
selector_of elements =
    if not (length elements == 2 || length elements == 3)
    then none
    else elim (inspect_binary (get_or elements 0 (atom ""))) [
      | none ↦ none
      | some bin ↦ elim (get_comparison (get_or elements 1 (atom ""))) [
        | none ↦ none
        | some (or_equal, offset) ↦
            let s : Selector = record { key = bin; or_equal = or_equal; offset = offset } in
            if length elements == 2 then some s else add_offset s (get_or elements 2 (atom ""))
      ]
    ]

unfoldable pub get_key_selector : Term → Option Selector
unfolding get_tuple selector_of
get_key_selector selector = elim (get_tuple selector) [
  | none ↦ none
  | some elements ↦ selector_of elements
]
