-- ===== src/Term.antt =====
-- Erlang terms as the C code of c_src/main.c and c_src/util.c sees them through the NIF interface.
-- A reference to a resource is the number of the resource; a float is its 64-bit pattern.
use text.Mathlib.Text.{◌==◌ as str_eq}
use erlfdb.Base.{
  ℕ, String, Bool, false, Option, none, some, List, [], ◌∷◌, ℤ, fits_int, fits_int64, if◌then◌else◌,
}

mutual
  pub data Term : Type 0 where
    atom : String → Term
    int : ℤ → Term
    float : ℕ → Term
    binary : List ℕ → Term
    pid : ℕ → Term
    reference : ℕ → Term
    resource : ℕ → Term
    tuple : Terms → Term
    list : Terms → Term

  pub data Terms : Type 0 where
    nil : Terms
    cons : Term → Terms → Terms

-- `enif_compare(term, ATOM_name) == 0`, the macro IS_ATOM.
unfoldable pub is_atom : Term → String → Bool
is_atom (atom a) name = str_eq a name
is_atom _ name = false

-- `enif_get_int`, `enif_get_int64`: an integer in the range of the C type.
unfoldable pub get_int : Term → Option ℤ
get_int (int n) = if fits_int n then some n else none
get_int _ = none

unfoldable pub get_int64 : Term → Option ℤ
get_int64 (int n) = if fits_int64 n then some n else none
get_int64 _ = none

-- `enif_inspect_binary`, `enif_get_local_pid`, `enif_get_tuple`.
unfoldable pub inspect_binary : Term → Option (List ℕ)
inspect_binary (binary b) = some b
inspect_binary _ = none

unfoldable pub get_local_pid : Term → Option ℕ
get_local_pid (pid p) = some p
get_local_pid _ = none

abbrev pub elements : Terms → List Term
elements nil = []
elements (cons t ts) = t ∷ elements ts

unfoldable pub get_tuple : Term → Option (List Term)
get_tuple (tuple ts) = some (elements ts)
get_tuple _ = none

abbrev pub terms : List Term → Terms
terms [] = nil
terms (t ∷ ts) = cons t (terms ts)

-- `enif_make_tuple2` and `enif_make_tuple3`, the macros T2 and T3.
abbrev pub make_tuple2 : Term → Term → Term
make_tuple2 a b = tuple (cons a (cons b nil))

abbrev pub make_tuple3 : Term → Term → Term → Term
make_tuple3 a b c = tuple (cons a (cons b (cons c nil)))
