-- ===== src/Nif.antt =====
-- The shape of a NIF of c_src/main.c: a computation over the world that returns a value, returns
-- `enif_make_badarg(env)` or raises an exception. An early return is the end of the computation.
use erlfdb.Base.{
  ℕ, Bool, true, false, Option, none, some, List, ◌∷◌, get_or, length, if◌then◌else◌, ◌==◌,
}
use erlfdb.Term.{Term, atom}
use erlfdb.Extern.{Call}
use erlfdb.World.{World, LibState, connected}

pub data Outcome (A : Type 0) : Type 0 where
  ok : A → Outcome A
  badarg : Outcome A
  raise : Term → Outcome A

abbrev pub Nif : Type 0 → Type 0
Nif A = World → Outcome A × World

-- An outcome that is no value ends the computation.
abbrev pub continue : {A B : Type 0} → Outcome A → (A → Nif B) → Nif B
continue (ok a) f w = f a w
continue badarg f w = (badarg, w)
continue (raise t) f w = (raise t, w)

infixl 5 ◌>>=◌ ◌>>◌
unfoldable pub ◌>>=◌ : {A B : Type 0} → Nif A → (A → Nif B) → Nif B
◌>>=◌ m f w = continue (m w).0 f (m w).1

abbrev pub ◌>>◌ : {B : Type 0} → Nif (Unit {0}) → Nif B → Nif B
m >> k = m >>= λ _. k

abbrev pub pure : {A : Type 0} → A → Nif A
pure a w = (ok a, w)

abbrev pub make_badarg : {A : Type 0} → Nif A
make_badarg w = (badarg, w)

abbrev pub raise_exception : {A : Type 0} → Term → Nif A
raise_exception t w = (raise t, w)

-- `if (!test) return enif_make_badarg(env);`
unfoldable pub check : Bool → Nif (Unit {0})
check b w = (if b then ok tt else badarg, w)

-- A decoder that fails returns badarg.
unfoldable pub decode : {A : Type 0} → Option A → Nif A
decode none w = (badarg, w)
decode (some a) w = (ok a, w)

unfoldable pub gets : {A : Type 0} → (World → A) → Nif A
gets f w = (ok (f w), w)

unfoldable pub modify : (World → World) → Nif (Unit {0})
modify f w = (ok tt, f w)

-- An external call, and the part of its answer that the code looks at.
unfoldable pub ask : {A : Type 0} → (List Call → A) → Call → Nif A
ask answer c w = (ok (answer (c ∷ w.trace)), record w { trace = c ∷ w.trace })

unfoldable pub tell : Call → Nif (Unit {0})
tell c w = (ok tt, record w { trace = c ∷ w.trace })

abbrev pub same_state : LibState → LibState → Bool
same_state LibState.state_error LibState.state_error = true
same_state LibState.loaded LibState.loaded = true
same_state LibState.api_selected LibState.api_selected = true
same_state LibState.network_starting LibState.network_starting = true
same_state LibState.connected LibState.connected = true
same_state _ _ = false

-- `if (st->lib_state != s) return enif_make_badarg(env);`
unfoldable pub in_state : LibState → Nif (Unit {0})
in_state s w = (if same_state w.lib_state s then ok tt else badarg, w)

-- `if (argc != n) return enif_make_badarg(env);`
unfoldable pub has_arity : ℕ → List Term → Nif (Unit {0})
has_arity n argv = check (length argv == n)

-- The two guards at the head of nearly every NIF.
unfoldable pub entry : ℕ → List Term → Nif (Unit {0})
entry n argv = do in_state connected; has_arity n argv

-- `argv[i]`, read only where the arity was checked.
abbrev pub arg : List Term → ℕ → Term
arg argv i = get_or argv i (atom "")

abbrev pub atom_ok : Term
atom_ok = atom "ok"

abbrev pub make_boolean : Bool → Term
make_boolean b = if b then atom "true" else atom "false"
