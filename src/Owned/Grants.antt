-- ===== src/Owned/Grants.antt =====
-- The guards of a transaction's NIF let a proper call through, and what the NIF then does.
use erlfdb.Base.{ℕ, true, false, ◌≡◌, refl, some, List, length, eq_refl}
use erlfdb.Term.{Term, atom, resource}
use erlfdb.World.{World, LibState, Object, Transaction, Env}
use erlfdb.Nif.{ok, raise, ◌>>=◌, entry, in_state, has_arity, check, arg}
use erlfdb.Resource.{get_resource, transaction_is_owner}
use erlfdb.Owned.{owned, check_writes, writable}

-- A call of the owner with the right number of arguments, once the network runs.
pub record Proper (env : Env) (n : ℕ) (argv : List Term) (w : World) (i c : ℕ) (t : Transaction)
    : Type 0 where
  pub connected : w.lib_state ≡ LibState.connected
  pub counted : length argv ≡ n
  pub named : arg argv 0 ≡ resource i
  pub found : w.cell i ≡ some (record { object = Object.transaction t; count = c })
  pub owner : t.owner ≡ env.self

pub owned_lem :
    (env : Env) (n : ℕ) (argv : List Term) (w : World) (i c : ℕ) (t : Transaction)
    → Proper env n argv w i c t
    → owned env n argv w ≡ (ok (i, t), w)
unfolding owned entry in_state has_arity check get_resource transaction_is_owner ◌>>=◌
owned_lem env n argv w i c t p =
    rw (p.connected, p.counted, eq_refl n, p.named, p.found, p.owner, eq_refl env.self) refl

pub writable-allowed :
    (env : Env) (n : ℕ) (argv : List Term) (w : World) (i c : ℕ) (t : Transaction)
    → Proper env n argv w i c t
    → t.writes_allowed ≡ true
    → writable env n argv w ≡ (ok (i, t), w)
unfolding writable check_writes ◌>>=◌
writable-allowed env n argv w i c t p e = rw (owned_lem env n argv w i c t p, e) refl

pub writable-locked :
    (env : Env) (n : ℕ) (argv : List Term) (w : World) (i c : ℕ) (t : Transaction)
    → Proper env n argv w i c t
    → t.writes_allowed ≡ false
    → writable env n argv w ≡ (raise (atom "writes_not_allowed"), w)
unfolding writable check_writes ◌>>=◌
writable-locked env n argv w i c t p e = rw (owned_lem env n argv w i c t p, e) refl
