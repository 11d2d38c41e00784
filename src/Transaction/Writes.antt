-- ===== src/Transaction/Writes.antt =====
-- The writes of c_src/main.c: they are refused while writes are disallowed, and otherwise make the
-- call and mark the transaction as written to.
use erlfdb.Base.{ℕ, true, false, ◌≡◌, refl, some, List}
use erlfdb.Term.{Term, atom, inspect_binary}
use erlfdb.Extern.{
  Extern, MutationType, TransactionCall, transaction_call, set, clear, clear_range, atomic_op,
}
use erlfdb.World.{World, Object, Transaction, Env}
use erlfdb.Nif.{ok, raise, ◌>>=◌, arg, atom_ok, decode, tell, modify}
use erlfdb.Resource.{write, log, assign}
use erlfdb.Options.{select, mutation_branches}
use erlfdb.Owned.{put, call}
use erlfdb.Owned.Grants.{Proper, writable-allowed, writable-locked}
use erlfdb.Dispatch.{Function, invoke}
use erlfdb.Refusal.Numbers.{arity}
use erlfdb.Transaction.{
  erlfdb_transaction_set, erlfdb_transaction_clear, erlfdb_transaction_clear_range,
  erlfdb_transaction_atomic_op,
}
use erlfdb.Transaction.Read.{erlfdb_transaction_watch}

-- The functions that write at commit.
pub data Writes : Function → Type 0 where
  sets : Writes Function.transaction_set
  clears : Writes Function.transaction_clear
  clears_range : Writes Function.transaction_clear_range
  mutates : Writes Function.transaction_atomic_op
  watches : Writes Function.transaction_watch

-- While writes are disallowed, a call of set, clear, clear_range, atomic_op or watch by the owner
-- with the right number of arguments, once the library is connected, raises writes_not_allowed,
-- changes nothing and makes no call.
pub invoke_locked :
    (ext : Extern) (api : ℕ) (env : Env) (f : Function) (argv : List Term) (w : World) (i c : ℕ)
    (t : Transaction)
    → Writes f
    → Proper env (arity f) argv w i c t
    → t.writes_allowed ≡ false
    → invoke ext api env f argv w ≡ (raise (atom "writes_not_allowed"), w)
unfolding invoke erlfdb_transaction_set erlfdb_transaction_clear erlfdb_transaction_clear_range
    erlfdb_transaction_atomic_op erlfdb_transaction_watch ◌>>=◌
invoke_locked ext api env _ argv w i c t sets p e = rw (writable-locked env 3 argv w i c t p e) refl
invoke_locked ext api env _ argv w i c t clears p e =
    rw (writable-locked env 2 argv w i c t p e) refl
invoke_locked ext api env _ argv w i c t clears_range p e =
    rw (writable-locked env 3 argv w i c t p e) refl
invoke_locked ext api env _ argv w i c t mutates p e =
    rw (writable-locked env 4 argv w i c t p e) refl
invoke_locked ext api env _ argv w i c t watches p e =
    rw (writable-locked env 3 argv w i c t p e) refl

-- The call is logged and the flag is cleared.
abbrev pub written : ℕ → ℕ → Transaction → TransactionCall → World → World
written i c t call w =
    write i
      (some (record { object = Object.transaction (record t { read_only = false }); count = c }))
      (log (transaction_call t.transaction call) w)

module _ (ext : Extern) (env : Env) (argv : List Term) (w : World) (i c : ℕ) (t : Transaction) where
  pub set-allowed :
      (key val : List ℕ)
      → Proper env 3 argv w i c t
      → t.writes_allowed ≡ true
      → inspect_binary (arg argv 1) ≡ some key
      → inspect_binary (arg argv 2) ≡ some val
      → erlfdb_transaction_set ext env argv w ≡ (ok atom_ok, written i c t (set key val) w)
  unfolding erlfdb_transaction_set ◌>>=◌ decode call tell put modify assign
  set-allowed key val p e k v = rw (writable-allowed env 3 argv w i c t p e, k, v, p.found) refl

  pub clear-allowed :
      (key : List ℕ)
      → Proper env 2 argv w i c t
      → t.writes_allowed ≡ true
      → inspect_binary (arg argv 1) ≡ some key
      → erlfdb_transaction_clear ext env argv w ≡ (ok atom_ok, written i c t (clear key) w)
  unfolding erlfdb_transaction_clear ◌>>=◌ decode call tell put modify assign
  clear-allowed key p e k = rw (writable-allowed env 2 argv w i c t p e, k, p.found) refl

  pub clear_range-allowed :
      (skey ekey : List ℕ)
      → Proper env 3 argv w i c t
      → t.writes_allowed ≡ true
      → inspect_binary (arg argv 1) ≡ some skey
      → inspect_binary (arg argv 2) ≡ some ekey
      → erlfdb_transaction_clear_range ext env argv w
        ≡ (ok atom_ok, written i c t (clear_range skey ekey) w)
  unfolding erlfdb_transaction_clear_range ◌>>=◌ decode call tell put modify assign
  clear_range-allowed skey ekey p e k v =
      rw (writable-allowed env 3 argv w i c t p e, k, v, p.found) refl

  -- Where writes are allowed and the arguments decode, an atomic_op by the owner, once the library
  -- is connected, makes the one call with the key, the parameter and the mutation type, marks the
  -- transaction as not read-only and answers ok.
  pub atomic_op-allowed :
      (key param : List ℕ) (mtype : MutationType)
      → Proper env 4 argv w i c t
      → t.writes_allowed ≡ true
      → inspect_binary (arg argv 1) ≡ some key
      → inspect_binary (arg argv 2) ≡ some param
      → select mutation_branches (arg argv 3) ≡ some mtype
      → erlfdb_transaction_atomic_op ext env argv w
        ≡ (ok atom_ok, written i c t (atomic_op key param mtype) w)
  unfolding erlfdb_transaction_atomic_op ◌>>=◌ decode call tell put modify assign
  atomic_op-allowed key param mtype p e k v m =
      rw (writable-allowed env 4 argv w i c t p e, k, v, m, p.found) refl
