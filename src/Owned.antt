-- ===== src/Owned.antt =====
-- The guards at the head of the NIFs on a transaction of c_src/main.c, in their order.
pub mod Grants
use erlfdb.Base.{ℕ, List}
use erlfdb.Term.{Term, atom}
use erlfdb.Extern.{TransactionCall, transaction_call}
use erlfdb.World.{Transaction, Object, Env}
use erlfdb.Nif.{Nif, ok, raise, ◌>>=◌, ◌>>◌, pure, check, modify, tell, entry, arg}
use erlfdb.Base.{if◌then◌else◌}
use erlfdb.Resource.{get_resource, as_transaction, transaction_is_owner, assign}

-- Connected, the arity, the resource and its owner.
unfoldable pub owned : Env → ℕ → List Term → Nif (ℕ × Transaction)
owned env n argv = do
  entry n argv
  (i, t) ← get_resource as_transaction (arg argv 0)
  check (transaction_is_owner env t)
  pure (i, t)

-- `if (!t->writes_allowed) return enif_raise_exception(env, ATOM_writes_not_allowed);`
unfoldable pub check_writes : Transaction → Nif (Unit {0})
check_writes t w = (if t.writes_allowed then ok tt else raise (atom "writes_not_allowed"), w)

unfoldable pub writable : Env → ℕ → List Term → Nif (ℕ × Transaction)
writable env n argv = do (i, t) ← owned env n argv; check_writes t; pure (i, t)

-- An assignment to the transaction behind the resource.
unfoldable pub put : ℕ → Transaction → Nif (Unit {0})
put i t = modify (assign i (Object.transaction t))

-- A call on the transaction's handle, without an answer and with one.
unfoldable pub call : Transaction → TransactionCall → Nif (Unit {0})
call t c = tell (transaction_call t.transaction c)
