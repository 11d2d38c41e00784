-- ===== src/Transaction.antt =====
-- Transactions of c_src/main.c: the options, the writes and the questions about a transaction. The
-- NIFs that create a future are in Transaction/Read.
pub mod Read
pub mod Writes
pub mod Switches
pub mod Ids
use erlfdb.Base.{
  ℕ, ◌+◌, ◌%◌, ◌^◌, Bool, true, false, Option, none, some, List, [], ◌∷◌, pos, is_zero, ltb, not,
  if◌then◌else◌,
}
use erlfdb.Term.{Term, atom, int, is_atom, get_int64, inspect_binary}
use erlfdb.Extern.{
  Extern, ConflictRangeType, TransactionCall, transaction_call, set_option, set_read_version, set,
  clear, clear_range, atomic_op, get_committed_version, reset, cancel, add_conflict_range,
}
use erlfdb.World.{Transaction, Env}
use erlfdb.Nif.{Nif, ◌>>=◌, ◌>>◌, pure, make_badarg, check, decode, ask, arg, atom_ok, make_boolean}
use erlfdb.Util.{erlang_error}
use erlfdb.Options.{select, transaction_branches, mutation_branches, conflict_branches}
use erlfdb.Owned.{owned, check_writes, writable, put, call}

abbrev pub is_write : ConflictRangeType → Bool
is_write ConflictRangeType.read = false
is_write ConflictRangeType.write = true

module _ (ext : Extern) (env : Env) where
  -- The options that libfdb_c knows.
  unfoldable pub set_fdb_option : ℕ → Transaction → List Term → Nif Term
  set_fdb_option api t argv = do
    option ← decode (select (transaction_branches api) (arg argv 1))
    value ← decode (inspect_binary (arg argv 2))
    err ← ask ext.error (transaction_call t.transaction (set_option option value))
    if is_zero err then pure atom_ok else erlang_error err

  unfoldable pub erlfdb_transaction_set_option : ℕ → List Term → Nif Term
  erlfdb_transaction_set_option api argv = do
    (i, t) ← owned env 3 argv
    if is_atom (arg argv 1) "allow_writes"
        then (do put i (record t { writes_allowed = true }); pure atom_ok)
        else if is_atom (arg argv 1) "disallow_writes"
        then (do check t.read_only; put i (record t { writes_allowed = false }); pure atom_ok)
        else set_fdb_option api t argv

  unfoldable pub erlfdb_transaction_set_read_version : List Term → Nif Term
  erlfdb_transaction_set_read_version argv = do
    (_, t) ← owned env 2 argv
    vsn ← decode (get_int64 (arg argv 1))
    call t (set_read_version vsn)
    pure atom_ok

  unfoldable pub erlfdb_transaction_set : List Term → Nif Term
  erlfdb_transaction_set argv = do
    (i, t) ← writable env 3 argv
    key ← decode (inspect_binary (arg argv 1))
    val ← decode (inspect_binary (arg argv 2))
    call t (set key val)
    put i (record t { read_only = false })
    pure atom_ok

  unfoldable pub erlfdb_transaction_clear : List Term → Nif Term
  erlfdb_transaction_clear argv = do
    (i, t) ← writable env 2 argv
    key ← decode (inspect_binary (arg argv 1))
    call t (clear key)
    put i (record t { read_only = false })
    pure atom_ok

  unfoldable pub erlfdb_transaction_clear_range : List Term → Nif Term
  erlfdb_transaction_clear_range argv = do
    (i, t) ← writable env 3 argv
    skey ← decode (inspect_binary (arg argv 1))
    ekey ← decode (inspect_binary (arg argv 2))
    call t (clear_range skey ekey)
    put i (record t { read_only = false })
    pure atom_ok

  unfoldable pub erlfdb_transaction_atomic_op : List Term → Nif Term
  erlfdb_transaction_atomic_op argv = do
    (i, t) ← writable env 4 argv
    key ← decode (inspect_binary (arg argv 1))
    param ← decode (inspect_binary (arg argv 2))
    mtype ← decode (select mutation_branches (arg argv 3))
    call t (atomic_op key param mtype)
    put i (record t { read_only = false })
    pure atom_ok

  unfoldable pub erlfdb_transaction_get_committed_version : List Term → Nif Term
  erlfdb_transaction_get_committed_version argv = do
    (_, t) ← owned env 1 argv
    (err, vsn) ←
        ask (λ h. (ext.error h, ext.int64 h)) (transaction_call t.transaction get_committed_version)
    if is_zero err then pure (int vsn) else erlang_error err

  -- The flag `writes_allowed` survives a reset.
  unfoldable pub erlfdb_transaction_reset : List Term → Nif Term
  erlfdb_transaction_reset argv = do
    (i, t) ← owned env 1 argv
    call t reset
    put i (record t { txid = 0; read_only = true; has_watches = false })
    pure atom_ok

  unfoldable pub erlfdb_transaction_cancel : List Term → Nif Term
  erlfdb_transaction_cancel argv = do (_, t) ← owned env 1 argv; call t cancel; pure atom_ok

  -- The last step of erlfdb_transaction_add_conflict_range.
  unfoldable pub add_conflict : ℕ → Transaction → List ℕ → List ℕ → ConflictRangeType → Nif Term
  add_conflict i t skey ekey rtype = do
    err ← ask ext.error (transaction_call t.transaction (add_conflict_range skey ekey rtype))
    if is_zero err
        then (if is_write rtype
            then (do put i (record t { read_only = false }); pure atom_ok)
            else pure atom_ok)
        else erlang_error err

  unfoldable pub erlfdb_transaction_add_conflict_range : List Term → Nif Term
  erlfdb_transaction_add_conflict_range argv = do
    (i, t) ← owned env 4 argv
    skey ← decode (inspect_binary (arg argv 1))
    ekey ← decode (inspect_binary (arg argv 2))
    rtype ← decode (select conflict_branches (arg argv 3))
    if is_write rtype
        then (do check_writes t; add_conflict i t skey ekey rtype)
        else add_conflict i t skey ekey rtype

  -- `t->txid++` on an unsigned int, behind the test that it is at most 65535.
  unfoldable pub erlfdb_transaction_get_next_tx_id : List Term → Nif Term
  erlfdb_transaction_get_next_tx_id argv = do
    (i, t) ← owned env 1 argv
    check (not (ltb 65535 t.txid))
    put i (record t { txid = (t.txid + 1) % 2 ^ 32 })
    pure (int (pos t.txid))

  unfoldable pub erlfdb_transaction_is_read_only : List Term → Nif Term
  erlfdb_transaction_is_read_only argv = do
    (_, t) ← owned env 1 argv
    pure (make_boolean t.read_only)

  unfoldable pub erlfdb_transaction_has_watches : List Term → Nif Term
  erlfdb_transaction_has_watches argv = do
    (_, t) ← owned env 1 argv
    pure (make_boolean t.has_watches)

  unfoldable pub erlfdb_transaction_get_writes_allowed : List Term → Nif Term
  erlfdb_transaction_get_writes_allowed argv = do
    (_, t) ← owned env 1 argv
    pure (make_boolean t.writes_allowed)
