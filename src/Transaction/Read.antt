-- ===== src/Transaction/Read.antt =====
-- The NIFs of c_src/main.c that start an operation of a transaction and return its future.
use erlfdb.Base.{ℕ, ◌+◌, true, none, some, List, leb, if◌then◌else◌}
use erlfdb.Term.{Term, get_int, get_local_pid, inspect_binary}
use erlfdb.Extern.{
  Extern, Selector, Range, TransactionCall, transaction_call, get_read_version, get,
  get_estimated_range_size_bytes, get_key, get_addresses_for_key, get_range, get_range_split_points,
  get_mapped_range, commit, get_versionstamp, watch, on_error, get_approximate_size,
}
use erlfdb.World.{
  Transaction, FutureType, ft_void, ft_int64, ft_key, ft_value, ft_string_array, ft_key_array,
  ft_keyvalue_array, ft_mappedkeyvalue_array, Env,
}
use erlfdb.Nif.{Nif, ◌>>=◌, ◌>>◌, pure, make_badarg, decode, ask, arg}
use erlfdb.Util.{get_boolean, get_key_selector}
use erlfdb.Options.{get_mode}
use erlfdb.Owned.{owned, writable, put}
use erlfdb.Future.{create_future}

module _ (ext : Extern) (env : Env) where
  -- The call that gives a future, and the future tied to the transaction's reference `argv[0]`.
  unfoldable pub start : Transaction → TransactionCall → FutureType → List Term → Nif Term
  start t c ftype argv = do
    fut ← ask ext.handle (transaction_call t.transaction c)
    create_future ext env (some (arg argv 0)) none fut ftype

  -- The same for a future that is not tied to the transaction, with another process to tell.
  unfoldable pub start_for : ℕ → Transaction → TransactionCall → FutureType → Nif Term
  start_for to t c ftype = do
    fut ← ask ext.handle (transaction_call t.transaction c)
    create_future ext env none (some to) fut ftype

  unfoldable pub erlfdb_transaction_get_read_version : List Term → Nif Term
  erlfdb_transaction_get_read_version argv = do
    (_, t) ← owned env 1 argv
    start t get_read_version ft_int64 argv

  unfoldable pub erlfdb_transaction_get : List Term → Nif Term
  erlfdb_transaction_get argv = do
    (_, t) ← owned env 3 argv
    key ← decode (inspect_binary (arg argv 1))
    snapshot ← decode (get_boolean (arg argv 2))
    start t (get key snapshot) ft_value argv

  -- Built for FDB_API_VERSION >= 630 only.
  unfoldable pub erlfdb_transaction_get_estimated_range_size : List Term → Nif Term
  erlfdb_transaction_get_estimated_range_size argv = do
    (_, t) ← owned env 3 argv
    skey ← decode (inspect_binary (arg argv 1))
    ekey ← decode (inspect_binary (arg argv 2))
    start t (get_estimated_range_size_bytes skey ekey) ft_int64 argv

  unfoldable pub erlfdb_transaction_get_key : List Term → Nif Term
  erlfdb_transaction_get_key argv = do
    (_, t) ← owned env 3 argv
    selector ← decode (get_key_selector (arg argv 1))
    snapshot ← decode (get_boolean (arg argv 2))
    start t (get_key selector snapshot) ft_key argv

  unfoldable pub erlfdb_transaction_get_addresses_for_key : List Term → Nif Term
  erlfdb_transaction_get_addresses_for_key argv = do
    (_, t) ← owned env 2 argv
    key ← decode (inspect_binary (arg argv 1))
    start t (get_addresses_for_key key) ft_string_array argv

  -- The arguments from `limit` on, which the two range reads share: `argv[k]` is the limit.
  unfoldable pub decode_range : Selector → Selector → ℕ → List Term → Nif Range
  decode_range first last k argv = do
    limit ← decode (get_int (arg argv k))
    target_bytes ← decode (get_int (arg argv (k + 1)))
    mode ← decode (get_mode (arg argv (k + 2)))
    iteration ← decode (get_int (arg argv (k + 3)))
    snapshot ← decode (get_boolean (arg argv (k + 4)))
    reverse ← decode (get_int (arg argv (k + 5)))
    pure (record {
      start = first;
      finish = last;
      limit = limit;
      target_bytes = target_bytes;
      mode = mode;
      iteration = iteration;
      snapshot = snapshot;
      reverse = reverse;
    })

  unfoldable pub erlfdb_transaction_get_range : List Term → Nif Term
  erlfdb_transaction_get_range argv = do
    (_, t) ← owned env 9 argv
    first ← decode (get_key_selector (arg argv 1))
    last ← decode (get_key_selector (arg argv 2))
    range ← decode_range first last 3 argv
    start t (get_range range) ft_keyvalue_array argv

  unfoldable pub erlfdb_transaction_get_range_split_points : List Term → Nif Term
  erlfdb_transaction_get_range_split_points argv = do
    (_, t) ← owned env 4 argv
    skey ← decode (inspect_binary (arg argv 1))
    ekey ← decode (inspect_binary (arg argv 2))
    chunk_size ← decode (get_int (arg argv 3))
    start t (get_range_split_points skey ekey chunk_size) ft_key_array argv

  unfoldable pub mapped_range : List Term → Nif Term
  mapped_range argv = do
    (_, t) ← owned env 10 argv
    first ← decode (get_key_selector (arg argv 1))
    last ← decode (get_key_selector (arg argv 2))
    mapper ← decode (inspect_binary (arg argv 3))
    range ← decode_range first last 4 argv
    start t (get_mapped_range mapper range) ft_mappedkeyvalue_array argv

  unfoldable pub erlfdb_transaction_get_mapped_range : ℕ → List Term → Nif Term
  erlfdb_transaction_get_mapped_range api argv =
      if leb 730 api then mapped_range argv else make_badarg

  unfoldable pub erlfdb_transaction_commit : List Term → Nif Term
  erlfdb_transaction_commit argv = do (_, t) ← owned env 1 argv; start t commit ft_void argv

  unfoldable pub erlfdb_transaction_get_versionstamp : List Term → Nif Term
  erlfdb_transaction_get_versionstamp argv = do
    (_, t) ← owned env 2 argv
    to ← decode (get_local_pid (arg argv 1))
    start_for to t get_versionstamp ft_key

  -- A watch needs a commit, so it is refused where writes are.
  unfoldable pub erlfdb_transaction_watch : List Term → Nif Term
  erlfdb_transaction_watch argv = do
    (i, t) ← writable env 3 argv
    key ← decode (inspect_binary (arg argv 1))
    to ← decode (get_local_pid (arg argv 2))
    fut ← ask ext.handle (transaction_call t.transaction (watch key))
    put i (record t { has_watches = true })
    create_future ext env none (some to) fut ft_void

  unfoldable pub erlfdb_transaction_on_error : List Term → Nif Term
  erlfdb_transaction_on_error argv = do
    (_, t) ← owned env 2 argv
    err ← decode (get_int (arg argv 1))
    start t (on_error err) ft_void argv

  unfoldable pub erlfdb_transaction_get_approximate_size : List Term → Nif Term
  erlfdb_transaction_get_approximate_size argv = do
    (_, t) ← owned env 1 argv
    start t get_approximate_size ft_int64 argv
