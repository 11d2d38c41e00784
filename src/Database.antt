-- ===== src/Database.antt =====
-- Databases and tenants of c_src/main.c.
pub mod Names
pub mod Creation
use erlfdb.Base.{
  ℕ, String, Bool, true, false, none, List, [], ◌∷◌, is_zero, leb, if◌then◌else◌, ◌==◌,
}
use erlfdb.Term.{Term, atom, float, resource, inspect_binary, make_tuple2}
use erlfdb.Extern.{
  Call, Extern, create_database, database_set_option, database_open_tenant,
  database_create_transaction, database_get_main_thread_busyness, database_get_client_status,
  database_destroy, tenant_create_transaction, tenant_destroy, transaction_call, destroy,
}
use erlfdb.World.{Transaction, Object, ft_value, Env}
use erlfdb.Nif.{
  Nif, ◌>>=◌, ◌>>◌, pure, make_badarg, check, decode, gets, modify, ask, tell, entry, arg, atom_ok,
}
use erlfdb.Resource.{
  alloc_resource, make_resource, release_resource, get_resource, as_database, as_tenant,
}
use erlfdb.Util.{erlang_error}
use erlfdb.Options.{select, database_branches}
use erlfdb.Future.{create_future}

-- `bin.size < 1 || bin.data[bin.size - 1] != 0` is refused.
unfoldable pub is_terminated : List ℕ → Bool
is_terminated [] = false
is_terminated (b ∷ []) = b == 0
is_terminated (b ∷ c ∷ bs) = is_terminated (c ∷ bs)

-- The C string that libfdb_c reads: the bytes before the first 0.
unfoldable pub c_string : List ℕ → List ℕ
c_string [] = []
c_string (b ∷ bs) = if b == 0 then [] else b ∷ c_string bs

-- The first `bin.size - 1` bytes.
unfoldable pub without_last : List ℕ → List ℕ
without_last [] = []
without_last (b ∷ []) = []
without_last (b ∷ c ∷ bs) = b ∷ without_last (c ∷ bs)

-- The guards at the head of the NIFs on a database and on a tenant.
unfoldable pub database_of : ℕ → List Term → Nif (ℕ × ℕ)
database_of n argv = do entry n argv; get_resource as_database (arg argv 0)

unfoldable pub tenant_of : ℕ → List Term → Nif (ℕ × ℕ)
tenant_of n argv = do entry n argv; get_resource as_tenant (arg argv 0)

-- The fields that a new transaction starts with.
abbrev pub new_transaction : Env → ℕ → Transaction
new_transaction env h = record {
  transaction = h;
  owner = env.self;
  txid = 0;
  read_only = true;
  writes_allowed = true;
  has_watches = false;
}

module _ (ext : Extern) (env : Env) where
  -- A resource for a new handle, given to Erlang as `{tag, resource}`. Where the allocation fails
  -- the handle is destroyed.
  unfoldable pub give_resource : String → Object → Call → Nif Term
  give_resource tag o destroy_call = do
    allocated ← ask ext.holds Call.alloc_resource
    if allocated
        then (do
          i ← gets (λ w. w.next)
          modify (alloc_resource o)
          modify (make_resource i)
          modify (release_resource i)
          pure (make_tuple2 (atom tag) (resource i)))
        else (do tell destroy_call; make_badarg)

  unfoldable pub erlfdb_create_database : List Term → Nif Term
  erlfdb_create_database argv = do
    entry 1 argv
    bin ← decode (inspect_binary (arg argv 0))
    check (is_terminated bin)
    (err, d) ← ask (λ h. (ext.error h, ext.handle h)) (create_database (c_string bin))
    if is_zero err
        then give_resource "erlfdb_database" (Object.database d) (database_destroy d)
        else erlang_error err

  unfoldable pub erlfdb_database_open_tenant : List Term → Nif Term
  erlfdb_database_open_tenant argv = do
    (_, d) ← database_of 2 argv
    bin ← decode (inspect_binary (arg argv 1))
    check (is_terminated bin)
    (err, ten) ← ask (λ h. (ext.error h, ext.handle h)) (database_open_tenant d (without_last bin))
    if is_zero err
        then give_resource "erlfdb_tenant" (Object.tenant ten) (tenant_destroy ten)
        else erlang_error err

  unfoldable pub erlfdb_database_set_option : List Term → Nif Term
  erlfdb_database_set_option argv = do
    (_, d) ← database_of 3 argv
    option ← decode (select database_branches (arg argv 1))
    value ← decode (inspect_binary (arg argv 2))
    err ← ask ext.error (database_set_option d option value)
    if is_zero err then pure atom_ok else erlang_error err

  unfoldable pub start_transaction : Call → Nif Term
  start_transaction c = do
    (err, h) ← ask (λ h. (ext.error h, ext.handle h)) c
    if is_zero err
        then give_resource "erlfdb_transaction" (Object.transaction (new_transaction env h))
            (transaction_call h destroy)
        else erlang_error err

  unfoldable pub erlfdb_database_create_transaction : List Term → Nif Term
  erlfdb_database_create_transaction argv = do
    (_, d) ← database_of 1 argv
    start_transaction (database_create_transaction d)

  unfoldable pub erlfdb_tenant_create_transaction : List Term → Nif Term
  erlfdb_tenant_create_transaction argv = do
    (_, ten) ← tenant_of 1 argv
    start_transaction (tenant_create_transaction ten)

  unfoldable pub erlfdb_database_get_main_thread_busyness : List Term → Nif Term
  erlfdb_database_get_main_thread_busyness argv = do
    (_, d) ← database_of 1 argv
    busyness ← ask ext.double (database_get_main_thread_busyness d)
    pure (float busyness)

  unfoldable pub client_status : List Term → Nif Term
  client_status argv = do
    (_, d) ← database_of 1 argv
    fut ← ask ext.handle (database_get_client_status d)
    create_future ext env none none fut ft_value

  unfoldable pub erlfdb_database_get_client_status : ℕ → List Term → Nif Term
  erlfdb_database_get_client_status api argv =
      if leb 730 api then client_status argv else make_badarg
