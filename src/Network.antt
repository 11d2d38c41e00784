-- ===== src/Network.antt =====
-- The library's life in c_src/main.c: load and unload, the choice of the API version, the network
-- options and the start of the network thread; and the NIFs on error codes.
pub mod Threads
pub mod Moments
pub mod Waiting
pub mod Startup
pub mod Loading
use erlfdb.Base.{
  ℕ, zero, suc, String, Bool, true, false, Option, none, some, List, [], ◌∷◌, is_zero, leb, not,
  ◌==◌, if◌then◌else◌,
}
use erlfdb.Term.{Term, atom, int, binary, get_int, inspect_binary}
use erlfdb.Extern.{
  Extern, NetworkOption, get_max_api_version, select_api_version, network_set_option, setup_network,
  run_network, stop_network, thread_create, thread_join, open_resource_type, set_option_on_halt,
  alloc_state, free_state, mutex_create, cond_create, mutex_destroy, cond_destroy, error_text,
  error_predicate,
}
use erlfdb.World.{World, LibState, loaded, api_selected, network_starting, connected}
use erlfdb.Nif.{
  Nif, ok, badarg, ◌>>=◌, ◌>>◌, pure, make_badarg, decode, gets, modify, ask, tell, in_state,
  has_arity, same_state, arg, atom_ok, make_boolean,
}
use erlfdb.Util.{erlang_error}
use Threads.{set_lib_state, wait_for_network}
use erlfdb.Options.{select, network_branches, predicate_branches}

abbrev pub waited : Option World → Nif (Unit {0})
waited none w = (badarg, w)
waited (some w') w = (ok tt, w')

module _ (ext : Extern) where
  -- erlfdb_init_resources opens the four types in turn and stops at the first failure.
  unfoldable pub open_types : List String → Nif Bool
  open_types [] = pure true
  open_types (name ∷ names) = do
    opened ← ask ext.handle (open_resource_type name)
    let rest = open_types names
    if opened == 0 then pure false else rest

  unfoldable pub init_resources : Nif Bool
  init_resources =
      open_types ("erlfdb_future" ∷ "erlfdb_database" ∷ "erlfdb_tenant" ∷ "erlfdb_transaction" ∷ [])

  -- erlfdb_load: 0 for success. `on_halt` says whether the NIF version has the option.
  unfoldable pub erlfdb_load : Bool → Nif ℕ
  erlfdb_load on_halt = do
    tell alloc_state
    opened ← init_resources
    if not opened then pure 1 else (do
      let create = (do
        tell (mutex_create "fdb:st_lock")
        tell (cond_create "fdb:st_cond")
        modify (set_lib_state loaded)
        pure 0)
      if on_halt
          then (do err ← ask ext.error set_option_on_halt; if is_zero err then create else pure 1)
          else create)

  -- erlfdb_join, which erlfdb_unload calls: `none` is a failed assertion, which aborts.
  unfoldable pub join_network : World → Option World
  join_network w =
      let stopped = stop_network ∷ w.trace in
      let joined = thread_join ∷ stopped in
      let ran = ext.error (run_network ∷ joined) in
      if not (is_zero (ext.error stopped))
      then none
      else if not (is_zero (ext.error joined))
      then none
      else if not (is_zero ran)
      then none
      else some (record w { trace = joined })

  unfoldable pub erlfdb_join : World → Option World
  erlfdb_join w =
      let free = λ (v : World). record v {
        trace = free_state ∷ cond_destroy 0 ∷ mutex_destroy 0 ∷ v.trace;
      } in
      if same_state w.lib_state connected
      then elim (join_network w) [ none ↦ none | some v ↦ some (free v) ]
      else some (free w)

  -- erlfdb_can_initialize. `sentinel` is whether the atom SENTINEL exists.
  unfoldable pub erlfdb_can_initialize : List Term → Nif Term
  erlfdb_can_initialize argv = do
    in_state loaded
    has_arity 0 argv
    exists ← gets (λ w. w.sentinel)
    if exists
        then pure (atom "false")
        else (do modify (λ w. record w { sentinel = true }); pure (atom "true"))

  -- The version is asked for before the arity is checked.
  unfoldable pub erlfdb_get_max_api_version : List Term → Nif Term
  erlfdb_get_max_api_version argv = do
    vsn ← ask ext.int64 get_max_api_version
    has_arity 0 argv
    pure (int vsn)

  unfoldable pub erlfdb_select_api_version : List Term → Nif Term
  erlfdb_select_api_version argv = do
    in_state loaded
    has_arity 1 argv
    vsn ← decode (get_int (arg argv 0))
    err ← ask ext.error (select_api_version vsn)
    if is_zero err then (do modify (set_lib_state api_selected); pure atom_ok) else erlang_error err

  unfoldable pub apply_network_option : NetworkOption → Term → Nif Term
  apply_network_option option term = do
    value ← decode (inspect_binary term)
    err ← ask ext.error (network_set_option option value)
    if is_zero err then pure atom_ok else erlang_error err

  -- Before 7.3 an `ignore_external_client_failures` returns ok at once.
  unfoldable pub is_ignored : ℕ → NetworkOption → Bool
  is_ignored api NetworkOption.ignore_external_client_failures = not (leb 730 api)
  is_ignored api _ = false

  unfoldable pub erlfdb_network_set_option : ℕ → List Term → Nif Term
  erlfdb_network_set_option api argv = do
    in_state api_selected
    has_arity 2 argv
    option ← decode (select (network_branches api) (arg argv 0))
    if is_ignored api option then pure atom_ok else apply_network_option option (arg argv 1)

  unfoldable pub erlfdb_setup_network : List Term → Nif Term
  erlfdb_setup_network argv = do
    in_state api_selected
    has_arity 0 argv
    err ← ask ext.error setup_network
    if is_zero err
        then (do
          failed ← ask ext.error thread_create
          if is_zero failed
              then (do
                (λ w. waited (wait_for_network 8 w) w)
                modify (set_lib_state connected)
                pure atom_ok)
              else make_badarg)
        else erlang_error err

  -- erlfdb_get_error and erlfdb_error_predicate do not look at the library's state.
  unfoldable pub erlfdb_get_error : List Term → Nif Term
  erlfdb_get_error argv = do
    has_arity 1 argv
    err ← decode (get_int (arg argv 0))
    text ← ask ext.text (error_text err)
    message ← decode text
    pure (binary message)

  unfoldable pub erlfdb_error_predicate : List Term → Nif Term
  erlfdb_error_predicate argv = do
    has_arity 2 argv
    predicate ← decode (select predicate_branches (arg argv 0))
    err ← decode (get_int (arg argv 1))
    holds ← ask ext.holds (error_predicate predicate err)
    pure (make_boolean holds)
