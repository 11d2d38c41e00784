-- ===== src/Invariant/Library.antt =====
-- The NIFs on the library, on databases and on futures keep every invariant.
use erlfdb.Base.{ℕ, String, true, none, ◌≡◌, refl, sym, subst, ◌≢◌, List, arith}
use erlfdb.Term.{Term, atom, resource, make_tuple2}
use erlfdb.Extern.{Call, Extern, NetworkOption}
use erlfdb.World.{
  World, LibState, loaded, api_selected, network_starting, connected, FutureType, ft_none, Object,
  Env,
}
use erlfdb.Nif.{◌>>=◌, ◌>>◌, gets, modify, pure, atom_ok, same_state}
use erlfdb.Ends.{
  Ends, Ends-pure, Ends-decode, Ends-ask, Ends-if, Ends-error, Ends-tell, Ends-check, Ends-in_state,
  Ends-has_arity, Ends-gets, Ends-modify, Ends-make_badarg, Ends-entry,
}
use erlfdb.Ends.Guards.{Ends-database_of, Ends-tenant_of}
use erlfdb.Resource.{alloc_resource, make_resource, release_resource}
use erlfdb.Network
use erlfdb.Network.{apply_network_option, waited}
use erlfdb.Network.Threads.{set_lib_state, network_thread, wait_for_network}
use erlfdb.Network.Waiting.{wait_for_network_lem}
use erlfdb.Database
use erlfdb.Database.{give_resource, start_transaction, client_status, new_transaction}
use erlfdb.Future.{create_future}
use erlfdb.Invariant.Changes.{IsInvariant, Kept, IsNew, Edge, select, start, connect}

ruleset following = (
  Ends-decode, Ends-ask, Ends-if, Ends-error, Ends-pure, Ends-check, Ends-tell, Ends-in_state,
  Ends-has_arity, Ends-make_badarg, Ends-entry, Ends-database_of, Ends-tenant_of,
)

is_value : FutureType.ft_value ≢ ft_none
is_value e = cc

same_state-eq : (s t : LibState) → same_state s t ≡ true → s ≡ t
same_state-eq s t h = ground arith

module _ (ext : Extern) (env : Env) {P : World → Type 0} (inv : IsInvariant ext env P) where
  open inv use {on_log, on_sentinel, on_edge, on_give, on_future, on_silence, on_cancel}

  pub get_max_api_version_lem :
      (argv : List Term) {w : World}
      → P w
      → Ends (Kept P) (Network.erlfdb_get_max_api_version ext argv) w
  unfolding Network.erlfdb_get_max_api_version
  get_max_api_version_lem argv h = search (following, on_log) depth 12

  pub get_error_lem :
      (argv : List Term) {w : World} → P w → Ends (Kept P) (Network.erlfdb_get_error ext argv) w
  unfolding Network.erlfdb_get_error
  get_error_lem argv h = search (following, on_log) depth 12

  pub error_predicate_lem :
      (argv : List Term) {w : World}
      → P w
      → Ends (Kept P) (Network.erlfdb_error_predicate ext argv) w
  unfolding Network.erlfdb_error_predicate
  error_predicate_lem argv h = search (following, on_log) depth 12

  apply_network_option_lem :
      (option : NetworkOption) (term : Term) {w : World}
      → P w
      → Ends (Kept P) (apply_network_option ext option term) w
  unfolding apply_network_option
  apply_network_option_lem option term h = search (following, on_log) depth 12

  pub network_set_option_lem :
      (api : ℕ) (argv : List Term) {w : World}
      → P w
      → Ends (Kept P) (Network.erlfdb_network_set_option ext api argv) w
  unfolding Network.erlfdb_network_set_option
  network_set_option_lem api argv h = search (following, apply_network_option_lem) depth 12

  marked_lem :
      {w : World}
      → P w
      → Ends (Kept P) (do modify (λ v. record v { sentinel = true }); pure (atom "true")) w
  marked_lem h = Ends-modify _ _ (Ends-pure _ (on_sentinel h))

  pub can_initialize_lem :
      (argv : List Term) {w : World}
      → P w
      → Ends (Kept P) (Network.erlfdb_can_initialize ext argv) w
  unfolding Network.erlfdb_can_initialize
  can_initialize_lem argv h = search (following, Ends-gets, marked_lem) depth 12

  selected_lem :
      {w : World}
      → same_state w.lib_state loaded ≡ true
      → P w
      → Ends (Kept P) (do modify (set_lib_state api_selected); pure atom_ok) w
  selected_lem {w} e h = Ends-modify _ _ (
      Ends-pure _ (
        on_edge api_selected
          (subst (λ s. Edge s api_selected) (sym (same_state-eq w.lib_state loaded e)) select) h))

  pub select_api_version_lem :
      (argv : List Term) {w : World}
      → P w
      → Ends (Kept P) (Network.erlfdb_select_api_version ext argv) w
  unfolding Network.erlfdb_select_api_version
  select_api_version_lem argv h = search (following, on_log, selected_lem) depth 12

  connected_lem :
      {w : World}
      → same_state w.lib_state api_selected ≡ true
      → P w
      → Ends
          (Kept P)
          (do
            (λ v. waited (wait_for_network 8 v) v)
            modify (set_lib_state connected)
            pure atom_ok)
          w
  unfolding network_thread ◌>>=◌ modify
  connected_lem {w} e h =
      let s = same_state-eq w.lib_state api_selected e in
      record {
        at =
            rw (wait_for_network_lem w s, ◌>>=◌)
              (on_edge connected connect (on_log _ (on_edge network_starting (rw s start) h)));
      }

  pub setup_network_lem :
      (argv : List Term) {w : World} → P w → Ends (Kept P) (Network.erlfdb_setup_network ext argv) w
  unfolding Network.erlfdb_setup_network
  setup_network_lem argv h = search (following, on_log, connected_lem) depth 12

  given_lem :
      (tag : String) (o : Object) {w : World}
      → IsNew env o
      → P w
      → Ends
          (Kept P)
          (do
            i ← gets (λ v. v.next)
            modify (alloc_resource o)
            modify (make_resource i)
            modify (release_resource i)
            pure (make_tuple2 (atom tag) (resource i)))
          w
  given_lem tag o {w} n h = Ends-gets _ _ λ i e. Ends-modify _ _ (
      Ends-modify _ _ (
        Ends-modify _ _ (
          Ends-pure _ (
            subst (λ j. P (release_resource j (make_resource j (alloc_resource o w)))) (sym e)
              (on_give o n h)))))

  give_resource_lem :
      (tag : String) (o : Object) (c : Call) {w : World}
      → IsNew env o
      → P w
      → Ends (Kept P) (give_resource ext env tag o c) w
  unfolding give_resource
  give_resource_lem tag o c n h = search (following, on_log, given_lem) depth 12

  pub create_database_lem :
      (argv : List Term) {w : World}
      → P w
      → Ends (Kept P) (Database.erlfdb_create_database ext env argv) w
  unfolding Database.erlfdb_create_database
  create_database_lem argv h =
      search (following, on_log, give_resource_lem, IsNew.new_database) depth 12

  pub open_tenant_lem :
      (argv : List Term) {w : World}
      → P w
      → Ends (Kept P) (Database.erlfdb_database_open_tenant ext env argv) w
  unfolding Database.erlfdb_database_open_tenant
  open_tenant_lem argv h = search (following, on_log, give_resource_lem, IsNew.new_tenant) depth 12

  new_tx_lem : (t : ℕ) → IsNew env (Object.transaction (new_transaction env t))
  new_tx_lem t = IsNew.new_tx t refl

  start_transaction_lem :
      (c : Call) {w : World} → P w → Ends (Kept P) (start_transaction ext env c) w
  unfolding start_transaction
  start_transaction_lem c h = search (following, on_log, give_resource_lem, new_tx_lem) depth 12

  pub database_set_option_lem :
      (argv : List Term) {w : World}
      → P w
      → Ends (Kept P) (Database.erlfdb_database_set_option ext env argv) w
  unfolding Database.erlfdb_database_set_option
  database_set_option_lem argv h = search (following, on_log) depth 12

  pub database_get_main_thread_busyness_lem :
      (argv : List Term) {w : World}
      → P w
      → Ends (Kept P) (Database.erlfdb_database_get_main_thread_busyness ext env argv) w
  unfolding Database.erlfdb_database_get_main_thread_busyness
  database_get_main_thread_busyness_lem argv h = search (following, on_log) depth 12

  pub database_create_transaction_lem :
      (argv : List Term) {w : World}
      → P w
      → Ends (Kept P) (Database.erlfdb_database_create_transaction ext env argv) w
  unfolding Database.erlfdb_database_create_transaction
  database_create_transaction_lem argv h = search (following, start_transaction_lem) depth 12

  pub tenant_create_transaction_lem :
      (argv : List Term) {w : World}
      → P w
      → Ends (Kept P) (Database.erlfdb_tenant_create_transaction ext env argv) w
  unfolding Database.erlfdb_tenant_create_transaction
  tenant_create_transaction_lem argv h = search (following, start_transaction_lem) depth 12

  new_future_lem :
      (fut : ℕ) {w : World}
      → P w
      → Ends (Kept P) (create_future ext env none none fut FutureType.ft_value) w
  new_future_lem fut h = record {
    at = on_future none none fut _ is_value (λ j n u e. absurd (cc e)) h;
  }

  pub client_status_lem :
      (argv : List Term) {w : World} → P w → Ends (Kept P) (Database.client_status ext env argv) w
  unfolding Database.client_status
  client_status_lem argv h = search (following, on_log, new_future_lem) depth 12

  pub get_client_status_lem :
      (api : ℕ) (argv : List Term) {w : World}
      → P w
      → Ends (Kept P) (Database.erlfdb_database_get_client_status ext env api argv) w
  unfolding Database.erlfdb_database_get_client_status
  get_client_status_lem api argv h =
      Ends-if _ _ _ (λ _. client_status_lem argv h) (λ _. Ends-make_badarg h)
