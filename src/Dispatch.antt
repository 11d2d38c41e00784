-- ===== src/Dispatch.antt =====
-- The table `funcs` of c_src/main.c: the functions that erlfdb_nif.erl can call, their arities and
-- what runs when one is called.
use erlfdb.Base.{ℕ, List, [], ◌∷◌, ◌++◌, leb}
use erlfdb.Term.{Term}
use erlfdb.Extern.{Extern}
use erlfdb.World.{Env}
use erlfdb.Nif.{Nif}
use erlfdb.Options.{when}
use erlfdb.Network.{
  erlfdb_can_initialize, erlfdb_get_max_api_version, erlfdb_select_api_version,
  erlfdb_network_set_option, erlfdb_setup_network, erlfdb_get_error, erlfdb_error_predicate,
}
use erlfdb.Future.{
  erlfdb_future_cancel, erlfdb_future_silence, erlfdb_future_is_ready, erlfdb_future_get_error,
  erlfdb_future_get,
}
use erlfdb.Database.{
  erlfdb_create_database, erlfdb_database_set_option, erlfdb_database_open_tenant,
  erlfdb_database_create_transaction, erlfdb_database_get_main_thread_busyness,
  erlfdb_database_get_client_status, erlfdb_tenant_create_transaction,
}
use erlfdb.Transaction.{
  erlfdb_transaction_set_option, erlfdb_transaction_set_read_version, erlfdb_transaction_set,
  erlfdb_transaction_clear, erlfdb_transaction_clear_range, erlfdb_transaction_atomic_op,
  erlfdb_transaction_get_committed_version, erlfdb_transaction_reset, erlfdb_transaction_cancel,
  erlfdb_transaction_add_conflict_range, erlfdb_transaction_get_next_tx_id,
  erlfdb_transaction_is_read_only, erlfdb_transaction_has_watches,
  erlfdb_transaction_get_writes_allowed,
}
use erlfdb.Transaction.Read.{
  erlfdb_transaction_get_read_version, erlfdb_transaction_get, erlfdb_transaction_get_key,
  erlfdb_transaction_get_addresses_for_key, erlfdb_transaction_get_range,
  erlfdb_transaction_get_range_split_points, erlfdb_transaction_get_mapped_range,
  erlfdb_transaction_commit, erlfdb_transaction_get_versionstamp, erlfdb_transaction_watch,
  erlfdb_transaction_on_error, erlfdb_transaction_get_approximate_size,
  erlfdb_transaction_get_estimated_range_size,
}

pub data Function : Type 0 where
  can_initialize get_max_api_version select_api_version network_set_option setup_network
        future_cancel future_silence future_is_ready future_get_error future_get create_database
        database_set_option database_open_tenant database_create_transaction
        database_get_main_thread_busyness database_get_client_status tenant_create_transaction
        transaction_set_option transaction_set_read_version transaction_get_read_version
        transaction_get transaction_get_key transaction_get_addresses_for_key transaction_get_range
        transaction_get_range_split_points transaction_get_mapped_range transaction_set
        transaction_clear transaction_clear_range transaction_atomic_op transaction_commit
        transaction_get_committed_version transaction_get_versionstamp transaction_watch
        transaction_on_error transaction_reset transaction_cancel transaction_add_conflict_range
        transaction_get_approximate_size transaction_get_next_tx_id transaction_is_read_only
        transaction_has_watches transaction_get_writes_allowed transaction_get_estimated_range_size
        get_error error_predicate :
      Function

-- NIF_FUNC(name, arity); `api` is FDB_API_VERSION.
unfoldable pub funcs : ℕ → List (Function × ℕ)
funcs api =
    (can_initialize, 0)
    ∷ (get_max_api_version, 0)
    ∷ (select_api_version, 1)
    ∷ (network_set_option, 2)
    ∷ (setup_network, 0)
    ∷ (future_cancel, 1)
    ∷ (future_silence, 1)
    ∷ (future_is_ready, 1)
    ∷ (future_get_error, 1)
    ∷ (future_get, 1)
    ∷ (create_database, 1)
    ∷ (database_set_option, 3)
    ∷ (database_open_tenant, 2)
    ∷ (database_create_transaction, 1)
    ∷ (database_get_main_thread_busyness, 1)
    ∷ (database_get_client_status, 1)
    ∷ (tenant_create_transaction, 1)
    ∷ (transaction_set_option, 3)
    ∷ (transaction_set_read_version, 2)
    ∷ (transaction_get_read_version, 1)
    ∷ (transaction_get, 3)
    ∷ (transaction_get_key, 3)
    ∷ (transaction_get_addresses_for_key, 2)
    ∷ (transaction_get_range, 9)
    ∷ (transaction_get_range_split_points, 4)
    ∷ (transaction_get_mapped_range, 10)
    ∷ (transaction_set, 3)
    ∷ (transaction_clear, 2)
    ∷ (transaction_clear_range, 3)
    ∷ (transaction_atomic_op, 4)
    ∷ (transaction_commit, 1)
    ∷ (transaction_get_committed_version, 1)
    ∷ (transaction_get_versionstamp, 2)
    ∷ (transaction_watch, 3)
    ∷ (transaction_on_error, 2)
    ∷ (transaction_reset, 1)
    ∷ (transaction_cancel, 1)
    ∷ (transaction_add_conflict_range, 4)
    ∷ (transaction_get_approximate_size, 1)
    ∷ (transaction_get_next_tx_id, 1)
    ∷ (transaction_is_read_only, 1)
    ∷ (transaction_has_watches, 1)
    ∷ (transaction_get_writes_allowed, 1)
    ∷ (when (leb 630 api) ((transaction_get_estimated_range_size, 3) ∷ [])
        ++ (get_error, 1) ∷ (error_predicate, 2) ∷ [])

module _ (ext : Extern) (api : ℕ) (env : Env) where
  -- The function of the third column of the table.
  unfoldable pub invoke : Function → List Term → Nif Term
  invoke can_initialize argv = erlfdb_can_initialize ext argv
  invoke get_max_api_version argv = erlfdb_get_max_api_version ext argv
  invoke select_api_version argv = erlfdb_select_api_version ext argv
  invoke network_set_option argv = erlfdb_network_set_option ext api argv
  invoke setup_network argv = erlfdb_setup_network ext argv
  invoke future_cancel argv = erlfdb_future_cancel ext env argv
  invoke future_silence argv = erlfdb_future_silence ext env argv
  invoke future_is_ready argv = erlfdb_future_is_ready ext env argv
  invoke future_get_error argv = erlfdb_future_get_error ext env argv
  invoke future_get argv = erlfdb_future_get ext env argv
  invoke create_database argv = erlfdb_create_database ext env argv
  invoke database_set_option argv = erlfdb_database_set_option ext env argv
  invoke database_open_tenant argv = erlfdb_database_open_tenant ext env argv
  invoke database_create_transaction argv = erlfdb_database_create_transaction ext env argv
  invoke database_get_main_thread_busyness argv =
      erlfdb_database_get_main_thread_busyness ext env argv
  invoke database_get_client_status argv = erlfdb_database_get_client_status ext env api argv
  invoke tenant_create_transaction argv = erlfdb_tenant_create_transaction ext env argv
  invoke transaction_set_option argv = erlfdb_transaction_set_option ext env api argv
  invoke transaction_set_read_version argv = erlfdb_transaction_set_read_version ext env argv
  invoke transaction_get_read_version argv = erlfdb_transaction_get_read_version ext env argv
  invoke transaction_get argv = erlfdb_transaction_get ext env argv
  invoke transaction_get_key argv = erlfdb_transaction_get_key ext env argv
  invoke transaction_get_addresses_for_key argv =
      erlfdb_transaction_get_addresses_for_key ext env argv
  invoke transaction_get_range argv = erlfdb_transaction_get_range ext env argv
  invoke transaction_get_range_split_points argv =
      erlfdb_transaction_get_range_split_points ext env argv
  invoke transaction_get_mapped_range argv = erlfdb_transaction_get_mapped_range ext env api argv
  invoke transaction_set argv = erlfdb_transaction_set ext env argv
  invoke transaction_clear argv = erlfdb_transaction_clear ext env argv
  invoke transaction_clear_range argv = erlfdb_transaction_clear_range ext env argv
  invoke transaction_atomic_op argv = erlfdb_transaction_atomic_op ext env argv
  invoke transaction_commit argv = erlfdb_transaction_commit ext env argv
  invoke transaction_get_committed_version argv =
      erlfdb_transaction_get_committed_version ext env argv
  invoke transaction_get_versionstamp argv = erlfdb_transaction_get_versionstamp ext env argv
  invoke transaction_watch argv = erlfdb_transaction_watch ext env argv
  invoke transaction_on_error argv = erlfdb_transaction_on_error ext env argv
  invoke transaction_reset argv = erlfdb_transaction_reset ext env argv
  invoke transaction_cancel argv = erlfdb_transaction_cancel ext env argv
  invoke transaction_add_conflict_range argv = erlfdb_transaction_add_conflict_range ext env argv
  invoke transaction_get_approximate_size argv =
      erlfdb_transaction_get_approximate_size ext env argv
  invoke transaction_get_next_tx_id argv = erlfdb_transaction_get_next_tx_id ext env argv
  invoke transaction_is_read_only argv = erlfdb_transaction_is_read_only ext env argv
  invoke transaction_has_watches argv = erlfdb_transaction_has_watches ext env argv
  invoke transaction_get_writes_allowed argv = erlfdb_transaction_get_writes_allowed ext env argv
  invoke transaction_get_estimated_range_size argv =
      erlfdb_transaction_get_estimated_range_size ext env argv
  invoke get_error argv = erlfdb_get_error ext argv
  invoke error_predicate argv = erlfdb_error_predicate ext argv
