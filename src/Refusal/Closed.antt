-- ===== src/Refusal/Closed.antt =====
-- `st->lib_state != ErlFDB_CONNECTED`: no function that needs the network runs before it does.
use erlfdb.Base.{ℕ, true, ◌≡◌, ◌≢◌, refl, List, leb}
use erlfdb.Term.{Term}
use erlfdb.Extern.{Extern}
use erlfdb.World.{World, LibState, Env}
use erlfdb.Nif.{badarg}
use erlfdb.Ends.{Ends, Ends-entry, Ends-if, Ends-make_badarg, Ends-assoc}
use erlfdb.Ends.Guards.{Ends-owned, Ends-future_of, Ends-database_of, Ends-tenant_of}
use erlfdb.Owned.{writable}
use erlfdb.Dispatch.{Function, invoke}
use erlfdb.Database
use erlfdb.Future
use erlfdb.Transaction
use erlfdb.Transaction.Read
use erlfdb.Refusal.{Refused, needs_network}

module _ (ext : Extern) (api : ℕ) (env : Env) where
  module _ {w : World} (off : w.lib_state ≢ LibState.connected) where
    closed-Ends :
        (f : Function) (argv : List Term)
        → needs_network f ≡ true
        → Ends (Refused w) (invoke ext api env f argv) w
    unfolding invoke writable Future.erlfdb_future_cancel Future.erlfdb_future_silence
        Future.erlfdb_future_is_ready Future.erlfdb_future_get_error Future.erlfdb_future_get
        Database.erlfdb_create_database Database.erlfdb_database_set_option
        Database.erlfdb_database_open_tenant Database.erlfdb_database_create_transaction
        Database.erlfdb_database_get_main_thread_busyness Database.erlfdb_database_get_client_status
        Database.erlfdb_tenant_create_transaction Transaction.erlfdb_transaction_set_option
        Transaction.erlfdb_transaction_set_read_version Read.erlfdb_transaction_get_read_version
        Read.erlfdb_transaction_get Read.erlfdb_transaction_get_key
        Read.erlfdb_transaction_get_addresses_for_key Read.erlfdb_transaction_get_range
        Read.erlfdb_transaction_get_range_split_points Read.erlfdb_transaction_get_mapped_range
        Transaction.erlfdb_transaction_set Transaction.erlfdb_transaction_clear
        Transaction.erlfdb_transaction_clear_range Transaction.erlfdb_transaction_atomic_op
        Read.erlfdb_transaction_commit Transaction.erlfdb_transaction_get_committed_version
        Read.erlfdb_transaction_get_versionstamp Read.erlfdb_transaction_watch
        Read.erlfdb_transaction_on_error Transaction.erlfdb_transaction_reset
        Transaction.erlfdb_transaction_cancel Transaction.erlfdb_transaction_add_conflict_range
        Read.erlfdb_transaction_get_approximate_size Transaction.erlfdb_transaction_get_next_tx_id
        Transaction.erlfdb_transaction_is_read_only Transaction.erlfdb_transaction_has_watches
        Transaction.erlfdb_transaction_get_writes_allowed
        Read.erlfdb_transaction_get_estimated_range_size Database.client_status Read.mapped_range
    closed-Ends Function.can_initialize argv e = cc
    closed-Ends Function.get_max_api_version argv e = cc
    closed-Ends Function.select_api_version argv e = cc
    closed-Ends Function.network_set_option argv e = cc
    closed-Ends Function.setup_network argv e = cc
    closed-Ends Function.future_cancel argv e =
        Ends-future_of env argv _ (refl, refl) λ _ _ _ c _. absurd (off c)
    closed-Ends Function.future_silence argv e =
        Ends-future_of env argv _ (refl, refl) λ _ _ _ c _. absurd (off c)
    closed-Ends Function.future_is_ready argv e =
        Ends-future_of env argv _ (refl, refl) λ _ _ _ c _. absurd (off c)
    closed-Ends Function.future_get_error argv e =
        Ends-future_of env argv _ (refl, refl) λ _ _ _ c _. absurd (off c)
    closed-Ends Function.future_get argv e =
        Ends-future_of env argv _ (refl, refl) λ _ _ _ c _. absurd (off c)
    closed-Ends Function.create_database argv e =
        Ends-entry 1 argv _ (refl, refl) λ c. absurd (off c)
    closed-Ends Function.database_set_option argv e =
        Ends-database_of _ argv _ (refl, refl) λ _ _ c. absurd (off c)
    closed-Ends Function.database_open_tenant argv e =
        Ends-database_of _ argv _ (refl, refl) λ _ _ c. absurd (off c)
    closed-Ends Function.database_create_transaction argv e =
        Ends-database_of _ argv _ (refl, refl) λ _ _ c. absurd (off c)
    closed-Ends Function.database_get_main_thread_busyness argv e =
        Ends-database_of _ argv _ (refl, refl) λ _ _ c. absurd (off c)
    closed-Ends Function.database_get_client_status argv e =
        Ends-if (leb 730 api) _ _
          (λ _. Ends-database_of _ argv _ (refl, refl) λ _ _ c. absurd (off c))
          (λ _. Ends-make_badarg (refl, refl))
    closed-Ends Function.tenant_create_transaction argv e =
        Ends-tenant_of _ argv _ (refl, refl) λ _ _ c. absurd (off c)
    closed-Ends Function.transaction_set_option argv e =
        Ends-owned env _ argv _ (refl, refl) λ _ _ o. absurd (off o.connected)
    closed-Ends Function.transaction_set_read_version argv e =
        Ends-owned env _ argv _ (refl, refl) λ _ _ o. absurd (off o.connected)
    closed-Ends Function.transaction_get_read_version argv e =
        Ends-owned env _ argv _ (refl, refl) λ _ _ o. absurd (off o.connected)
    closed-Ends Function.transaction_get argv e =
        Ends-owned env _ argv _ (refl, refl) λ _ _ o. absurd (off o.connected)
    closed-Ends Function.transaction_get_key argv e =
        Ends-owned env _ argv _ (refl, refl) λ _ _ o. absurd (off o.connected)
    closed-Ends Function.transaction_get_addresses_for_key argv e =
        Ends-owned env _ argv _ (refl, refl) λ _ _ o. absurd (off o.connected)
    closed-Ends Function.transaction_get_range argv e =
        Ends-owned env _ argv _ (refl, refl) λ _ _ o. absurd (off o.connected)
    closed-Ends Function.transaction_get_range_split_points argv e =
        Ends-owned env _ argv _ (refl, refl) λ _ _ o. absurd (off o.connected)
    closed-Ends Function.transaction_get_mapped_range argv e =
        Ends-if (leb 730 api) _ _
          (λ _. Ends-owned env _ argv _ (refl, refl) λ _ _ o. absurd (off o.connected))
          (λ _. Ends-make_badarg (refl, refl))
    closed-Ends Function.transaction_set argv e =
        Ends-assoc _ _ _ (Ends-owned env _ argv _ (refl, refl) λ _ _ o. absurd (off o.connected))
    closed-Ends Function.transaction_clear argv e =
        Ends-assoc _ _ _ (Ends-owned env _ argv _ (refl, refl) λ _ _ o. absurd (off o.connected))
    closed-Ends Function.transaction_clear_range argv e =
        Ends-assoc _ _ _ (Ends-owned env _ argv _ (refl, refl) λ _ _ o. absurd (off o.connected))
    closed-Ends Function.transaction_atomic_op argv e =
        Ends-assoc _ _ _ (Ends-owned env _ argv _ (refl, refl) λ _ _ o. absurd (off o.connected))
    closed-Ends Function.transaction_commit argv e =
        Ends-owned env _ argv _ (refl, refl) λ _ _ o. absurd (off o.connected)
    closed-Ends Function.transaction_get_committed_version argv e =
        Ends-owned env _ argv _ (refl, refl) λ _ _ o. absurd (off o.connected)
    closed-Ends Function.transaction_get_versionstamp argv e =
        Ends-owned env _ argv _ (refl, refl) λ _ _ o. absurd (off o.connected)
    closed-Ends Function.transaction_watch argv e =
        Ends-assoc _ _ _ (Ends-owned env _ argv _ (refl, refl) λ _ _ o. absurd (off o.connected))
    closed-Ends Function.transaction_on_error argv e =
        Ends-owned env _ argv _ (refl, refl) λ _ _ o. absurd (off o.connected)
    closed-Ends Function.transaction_reset argv e =
        Ends-owned env _ argv _ (refl, refl) λ _ _ o. absurd (off o.connected)
    closed-Ends Function.transaction_cancel argv e =
        Ends-owned env _ argv _ (refl, refl) λ _ _ o. absurd (off o.connected)
    closed-Ends Function.transaction_add_conflict_range argv e =
        Ends-owned env _ argv _ (refl, refl) λ _ _ o. absurd (off o.connected)
    closed-Ends Function.transaction_get_approximate_size argv e =
        Ends-owned env _ argv _ (refl, refl) λ _ _ o. absurd (off o.connected)
    closed-Ends Function.transaction_get_next_tx_id argv e =
        Ends-owned env _ argv _ (refl, refl) λ _ _ o. absurd (off o.connected)
    closed-Ends Function.transaction_is_read_only argv e =
        Ends-owned env _ argv _ (refl, refl) λ _ _ o. absurd (off o.connected)
    closed-Ends Function.transaction_has_watches argv e =
        Ends-owned env _ argv _ (refl, refl) λ _ _ o. absurd (off o.connected)
    closed-Ends Function.transaction_get_writes_allowed argv e =
        Ends-owned env _ argv _ (refl, refl) λ _ _ o. absurd (off o.connected)
    closed-Ends Function.transaction_get_estimated_range_size argv e =
        Ends-owned env _ argv _ (refl, refl) λ _ _ o. absurd (off o.connected)
    closed-Ends Function.get_error argv e = cc
    closed-Ends Function.error_predicate argv e = cc

    -- Every NIF on a future, a database, a tenant or a transaction, and the one that opens a
    -- database, answers badarg, changes nothing and makes no call before the library is connected.
    pub invoke_closed :
        (f : Function) (argv : List Term)
        → needs_network f ≡ true
        → invoke ext api env f argv w ≡ (badarg, w)
    invoke_closed f argv e = let r = (closed-Ends f argv e).at in λ i. (r.0 i, r.1 i)
