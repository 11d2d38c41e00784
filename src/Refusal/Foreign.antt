-- ===== src/Refusal/Foreign.antt =====
-- `erlfdb_transaction_is_owner`: a transaction serves the process that created it only.
use erlfdb.Base.{ℕ, true, ◌≡◌, ◌≢◌, refl, some, List, leb, arith}
use erlfdb.Term.{Term, resource}
use erlfdb.Extern.{Extern}
use erlfdb.World.{World, Object, Transaction, Env}
use erlfdb.Nif.{badarg, arg}
use erlfdb.Ends.{Ends, Ends-if, Ends-make_badarg, Ends-assoc}
use erlfdb.Ends.Guards.{Owns, Ends-owned}
use erlfdb.Owned.{writable}
use erlfdb.Dispatch.{Function, invoke}
use erlfdb.Transaction
use erlfdb.Transaction.Read
use erlfdb.Refusal.{Refused, on_transaction}

module _ (ext : Extern) (api : ℕ) (env : Env) where
  module _ {w : World} (argv : List Term) {i n : ℕ} {t : Transaction} (m : arg argv 0 ≡ resource i)
      (found : w.cell i ≡ some (record { object = Object.transaction t; count = n }))
      (foreign : t.owner ≢ env.self) where
    stranger : (j : ℕ) (u : Transaction) → Owns env argv w j u → ⊥
    stranger j u o = foreign (ground (arith, m, found, o.named, o.found, o.owner))

    foreign-Ends :
        (f : Function) → on_transaction f ≡ true → Ends (Refused w) (invoke ext api env f argv) w
    unfolding invoke writable Transaction.erlfdb_transaction_set_option
        Transaction.erlfdb_transaction_set_read_version Read.erlfdb_transaction_get_read_version
        Read.erlfdb_transaction_get Read.erlfdb_transaction_get_key
        Read.erlfdb_transaction_get_addresses_for_key Read.erlfdb_transaction_get_range
        Read.erlfdb_transaction_get_range_split_points Read.erlfdb_transaction_get_mapped_range
        Transaction.erlfdb_transaction_set Transaction.erlfdb_transaction_clear
        Transaction.erlfdb_transaction_clear_range Transaction.erlfdb_transaction_atomic_op
        Read.erlfdb_transaction_commit Transaction.erlfdb_transaction_get_committed_version
        Read.erlfdb_transaction_get_versionstamp Read.erlfdb_transaction_watch
        Read.erlfdb_transaction_on_error Transaction.erlfdb_transaction_reset
        Transaction.erlfdb_transaction_cancel Transaction.erlfdb_transaction_add_conflict_range
        Read.erlfdb_transaction_get_approximate_size Transaction.erlfdb_transaction_get_next_tx_id
        Transaction.erlfdb_transaction_is_read_only Transaction.erlfdb_transaction_has_watches
        Transaction.erlfdb_transaction_get_writes_allowed
        Read.erlfdb_transaction_get_estimated_range_size Read.mapped_range
    foreign-Ends Function.can_initialize e = cc
    foreign-Ends Function.get_max_api_version e = cc
    foreign-Ends Function.select_api_version e = cc
    foreign-Ends Function.network_set_option e = cc
    foreign-Ends Function.setup_network e = cc
    foreign-Ends Function.future_cancel e = cc
    foreign-Ends Function.future_silence e = cc
    foreign-Ends Function.future_is_ready e = cc
    foreign-Ends Function.future_get_error e = cc
    foreign-Ends Function.future_get e = cc
    foreign-Ends Function.create_database e = cc
    foreign-Ends Function.database_set_option e = cc
    foreign-Ends Function.database_open_tenant e = cc
    foreign-Ends Function.database_create_transaction e = cc
    foreign-Ends Function.database_get_main_thread_busyness e = cc
    foreign-Ends Function.database_get_client_status e = cc
    foreign-Ends Function.tenant_create_transaction e = cc
    foreign-Ends Function.transaction_set_option e =
        Ends-owned env _ argv _ (refl, refl) λ j u o. absurd (stranger j u o)
    foreign-Ends Function.transaction_set_read_version e =
        Ends-owned env _ argv _ (refl, refl) λ j u o. absurd (stranger j u o)
    foreign-Ends Function.transaction_get_read_version e =
        Ends-owned env _ argv _ (refl, refl) λ j u o. absurd (stranger j u o)
    foreign-Ends Function.transaction_get e =
        Ends-owned env _ argv _ (refl, refl) λ j u o. absurd (stranger j u o)
    foreign-Ends Function.transaction_get_key e =
        Ends-owned env _ argv _ (refl, refl) λ j u o. absurd (stranger j u o)
    foreign-Ends Function.transaction_get_addresses_for_key e =
        Ends-owned env _ argv _ (refl, refl) λ j u o. absurd (stranger j u o)
    foreign-Ends Function.transaction_get_range e =
        Ends-owned env _ argv _ (refl, refl) λ j u o. absurd (stranger j u o)
    foreign-Ends Function.transaction_get_range_split_points e =
        Ends-owned env _ argv _ (refl, refl) λ j u o. absurd (stranger j u o)
    foreign-Ends Function.transaction_get_mapped_range e =
        Ends-if (leb 730 api) _ _
          (λ _. Ends-owned env _ argv _ (refl, refl) λ j u o. absurd (stranger j u o))
          (λ _. Ends-make_badarg (refl, refl))
    foreign-Ends Function.transaction_set e =
        Ends-assoc _ _ _ (Ends-owned env _ argv _ (refl, refl) λ j u o. absurd (stranger j u o))
    foreign-Ends Function.transaction_clear e =
        Ends-assoc _ _ _ (Ends-owned env _ argv _ (refl, refl) λ j u o. absurd (stranger j u o))
    foreign-Ends Function.transaction_clear_range e =
        Ends-assoc _ _ _ (Ends-owned env _ argv _ (refl, refl) λ j u o. absurd (stranger j u o))
    foreign-Ends Function.transaction_atomic_op e =
        Ends-assoc _ _ _ (Ends-owned env _ argv _ (refl, refl) λ j u o. absurd (stranger j u o))
    foreign-Ends Function.transaction_commit e =
        Ends-owned env _ argv _ (refl, refl) λ j u o. absurd (stranger j u o)
    foreign-Ends Function.transaction_get_committed_version e =
        Ends-owned env _ argv _ (refl, refl) λ j u o. absurd (stranger j u o)
    foreign-Ends Function.transaction_get_versionstamp e =
        Ends-owned env _ argv _ (refl, refl) λ j u o. absurd (stranger j u o)
    foreign-Ends Function.transaction_watch e =
        Ends-assoc _ _ _ (Ends-owned env _ argv _ (refl, refl) λ j u o. absurd (stranger j u o))
    foreign-Ends Function.transaction_on_error e =
        Ends-owned env _ argv _ (refl, refl) λ j u o. absurd (stranger j u o)
    foreign-Ends Function.transaction_reset e =
        Ends-owned env _ argv _ (refl, refl) λ j u o. absurd (stranger j u o)
    foreign-Ends Function.transaction_cancel e =
        Ends-owned env _ argv _ (refl, refl) λ j u o. absurd (stranger j u o)
    foreign-Ends Function.transaction_add_conflict_range e =
        Ends-owned env _ argv _ (refl, refl) λ j u o. absurd (stranger j u o)
    foreign-Ends Function.transaction_get_approximate_size e =
        Ends-owned env _ argv _ (refl, refl) λ j u o. absurd (stranger j u o)
    foreign-Ends Function.transaction_get_next_tx_id e =
        Ends-owned env _ argv _ (refl, refl) λ j u o. absurd (stranger j u o)
    foreign-Ends Function.transaction_is_read_only e =
        Ends-owned env _ argv _ (refl, refl) λ j u o. absurd (stranger j u o)
    foreign-Ends Function.transaction_has_watches e =
        Ends-owned env _ argv _ (refl, refl) λ j u o. absurd (stranger j u o)
    foreign-Ends Function.transaction_get_writes_allowed e =
        Ends-owned env _ argv _ (refl, refl) λ j u o. absurd (stranger j u o)
    foreign-Ends Function.transaction_get_estimated_range_size e =
        Ends-owned env _ argv _ (refl, refl) λ j u o. absurd (stranger j u o)
    foreign-Ends Function.get_error e = cc
    foreign-Ends Function.error_predicate e = cc

    -- Every NIF on a transaction answers badarg, and changes nothing and makes no call, where the
    -- transaction in its first argument is owned by another process.
    pub invoke_foreign :
        (f : Function) → on_transaction f ≡ true → invoke ext api env f argv w ≡ (badarg, w)
    invoke_foreign f e = let r = (foreign-Ends f e).at in λ i. (r.0 i, r.1 i)
