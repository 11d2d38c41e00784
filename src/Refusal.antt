-- ===== src/Refusal.antt =====
-- Calls that the guards at the head of the NIFs of c_src/main.c refuse: badarg, and nothing has
-- changed. Which functions of the table have which guards.
pub mod Numbers
pub mod Closed
pub mod Foreign
pub mod Arity
use erlfdb.Base.{Bool, true, false, ◌≡◌}
use erlfdb.Term.{Term}
use erlfdb.World.{World}
use erlfdb.Nif.{Outcome, badarg}
use erlfdb.Dispatch.{Function}

abbrev pub Refused : World → Outcome Term → World → Type 0
Refused w r v = (r ≡ badarg) × (v ≡ w)

-- The functions that work only once the network runs, and those on a transaction.
abbrev pub needs_network : Function → Bool
needs_network Function.can_initialize = false
needs_network Function.get_max_api_version = false
needs_network Function.select_api_version = false
needs_network Function.network_set_option = false
needs_network Function.setup_network = false
needs_network Function.future_cancel = true
needs_network Function.future_silence = true
needs_network Function.future_is_ready = true
needs_network Function.future_get_error = true
needs_network Function.future_get = true
needs_network Function.create_database = true
needs_network Function.database_set_option = true
needs_network Function.database_open_tenant = true
needs_network Function.database_create_transaction = true
needs_network Function.database_get_main_thread_busyness = true
needs_network Function.database_get_client_status = true
needs_network Function.tenant_create_transaction = true
needs_network Function.transaction_set_option = true
needs_network Function.transaction_set_read_version = true
needs_network Function.transaction_get_read_version = true
needs_network Function.transaction_get = true
needs_network Function.transaction_get_key = true
needs_network Function.transaction_get_addresses_for_key = true
needs_network Function.transaction_get_range = true
needs_network Function.transaction_get_range_split_points = true
needs_network Function.transaction_get_mapped_range = true
needs_network Function.transaction_set = true
needs_network Function.transaction_clear = true
needs_network Function.transaction_clear_range = true
needs_network Function.transaction_atomic_op = true
needs_network Function.transaction_commit = true
needs_network Function.transaction_get_committed_version = true
needs_network Function.transaction_get_versionstamp = true
needs_network Function.transaction_watch = true
needs_network Function.transaction_on_error = true
needs_network Function.transaction_reset = true
needs_network Function.transaction_cancel = true
needs_network Function.transaction_add_conflict_range = true
needs_network Function.transaction_get_approximate_size = true
needs_network Function.transaction_get_next_tx_id = true
needs_network Function.transaction_is_read_only = true
needs_network Function.transaction_has_watches = true
needs_network Function.transaction_get_writes_allowed = true
needs_network Function.transaction_get_estimated_range_size = true
needs_network Function.get_error = false
needs_network Function.error_predicate = false

abbrev pub on_transaction : Function → Bool
on_transaction Function.can_initialize = false
on_transaction Function.get_max_api_version = false
on_transaction Function.select_api_version = false
on_transaction Function.network_set_option = false
on_transaction Function.setup_network = false
on_transaction Function.future_cancel = false
on_transaction Function.future_silence = false
on_transaction Function.future_is_ready = false
on_transaction Function.future_get_error = false
on_transaction Function.future_get = false
on_transaction Function.create_database = false
on_transaction Function.database_set_option = false
on_transaction Function.database_open_tenant = false
on_transaction Function.database_create_transaction = false
on_transaction Function.database_get_main_thread_busyness = false
on_transaction Function.database_get_client_status = false
on_transaction Function.tenant_create_transaction = false
on_transaction Function.transaction_set_option = true
on_transaction Function.transaction_set_read_version = true
on_transaction Function.transaction_get_read_version = true
on_transaction Function.transaction_get = true
on_transaction Function.transaction_get_key = true
on_transaction Function.transaction_get_addresses_for_key = true
on_transaction Function.transaction_get_range = true
on_transaction Function.transaction_get_range_split_points = true
on_transaction Function.transaction_get_mapped_range = true
on_transaction Function.transaction_set = true
on_transaction Function.transaction_clear = true
on_transaction Function.transaction_clear_range = true
on_transaction Function.transaction_atomic_op = true
on_transaction Function.transaction_commit = true
on_transaction Function.transaction_get_committed_version = true
on_transaction Function.transaction_get_versionstamp = true
on_transaction Function.transaction_watch = true
on_transaction Function.transaction_on_error = true
on_transaction Function.transaction_reset = true
on_transaction Function.transaction_cancel = true
on_transaction Function.transaction_add_conflict_range = true
on_transaction Function.transaction_get_approximate_size = true
on_transaction Function.transaction_get_next_tx_id = true
on_transaction Function.transaction_is_read_only = true
on_transaction Function.transaction_has_watches = true
on_transaction Function.transaction_get_writes_allowed = true
on_transaction Function.transaction_get_estimated_range_size = true
on_transaction Function.get_error = false
on_transaction Function.error_predicate = false
