-- ===== src/Refusal/Numbers.antt =====
-- The number of arguments that each NIF of c_src/main.c takes.
use erlfdb.Base.{ℕ}
use erlfdb.Dispatch.{Function}

abbrev pub arity : Function → ℕ
arity Function.can_initialize = 0
arity Function.get_max_api_version = 0
arity Function.select_api_version = 1
arity Function.network_set_option = 2
arity Function.setup_network = 0
arity Function.future_cancel = 1
arity Function.future_silence = 1
arity Function.future_is_ready = 1
arity Function.future_get_error = 1
arity Function.future_get = 1
arity Function.create_database = 1
arity Function.database_set_option = 3
arity Function.database_open_tenant = 2
arity Function.database_create_transaction = 1
arity Function.database_get_main_thread_busyness = 1
arity Function.database_get_client_status = 1
arity Function.tenant_create_transaction = 1
arity Function.transaction_set_option = 3
arity Function.transaction_set_read_version = 2
arity Function.transaction_get_read_version = 1
arity Function.transaction_get = 3
arity Function.transaction_get_key = 3
arity Function.transaction_get_addresses_for_key = 2
arity Function.transaction_get_range = 9
arity Function.transaction_get_range_split_points = 4
arity Function.transaction_get_mapped_range = 10
arity Function.transaction_set = 3
arity Function.transaction_clear = 2
arity Function.transaction_clear_range = 3
arity Function.transaction_atomic_op = 4
arity Function.transaction_commit = 1
arity Function.transaction_get_committed_version = 1
arity Function.transaction_get_versionstamp = 2
arity Function.transaction_watch = 3
arity Function.transaction_on_error = 2
arity Function.transaction_reset = 1
arity Function.transaction_cancel = 1
arity Function.transaction_add_conflict_range = 4
arity Function.transaction_get_approximate_size = 1
arity Function.transaction_get_next_tx_id = 1
arity Function.transaction_is_read_only = 1
arity Function.transaction_has_watches = 1
arity Function.transaction_get_writes_allowed = 1
arity Function.transaction_get_estimated_range_size = 3
arity Function.get_error = 1
arity Function.error_predicate = 2
