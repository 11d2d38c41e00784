-- ===== src/Options.antt =====
-- The else-if chains of c_src/main.c that turn an atom into an enumerator, each as the list of its
-- branches in order. `api` is FDB_API_VERSION, which decides what the preprocessor keeps.
use erlfdb.Base.{ℕ, String, Bool, Option, none, some, List, [], ◌∷◌, ◌++◌, leb, ltb, if◌then◌else◌}
use erlfdb.Term.{Term, is_atom, get_int}
use erlfdb.Extern.{
  NetworkOption, DatabaseOption, TransactionOption, MutationType, StreamingMode, ConflictRangeType,
  ErrorPredicate,
}

-- The branches `if (IS_ATOM(term, name)) option = …; else if …`, of which the first that fits is
-- taken.
unfoldable pub select : {A : Type 0} → List (String × A) → Term → Option A
unfolding is_atom
select [] term = none
select ((name, a) ∷ branches) term = if is_atom term name then some a else select branches term

abbrev pub when : {A : Type 0} → Bool → List A → List A
when b branches = if b then branches else []

unfoldable pub network_branches : ℕ → List (String × NetworkOption)
network_branches api =
    ("local_address", NetworkOption.local_address)
    ∷ ("cluster_file", NetworkOption.cluster_file)
    ∷ ("trace_enable", NetworkOption.trace_enable)
    ∷ ("trace_format", NetworkOption.trace_format)
    ∷ ("trace_roll_size", NetworkOption.trace_roll_size)
    ∷ ("trace_max_logs_size", NetworkOption.trace_max_logs_size)
    ∷ ("trace_log_group", NetworkOption.trace_log_group)
    ∷ ("knob", NetworkOption.knob)
    ∷ ("tls_plugin", NetworkOption.tls_plugin)
    ∷ ("tls_cert_bytes", NetworkOption.tls_cert_bytes)
    ∷ ("tls_cert_path", NetworkOption.tls_cert_path)
    ∷ ("tls_key_bytes", NetworkOption.tls_key_bytes)
    ∷ ("tls_key_path", NetworkOption.tls_key_path)
    ∷ ("tls_verify_peers", NetworkOption.tls_verify_peers)
    ∷ ("client_buggify_enable", NetworkOption.client_buggify_enable)
    ∷ ("client_buggify_disable", NetworkOption.client_buggify_disable)
    ∷ (
      "client_buggify_section_activated_probability",
      NetworkOption.client_buggify_section_activated_probability,
    )
    ∷ (
      "client_buggify_section_fired_probability",
      NetworkOption.client_buggify_section_fired_probability,
    )
    ∷ ("tls_ca_bytes", NetworkOption.tls_ca_bytes)
    ∷ ("tls_password", NetworkOption.tls_password)
    ∷ ("disable_multi_version_client_api", NetworkOption.disable_multi_version_client_api)
    ∷ ("callbacks_on_external_threads", NetworkOption.callbacks_on_external_threads)
    ∷ ("external_client_library", NetworkOption.external_client_library)
    ∷ ("external_client_directory", NetworkOption.external_client_directory)
    ∷ ("disable_local_client", NetworkOption.disable_local_client)
    ∷ ("disable_client_statistics_logging", NetworkOption.disable_client_statistics_logging)
    ∷ ("enable_slow_task_profiling", NetworkOption.enable_slow_task_profiling)
    ∷ (when (leb 630 api) (
          ("enable_run_loop_profiling", NetworkOption.enable_run_loop_profiling)
          ∷ ("client_threads_per_version", NetworkOption.client_threads_per_version)
          ∷ [])
        ++ ("ignore_external_client_failures", NetworkOption.ignore_external_client_failures) ∷ [])

unfoldable pub database_branches : List (String × DatabaseOption)
database_branches =
    ("location_cache_size", DatabaseOption.location_cache_size)
    ∷ ("max_watches", DatabaseOption.max_watches)
    ∷ ("machine_id", DatabaseOption.machine_id)
    ∷ ("datacenter_id", DatabaseOption.datacenter_id)
    ∷ ("read_your_writes_enable", DatabaseOption.snapshot_ryw_enable)
    ∷ ("read_your_writes_disable", DatabaseOption.snapshot_ryw_disable)
    ∷ ("transaction_logging_max_field_length", DatabaseOption.transaction_logging_max_field_length)
    ∷ ("timeout", DatabaseOption.transaction_timeout)
    ∷ ("retry_limit", DatabaseOption.transaction_retry_limit)
    ∷ ("max_retry_delay", DatabaseOption.transaction_max_retry_delay)
    ∷ ("size_limit", DatabaseOption.transaction_size_limit)
    ∷ ("causal_read_risky", DatabaseOption.transaction_causal_read_risky)
    ∷ ("include_port_in_address", DatabaseOption.transaction_include_port_in_address)
    ∷ []

unfoldable pub transaction_branches : ℕ → List (String × TransactionOption)
transaction_branches api =
    ("causal_write_risky", TransactionOption.causal_write_risky)
    ∷ ("causal_read_risky", TransactionOption.causal_read_risky)
    ∷ ("causal_read_disable", TransactionOption.causal_read_disable)
    ∷ ("include_port_in_address", TransactionOption.include_port_in_address)
    ∷ ("next_write_no_write_conflict_range", TransactionOption.next_write_no_write_conflict_range)
    ∷ ("read_your_writes_disable", TransactionOption.read_your_writes_disable)
    ∷ ("read_ahead_disable", TransactionOption.read_ahead_disable)
    ∷ ("durability_datacenter", TransactionOption.durability_datacenter)
    ∷ ("durability_risky", TransactionOption.durability_risky)
    ∷ ("durability_dev_null_is_web_scale", TransactionOption.durability_dev_null_is_web_scale)
    ∷ ("priority_system_immediate", TransactionOption.priority_system_immediate)
    ∷ ("priority_batch", TransactionOption.priority_batch)
    ∷ ("initialize_new_database", TransactionOption.initialize_new_database)
    ∷ ("access_system_keys", TransactionOption.access_system_keys)
    ∷ ("read_system_keys", TransactionOption.read_system_keys)
    ∷ ("debug_retry_logging", TransactionOption.debug_retry_logging)
    ∷ ("transaction_logging_enable", TransactionOption.transaction_logging_enable)
    ∷ ("debug_transaction_identifier", TransactionOption.debug_transaction_identifier)
    ∷ ("log_transaction", TransactionOption.log_transaction)
    ∷ (
      "transaction_logging_max_field_length",
      TransactionOption.transaction_logging_max_field_length,
    )
    ∷ ("timeout", TransactionOption.timeout)
    ∷ ("retry_limit", TransactionOption.retry_limit)
    ∷ ("max_retry_delay", TransactionOption.max_retry_delay)
    ∷ ("snapshot_ryw_enable", TransactionOption.snapshot_ryw_enable)
    ∷ ("snapshot_ryw_disable", TransactionOption.snapshot_ryw_disable)
    ∷ ("lock_aware", TransactionOption.lock_aware)
    ∷ (
      "used_during_commit_protection_disable",
      TransactionOption.used_during_commit_protection_disable,
    )
    ∷ ("read_lock_aware", TransactionOption.read_lock_aware)
    ∷ ("size_limit", TransactionOption.size_limit)
    ∷ ("use_provisional_proxies", TransactionOption.use_provisional_proxies)
    ∷ (when (ltb 620 api)
          (("report_conflicting_keys", TransactionOption.report_conflicting_keys) ∷ [])
        ++ when (ltb 630 api) (
            ("special_key_space_enable_writes", TransactionOption.special_key_space_enable_writes)
            ∷ []))

unfoldable pub mutation_branches : List (String × MutationType)
mutation_branches =
    ("add", MutationType.add)
    ∷ ("bit_and", MutationType.bit_and)
    ∷ ("bit_or", MutationType.bit_or)
    ∷ ("bit_xor", MutationType.bit_xor)
    ∷ ("append_if_fits", MutationType.append_if_fits)
    ∷ ("max", MutationType.max)
    ∷ ("min", MutationType.min)
    ∷ ("byte_min", MutationType.byte_min)
    ∷ ("byte_max", MutationType.byte_max)
    ∷ ("set_versionstamped_key", MutationType.set_versionstamped_key)
    ∷ ("set_versionstamped_value", MutationType.set_versionstamped_value)
    ∷ []

unfoldable pub mode_branches : List (String × StreamingMode)
mode_branches =
    ("want_all", StreamingMode.want_all)
    ∷ ("iterator", StreamingMode.iterator)
    ∷ ("exact", StreamingMode.exact)
    ∷ ("small", StreamingMode.small)
    ∷ ("medium", StreamingMode.medium)
    ∷ ("large", StreamingMode.large)
    ∷ ("serial", StreamingMode.serial)
    ∷ []

-- The last branch of the chain takes any `int` for the mode.
unfoldable pub get_mode : Term → Option StreamingMode
unfolding select mode_branches get_int
get_mode term = elim (select mode_branches term) [
  | some mode ↦ some mode
  | none ↦ elim (get_int term) [ none ↦ none | some n ↦ some (StreamingMode.numbered n) ]
]

unfoldable pub conflict_branches : List (String × ConflictRangeType)
conflict_branches = ("read", ConflictRangeType.read) ∷ ("write", ConflictRangeType.write) ∷ []

unfoldable pub predicate_branches : List (String × ErrorPredicate)
predicate_branches =
    ("retryable", ErrorPredicate.retryable)
    ∷ ("maybe_committed", ErrorPredicate.maybe_committed)
    ∷ ("retryable_not_committed", ErrorPredicate.retryable_not_committed)
    ∷ []
