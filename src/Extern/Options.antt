-- ===== src/Extern/Options.antt =====
-- The enumerators of libfdb_c that c_src/main.c names, spelled without their prefixes
-- (FDB_NET_OPTION_, FDB_DB_OPTION_, FDB_TR_OPTION_ and so on).
use erlfdb.Base.{ℤ}

pub data NetworkOption : Type 0 where
  local_address cluster_file trace_enable trace_format trace_roll_size : NetworkOption
  trace_max_logs_size trace_log_group knob tls_plugin tls_cert_bytes tls_cert_path : NetworkOption
  tls_key_bytes tls_key_path tls_verify_peers client_buggify_enable : NetworkOption
  client_buggify_disable client_buggify_section_activated_probability : NetworkOption
  client_buggify_section_fired_probability tls_ca_bytes tls_password : NetworkOption
  disable_multi_version_client_api callbacks_on_external_threads : NetworkOption
  external_client_library external_client_directory disable_local_client : NetworkOption
  disable_client_statistics_logging enable_slow_task_profiling : NetworkOption
  enable_run_loop_profiling client_threads_per_version : NetworkOption
  ignore_external_client_failures : NetworkOption

pub data DatabaseOption : Type 0 where
  location_cache_size max_watches machine_id datacenter_id snapshot_ryw_enable : DatabaseOption
  snapshot_ryw_disable transaction_logging_max_field_length transaction_timeout : DatabaseOption
  transaction_retry_limit transaction_max_retry_delay transaction_size_limit : DatabaseOption
  transaction_causal_read_risky transaction_include_port_in_address : DatabaseOption

pub data TransactionOption : Type 0 where
  causal_write_risky causal_read_risky causal_read_disable : TransactionOption
  include_port_in_address next_write_no_write_conflict_range : TransactionOption
  read_your_writes_disable read_ahead_disable durability_datacenter : TransactionOption
  durability_risky durability_dev_null_is_web_scale priority_system_immediate : TransactionOption
  priority_batch initialize_new_database access_system_keys read_system_keys : TransactionOption
  debug_retry_logging transaction_logging_enable debug_transaction_identifier : TransactionOption
  log_transaction transaction_logging_max_field_length timeout retry_limit : TransactionOption
  max_retry_delay snapshot_ryw_enable snapshot_ryw_disable lock_aware : TransactionOption
  used_during_commit_protection_disable read_lock_aware size_limit : TransactionOption
  use_provisional_proxies report_conflicting_keys : TransactionOption
  special_key_space_enable_writes : TransactionOption

pub data MutationType : Type 0 where
  add bit_and bit_or bit_xor append_if_fits max min byte_min byte_max : MutationType
  set_versionstamped_key set_versionstamped_value : MutationType

pub data StreamingMode : Type 0 where
  want_all iterator exact small medium large serial : StreamingMode
  numbered : ℤ → StreamingMode

pub data ConflictRangeType : Type 0 where
  read write : ConflictRangeType

pub data ErrorPredicate : Type 0 where
  retryable maybe_committed retryable_not_committed : ErrorPredicate
