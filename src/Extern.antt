-- ===== src/Extern.antt =====
-- The calls that the C code makes to libfdb_c and to the fallible parts of the NIF interface, and
-- what they answer. Neither library is part of the repository, so their answers are a parameter:
-- `Extern` gives the answer to a call from the whole history of calls, newest first. The
-- enumerators are those that c_src/main.c names.
mod Options
pub use Options.{
  NetworkOption, DatabaseOption, TransactionOption, MutationType, StreamingMode, ConflictRangeType,
  ErrorPredicate,
}
use erlfdb.Base.{ℕ, String, Bool, Option, List, ℤ}

-- `(key, key_length, or_equal, offset)`, the four arguments of a key selector.
pub record Selector : Type 0 where
  pub key : List ℕ
  pub or_equal : Bool
  pub offset : ℤ

-- The arguments of `fdb_transaction_get_range` after the transaction.
pub record Range : Type 0 where
  pub start : Selector
  pub finish : Selector
  pub limit : ℤ
  pub target_bytes : ℤ
  pub mode : StreamingMode
  pub iteration : ℤ
  pub snapshot : Bool
  pub reverse : ℤ

-- A mapped key-value, by the fields that the code reads.
pub record MappedKeyValue : Type 0 where
  pub key : List ℕ
  pub value : List ℕ
  pub begin_key : List ℕ
  pub end_key : List ℕ
  pub results : List (List ℕ × List ℕ)

-- A call on an FDBTransaction, by its arguments after the transaction.
pub data TransactionCall : Type 0 where
  set_option : TransactionOption → List ℕ → TransactionCall
  set_read_version : ℤ → TransactionCall
  get_read_version : TransactionCall
  get : List ℕ → Bool → TransactionCall
  get_estimated_range_size_bytes : List ℕ → List ℕ → TransactionCall
  get_key : Selector → Bool → TransactionCall
  get_addresses_for_key : List ℕ → TransactionCall
  get_range : Range → TransactionCall
  get_range_split_points : List ℕ → List ℕ → ℤ → TransactionCall
  get_mapped_range : List ℕ → Range → TransactionCall
  set : List ℕ → List ℕ → TransactionCall
  clear : List ℕ → TransactionCall
  clear_range : List ℕ → List ℕ → TransactionCall
  atomic_op : List ℕ → List ℕ → MutationType → TransactionCall
  commit : TransactionCall
  get_committed_version : TransactionCall
  get_versionstamp : TransactionCall
  watch : List ℕ → TransactionCall
  on_error : ℤ → TransactionCall
  reset : TransactionCall
  cancel : TransactionCall
  add_conflict_range : List ℕ → List ℕ → ConflictRangeType → TransactionCall
  get_approximate_size : TransactionCall
  destroy : TransactionCall

-- The result that `erlfdb_future_get` asks a future for.
pub data FutureResult : Type 0 where
  get_error get_int64 get_key get_value get_string_array get_key_array : FutureResult
  get_keyvalue_array get_mappedkeyvalue_array : FutureResult

pub data Call : Type 0 where
  get_max_api_version : Call
  select_api_version : ℤ → Call
  network_set_option : NetworkOption → List ℕ → Call
  setup_network run_network stop_network : Call
  thread_create thread_join : Call
  open_resource_type : String → Call
  set_option_on_halt : Call
  alloc_state free_state : Call
  alloc_resource alloc_env : Call
  mutex_create cond_create : String → Call
  mutex_destroy free_env cond_destroy : ℕ → Call
  future_set_callback future_cancel future_is_ready future_destroy : ℕ → Call
  future_result : ℕ → FutureResult → Call
  create_database : List ℕ → Call
  database_set_option : ℕ → DatabaseOption → List ℕ → Call
  database_open_tenant : ℕ → List ℕ → Call
  database_create_transaction : ℕ → Call
  database_get_main_thread_busyness database_get_client_status database_destroy : ℕ → Call
  tenant_create_transaction tenant_destroy : ℕ → Call
  transaction_call : ℕ → TransactionCall → Call
  error_text : ℤ → Call
  error_predicate : ErrorPredicate → ℤ → Call

-- Whether a registered callback was run before the call returned, and on which kind of thread.
pub data Fired : Type 0 where
  later on_scheduler on_network : Fired

-- What a call answers, from the history that it ends. `error` is a result code, 0 for success;
-- `handle` a pointer, returned or stored through one, 0 for NULL; `holds` a truth value: an
-- allocation that succeeded or an `fdb_bool_t`; `fired` what became of the callback.
pub record Extern : Type 0 where
  pub error : List Call → ℤ
  pub handle : List Call → ℕ
  pub holds : List Call → Bool
  pub fired : List Call → Fired
  pub int64 : List Call → ℤ
  pub double : List Call → ℕ
  pub bytes : List Call → List ℕ
  pub strings : List Call → List (List ℕ)
  pub keyvalues : List Call → List (List ℕ × List ℕ)
  pub mapped : List Call → List MappedKeyValue
  pub more : List Call → Bool
  pub text : List Call → Option (List ℕ)
