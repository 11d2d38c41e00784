-- ===== src/Invariant.antt =====
-- One pass over the NIFs of c_src/main.c for every invariant: a property of the state that the few
-- kinds of change keep is kept by every function of the table.
pub mod Changes
pub mod Reading
pub mod Writing
pub mod Library
pub mod Futures
pub mod Objects
pub mod Agree
pub mod Cells
use erlfdb.Base.{ℕ, List}
use erlfdb.Term.{Term}
use erlfdb.Extern.{Extern}
use erlfdb.World.{World, Env}
use erlfdb.Ends.{Ends}
use erlfdb.Dispatch.{Function, invoke}
use Changes.{IsInvariant, Kept}

module _ (ext : Extern) (api : ℕ) (env : Env) {P : World → Type 0}
    (inv : IsInvariant ext env P) where
  invoke-Ends :
      (f : Function) (argv : List Term) {w : World}
      → P w
      → Ends (Kept P) (invoke ext api env f argv) w
  unfolding invoke
  invoke-Ends Function.can_initialize argv h = Library.can_initialize_lem ext env inv argv h
  invoke-Ends Function.get_max_api_version argv h =
      Library.get_max_api_version_lem ext env inv argv h
  invoke-Ends Function.select_api_version argv h = Library.select_api_version_lem ext env inv argv h
  invoke-Ends Function.network_set_option argv h =
      Library.network_set_option_lem ext env inv api argv h
  invoke-Ends Function.setup_network argv h = Library.setup_network_lem ext env inv argv h
  invoke-Ends Function.future_cancel argv h = Futures.future_cancel_lem ext env inv argv h
  invoke-Ends Function.future_silence argv h = Futures.future_silence_lem ext env inv argv h
  invoke-Ends Function.future_is_ready argv h = Futures.future_is_ready_lem ext env inv argv h
  invoke-Ends Function.future_get_error argv h = Futures.future_get_error_lem ext env inv argv h
  invoke-Ends Function.future_get argv h = Futures.future_get_lem ext env inv argv h
  invoke-Ends Function.create_database argv h = Library.create_database_lem ext env inv argv h
  invoke-Ends Function.database_set_option argv h =
      Library.database_set_option_lem ext env inv argv h
  invoke-Ends Function.database_open_tenant argv h = Library.open_tenant_lem ext env inv argv h
  invoke-Ends Function.database_create_transaction argv h =
      Library.database_create_transaction_lem ext env inv argv h
  invoke-Ends Function.database_get_main_thread_busyness argv h =
      Library.database_get_main_thread_busyness_lem ext env inv argv h
  invoke-Ends Function.database_get_client_status argv h =
      Library.get_client_status_lem ext env inv api argv h
  invoke-Ends Function.tenant_create_transaction argv h =
      Library.tenant_create_transaction_lem ext env inv argv h
  invoke-Ends Function.transaction_set_option argv h = Writing.set_option_lem ext env inv api argv h
  invoke-Ends Function.transaction_set_read_version argv h =
      Writing.set_read_version_lem ext env inv argv h
  invoke-Ends Function.transaction_get_read_version argv h =
      Reading.get_read_version_lem ext env inv argv h
  invoke-Ends Function.transaction_get argv h = Reading.get_lem ext env inv argv h
  invoke-Ends Function.transaction_get_key argv h = Reading.get_key_lem ext env inv argv h
  invoke-Ends Function.transaction_get_addresses_for_key argv h =
      Reading.get_addresses_for_key_lem ext env inv argv h
  invoke-Ends Function.transaction_get_range argv h = Reading.get_range_lem ext env inv argv h
  invoke-Ends Function.transaction_get_range_split_points argv h =
      Reading.get_range_split_points_lem ext env inv argv h
  invoke-Ends Function.transaction_get_mapped_range argv h =
      Reading.get_mapped_range_lem ext env inv api argv h
  invoke-Ends Function.transaction_set argv h = Writing.set_lem ext env inv argv h
  invoke-Ends Function.transaction_clear argv h = Writing.clear_lem ext env inv argv h
  invoke-Ends Function.transaction_clear_range argv h = Writing.clear_range_lem ext env inv argv h
  invoke-Ends Function.transaction_atomic_op argv h = Writing.atomic_op_lem ext env inv argv h
  invoke-Ends Function.transaction_commit argv h = Reading.commit_lem ext env inv argv h
  invoke-Ends Function.transaction_get_committed_version argv h =
      Writing.get_committed_version_lem ext env inv argv h
  invoke-Ends Function.transaction_get_versionstamp argv h =
      Reading.get_versionstamp_lem ext env inv argv h
  invoke-Ends Function.transaction_watch argv h = Reading.watch_lem ext env inv argv h
  invoke-Ends Function.transaction_on_error argv h = Reading.on_error_lem ext env inv argv h
  invoke-Ends Function.transaction_reset argv h = Writing.reset_lem ext env inv argv h
  invoke-Ends Function.transaction_cancel argv h = Writing.cancel_lem ext env inv argv h
  invoke-Ends Function.transaction_add_conflict_range argv h =
      Writing.add_conflict_range_lem ext env inv argv h
  invoke-Ends Function.transaction_get_approximate_size argv h =
      Reading.get_approximate_size_lem ext env inv argv h
  invoke-Ends Function.transaction_get_next_tx_id argv h =
      Writing.get_next_tx_id_lem ext env inv argv h
  invoke-Ends Function.transaction_is_read_only argv h = Writing.is_read_only_lem ext env inv argv h
  invoke-Ends Function.transaction_has_watches argv h = Writing.has_watches_lem ext env inv argv h
  invoke-Ends Function.transaction_get_writes_allowed argv h =
      Writing.get_writes_allowed_lem ext env inv argv h
  invoke-Ends Function.transaction_get_estimated_range_size argv h =
      Reading.get_estimated_range_size_lem ext env inv argv h
  invoke-Ends Function.get_error argv h = Library.get_error_lem ext env inv argv h
  invoke-Ends Function.error_predicate argv h = Library.error_predicate_lem ext env inv argv h

  -- Whatever function is called, on whatever arguments, and however the call ends, a property that
  -- every kind of change keeps still holds.
  pub invoke-IsInvariant :
      (f : Function) (argv : List Term) (w : World) → P w → P (invoke ext api env f argv w).1
  invoke-IsInvariant f argv w h = (invoke-Ends f argv h).at
