-- ===== src/Tests.antt =====
-- The theorems at concrete inputs: a libfdb_c whose calls all succeed, and a process that opens a
-- database, starts a transaction and reads a key.
pub mod Data
pub mod Calls
pub mod Switches
use erlfdb.Tests.Data.{quiet}
use erlfdb.Base.{
  ℕ, ℤ, pos, true, false, ◌+◌, ◌≤◌, ◌<◌, ◌≡◌, ◌≢◌, refl, Option, none, some, List, [], ◌∷◌, arith,
  ◌==◌, if◌then◌else◌,
}
use erlfdb.Term.{
  Term, reference, atom, int, binary, resource, tuple, terms, is_atom, get_int, inspect_binary,
}
use erlfdb.Extern.{Extern, Call, later}
use erlfdb.World.{
  World, LibState, Future, FutureType, ft_none, Field, Object, Resource, Transaction, Env,
}
use erlfdb.Nif.{
  raise, Outcome, ok, badarg, ◌>>=◌, entry, in_state, has_arity, check, decode, ask, tell, gets,
  modify,
}
use erlfdb.Resource.{
  get_resource, alloc_resource, make_resource, keep_resource, release_resource, release_count, dtor,
  assign, transaction_is_owner, drop_term, drop_stray, hand_over,
}
use erlfdb.Network.{erlfdb_select_api_version, erlfdb_setup_network}
use erlfdb.Network.Threads.{wait_for_network, take_turns, step_waiter, step_starter, network_thread}
use erlfdb.World.Tally.{tally}
use erlfdb.Database.{
  erlfdb_create_database, is_terminated, c_string, give_resource,
  erlfdb_database_create_transaction, database_of, start_transaction,
}
use erlfdb.Owned.{owned}
use erlfdb.Transaction.Read.{erlfdb_transaction_get, start}
use erlfdb.Util.{get_boolean}
use erlfdb.Future.{
  create_future, fill_future, set_callback, run_fired, make_copy, copy_term, fire, future_cb,
  send_ready,
}
use erlfdb.Dispatch.{Function, invoke}
use erlfdb.System.{Event, calls, fires, drops, collects, initial, step, run}
use erlfdb.System.Balance.{run-count, run-faults, run-dead}
use erlfdb.System.Flags.{run-IsOrderly, run-future_get}
use erlfdb.System.Lifecycle.{stage, run-stage}
use erlfdb.Counts.Fill.{HasEnvs}

abbrev client : Env
client = record { id = 1; self = 40 }

abbrev connecting : List Event
connecting =
    calls client Function.select_api_version (int (pos 730) ∷ [])
    ∷ calls client Function.setup_network []
    ∷ calls client Function.create_database (binary (0 ∷ []) ∷ [])
    ∷ calls client Function.database_create_transaction (resource 0 ∷ [])
    ∷ []

abbrev reading : List Event
reading =
    calls client Function.select_api_version (int (pos 730) ∷ [])
    ∷ calls client Function.setup_network []
    ∷ calls client Function.create_database (binary (0 ∷ []) ∷ [])
    ∷ calls client Function.database_create_transaction (resource 0 ∷ [])
    ∷ calls client Function.transaction_get (resource 1 ∷ binary (65 ∷ []) ∷ atom "false" ∷ [])
    ∷ []

-- The process drops the transaction, the message is sent, and at last the message goes.
abbrev collected : List Event
collected =
    calls client Function.select_api_version (int (pos 730) ∷ [])
    ∷ calls client Function.setup_network []
    ∷ calls client Function.create_database (binary (0 ∷ []) ∷ [])
    ∷ calls client Function.database_create_transaction (resource 0 ∷ [])
    ∷ calls client Function.transaction_get (resource 1 ∷ binary (65 ∷ []) ∷ atom "false" ∷ [])
    ∷ drops 1
    ∷ fires 2
    ∷ collects 1
    ∷ []

abbrev fresh_tx : Transaction
fresh_tx = record {
  transaction = 7;
  owner = 40;
  txid = 0;
  read_only = true;
  writes_allowed = true;
  has_watches = false;
}

connecting-cell :
    (run quiet 730 connecting initial).cell 1
    ≡ some (record { object = Object.transaction fresh_tx; count = 1 })
unfolding run step invoke erlfdb_select_api_version erlfdb_setup_network wait_for_network take_turns
    step_waiter step_starter network_thread erlfdb_create_database is_terminated c_string
    give_resource erlfdb_database_create_transaction database_of start_transaction ◌>>=◌ entry
    in_state has_arity check decode ask tell gets modify get_resource alloc_resource make_resource
    keep_resource release_resource release_count get_int inspect_binary
connecting-cell = refl

-- The transaction has two references: its term's, and that of the copy for the message.
copied-cell :
    (run quiet 730 reading initial).cell 1
    ≡ some (record { object = Object.transaction fresh_tx; count = 2 })
unfolding run step invoke erlfdb_select_api_version erlfdb_setup_network wait_for_network take_turns
    step_waiter step_starter network_thread erlfdb_create_database is_terminated c_string
    give_resource erlfdb_database_create_transaction database_of start_transaction ◌>>=◌ entry
    in_state has_arity check decode ask tell gets modify get_resource alloc_resource make_resource
    keep_resource release_resource release_count get_int inspect_binary owned transaction_is_owner
    erlfdb_transaction_get start get_boolean is_atom create_future fill_future set_callback
    run_fired assign make_copy copy_term fire future_cb send_ready hand_over drop_stray
copied-cell = refl

collected-cell : (run quiet 730 collected initial).cell 1 ≡ none
unfolding drop_term dtor run step invoke erlfdb_select_api_version erlfdb_setup_network
    wait_for_network take_turns step_waiter step_starter network_thread erlfdb_create_database
    is_terminated c_string give_resource erlfdb_database_create_transaction database_of
    start_transaction ◌>>=◌ entry in_state has_arity check decode ask tell gets modify get_resource
    alloc_resource make_resource keep_resource release_resource release_count get_int inspect_binary
    owned transaction_is_owner erlfdb_transaction_get start get_boolean is_atom create_future
    fill_future set_callback run_fired assign make_copy copy_term fire future_cb send_ready
    hand_over drop_stray
collected-cell = refl

has_envs : HasEnvs quiet
has_envs h e = omega (arith, e)

run-count_example :
    let w : World = run quiet 730 reading initial in
    (2 ≡ w.pending 1 + w.held 1 + w.stray 1 + tally w.copies w.next 1) × (0 < 2) × (w.pending 1 ≤ 1)
run-count_example =
    run-count quiet 730 has_envs reading 1
      (record { object = Object.transaction fresh_tx; count = 2 }) copied-cell

run-faults_example : (run quiet 730 reading initial).faults ≡ 0
run-faults_example = run-faults quiet 730 has_envs reading

run-dead_example :
    let w : World = run quiet 730 collected initial in
    (w.pending 1 ≡ 0) × (w.held 1 ≡ 0) × (w.stray 1 ≡ 0) × ((k : ℕ) → w.copies k ≢ some 1)
run-dead_example = run-dead quiet 730 has_envs collected 1 collected-cell

run-IsOrderly_example : (fresh_tx.writes_allowed ≡ false → fresh_tx.read_only ≡ true) × (0 ≤ 65536)
run-IsOrderly_example = run-IsOrderly quiet 730 connecting 1 1 fresh_tx connecting-cell

run-future_get_example :
    (invoke quiet 730 client Function.future_get
      (resource 2 ∷ [])
      (run quiet 730 reading initial)).0
    ≢ raise (atom "invalid_future_type")
run-future_get_example = run-future_get quiet 730 reading client (resource 2 ∷ [])

run-stage_example : stage LibState.loaded ≤ stage (run quiet 730 connecting initial).lib_state
run-stage_example = run-stage quiet 730 connecting initial
