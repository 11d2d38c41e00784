-- ===== src/Tests/Calls.antt =====
-- The theorems on single calls at concrete inputs: one transaction, and the process that owns it.
use erlfdb.Tests.Data.{
  quiet, starved, owner, stranger, worn, locked, with_object, worn_world, locked_world, set_args,
}
use erlfdb.Base.{
  ◌<◌, ℕ, pos, negsuc, true, false, ◌+◌, ◌≡◌, ◌≢◌, refl, ◌+ℤ◌, none, some, List, [], ◌∷◌, ◌++◌, All,
  inl, inr, arith, ◌==◌, if◌then◌else◌,
}
use erlfdb.Term.{
  atom, int, binary, reference, resource, tuple, list, terms, make_tuple2, make_tuple3,
}
use erlfdb.Extern.{
  Selector, MappedKeyValue, create_database, database_open_tenant, database_destroy, tenant_destroy,
}
use erlfdb.World.{World, LibState, Future, FutureType, Object}
use erlfdb.Nif.{ok, badarg, raise, atom_ok, make_boolean}
use erlfdb.Util.{get_key_selector}
use erlfdb.Network.{erlfdb_setup_network}
use erlfdb.Network.Threads.{Waiter, Threads, Party, created, network_thread, wait_for_network}
use erlfdb.Network.Waiting.{IsFair, play, wait_for_network-play}
use erlfdb.Resource.{log}
use erlfdb.Database.{give_resource, erlfdb_create_database, erlfdb_database_open_tenant}
use erlfdb.Dispatch.{Function, invoke}
use erlfdb.Future.{scheduler, network, fire, create_future, new_future, message_ref}
use erlfdb.Future.Get.{binaries_term, keyvalues_term, mappeds_term}
use erlfdb.Future.At.{At}
use erlfdb.Future.Delivery.{Accepts, Waits, whole, ready, create_future-Waits, fire-Waits}
use erlfdb.Future.Failing.{create_future-faults}
use erlfdb.Future.Lists.{in_order, binaries-in_order, keyvalues-in_order, mappeds-in_order}
use erlfdb.Util.Selectors.{
  Comparison, InRange, get_key_selector-pair, get_key_selector-triple, get_key_selector-InRange,
}
use erlfdb.Database.Names.{create_database-append, open_tenant-append, names-unterminated}
use erlfdb.Network.Startup.{running, setup_network-outcome}
use erlfdb.Owned.Grants.{Proper}
use erlfdb.Transaction.Ids.{next_ids, ids_from, refusals, next_ids_lem}
use erlfdb.Transaction.Writes.{sets, invoke_locked}
use erlfdb.Refusal.Closed.{invoke_closed}
use erlfdb.Refusal.Foreign.{invoke_foreign}
use erlfdb.System.{initial, calls, drops, step, run}
use erlfdb.System.Silence.{run-silenced, run-cancelled}
use erlfdb.System.Isolation.{invoke_isolated}

proper : Proper owner 1 (resource 0 ∷ []) worn_world 0 1 worn
proper = record { connected = refl; counted = refl; named = refl; found = refl; owner = refl }

set_called : Proper owner 3 set_args worn_world 0 1 worn
set_called = record { connected = refl; counted = refl; named = refl; found = refl; owner = refl }

locked_called : Proper owner 3 set_args locked_world 0 1 locked
locked_called = record {
  connected = refl;
  counted = refl;
  named = refl;
  found = refl;
  owner = refl;
}

not_owner : worn.owner ≢ stranger.self
not_owner e = omega (arith, e)

invoke_isolated_example :
    (invoke quiet 730 stranger Function.transaction_reset (resource 0 ∷ []) worn_world).1.cell 0
    ≡ some (record { object = Object.transaction worn; count = 1 })
invoke_isolated_example =
    invoke_isolated quiet 730 stranger Function.transaction_reset (resource 0 ∷ []) worn_world 0 1
      worn (omega arith) refl not_owner

invoke_foreign_example :
    invoke quiet 730 stranger Function.transaction_set set_args worn_world ≡ (badarg, worn_world)
invoke_foreign_example =
    invoke_foreign quiet 730 stranger {w = worn_world} set_args {i = 0} {n = 1} {t = worn} refl refl
      not_owner Function.transaction_set refl

not_connected : LibState.loaded ≢ LibState.connected
not_connected e = cc

invoke_closed_example :
    invoke quiet 730 owner Function.create_database (binary (0 ∷ []) ∷ []) initial
    ≡ (badarg, initial)
invoke_closed_example =
    invoke_closed quiet 730 owner {w = initial} not_connected Function.create_database
      (binary (0 ∷ []) ∷ []) refl

invoke_locked_example :
    invoke quiet 730 owner Function.transaction_set set_args locked_world
    ≡ (raise (atom "writes_not_allowed"), locked_world)
invoke_locked_example =
    invoke_locked quiet 730 owner Function.transaction_set set_args locked_world 0 1 locked sets
      locked_called refl

next_ids_lem_example :
    next_ids quiet owner (resource 0 ∷ []) (1 + 2) worn_world
    ≡ ids_from quiet owner (resource 0 ∷ []) 65535 1 ++ refusals quiet owner (resource 0 ∷ []) 2
next_ids_lem_example =
    next_ids_lem quiet owner (resource 0 ∷ []) 1 2 worn_world 0 1 worn proper refl

abbrev selected : World
selected = record initial { lib_state = LibState.api_selected }

-- The network thread goes first in every round.
abbrev round : List Party
round = Party.starter ∷ Party.waiter ∷ []

fair : IsFair round
fair = (inr (inl refl), inl refl)

abbrev nine : List (List Party)
nine = round ∷ round ∷ round ∷ round ∷ round ∷ round ∷ round ∷ round ∷ round ∷ []

wait_for_network-play_example :
    let s : Threads = play nine (created selected) in
    (s.waiter ≡ Waiter.past)
    × (s.world ≡ network_thread selected)
    × (wait_for_network 8 selected ≡ some s.world)
wait_for_network-play_example =
    wait_for_network-play selected refl nine
      (fair, (fair, (fair, (fair, (fair, (fair, (fair, (fair, (fair, tt))))))))) (omega arith)

-- The caller waits, and the thread runs to its end before the caller goes on.
abbrev one_wait : List Party
one_wait =
    Party.waiter ∷ Party.waiter ∷ Party.starter ∷ Party.starter ∷ Party.starter ∷ Party.starter
    ∷ Party.waiter ∷ Party.waiter ∷ []

setup_network-outcome_example :
    erlfdb_setup_network quiet [] selected ≡ (ok atom_ok, running selected)
setup_network-outcome_example = setup_network-outcome quiet selected refl

accepts : Accepts quiet 7 []
accepts = record { allocated = refl; env_made = refl; lock_made = refl; set = refl; waits = refl }

abbrev plain : Future
plain = whole (new_future owner none 7 FutureType.ft_value) 7 7 (message_ref none (reference 0))

create_future-Waits_example :
    let r = create_future quiet owner none none 7 FutureType.ft_value initial in
    (r.0 ≡ ok (make_tuple3 (atom "erlfdb_future") (reference 0) (resource 0))) × Waits 0 plain r.1
create_future-Waits_example =
    create_future-Waits quiet owner none none 7 FutureType.ft_value initial accepts refl refl

abbrev waiting : World
waiting = record (with_object (Object.future plain)) {
  cell = λ j. if 0 == j then some (record { object = Object.future plain; count = 2 }) else none;
  pending = λ j. if 0 == j then 1 else 0;
  held = λ j. if 0 == j then 1 else 0;
}

waits : Waits 0 plain waiting
waits = record { found = refl; registered = refl; referred = refl }

fire-Waits_example :
    let v : World = fire network 0 waiting in
    (v.sent ≡ ready network plain ∷ [])
    × At 0 (Object.future plain) 1 0 1 v
    × (fire scheduler 0 v ≡ v)
fire-Waits_example = fire-Waits network scheduler 0 plain waiting waits

taken : 0 < waiting.next
taken = omega arith

run-silenced_example :
    let v : World =
      run quiet 730
        (calls owner Function.future_silence (resource 0 ∷ []) ∷ drops 0 ∷ [])
        waiting in
    (fire network 0 v).sent ≡ v.sent
run-silenced_example =
    run-silenced quiet 730 owner waiting 0 2 plain taken refl refl (drops 0 ∷ []) network

run-cancelled_example :
    let u : World = step quiet 730 (calls owner Function.future_cancel (resource 0 ∷ [])) waiting in
    let v : World = run quiet 730 (drops 0 ∷ []) u in
    (u.sent ≡ []) × ((fire network 0 v).sent ≡ v.sent)
run-cancelled_example =
    run-cancelled quiet 730 owner waiting 0 2 plain taken refl refl (drops 0 ∷ []) network

create_future-faults_example :
    let r = create_future starved owner none none 7 FutureType.ft_value initial in
    (r.0 ≡ badarg) × (r.1.faults ≡ 0 + 1)
create_future-faults_example =
    create_future-faults starved owner none none 7 FutureType.ft_value initial refl refl refl refl

get_key_selector-pair_example :
    get_key_selector (tuple (terms (binary (65 ∷ []) ∷ atom "gt" ∷ [])))
    ≡ some (record { key = 65 ∷ []; or_equal = true; offset = pos 1 })
get_key_selector-pair_example = get_key_selector-pair (65 ∷ []) Comparison.gt

get_key_selector-triple_example :
    get_key_selector (tuple (terms (binary (65 ∷ []) ∷ atom "gteq" ∷ int (negsuc 2) ∷ [])))
    ≡ some (record { key = 65 ∷ []; or_equal = false; offset = pos 1 +ℤ negsuc 2 })
get_key_selector-triple_example = get_key_selector-triple (65 ∷ []) Comparison.gteq (negsuc 2) refl

-- One above the largest `int`.
abbrev beyond : Selector
beyond = record { key = []; or_equal = true; offset = pos 1 +ℤ pos 2147483647 }

get_key_selector-InRange_example : InRange beyond.offset
get_key_selector-InRange_example =
    get_key_selector-InRange (tuple (terms (binary [] ∷ atom "gt" ∷ int (pos 2147483647) ∷ [])))
      beyond (get_key_selector-triple [] Comparison.gt (pos 2147483647) refl)

abbrev two_keys : List (List ℕ × List ℕ)
two_keys = (65 ∷ [], 1 ∷ []) ∷ (66 ∷ [], 2 ∷ []) ∷ []

keyvalues-in_order_example :
    keyvalues_term two_keys true
    ≡ make_tuple3
        (list (
          terms (
            make_tuple2 (binary (65 ∷ [])) (binary (1 ∷ []))
            ∷ make_tuple2 (binary (66 ∷ [])) (binary (2 ∷ []))
            ∷ [])))
        (int (pos 2))
        (make_boolean true)
keyvalues-in_order_example = keyvalues-in_order two_keys true

abbrev one_mapped : List MappedKeyValue
one_mapped =
    record {
      key = 65 ∷ [];
      value = 66 ∷ [];
      begin_key = [];
      end_key = 255 ∷ [];
      results = two_keys;
    }
    ∷ []

mappeds-in_order_example :
    mappeds_term one_mapped false
    ≡ make_tuple3
        (list (
          terms (
            make_tuple3
              (make_tuple2 (binary (65 ∷ [])) (binary (66 ∷ [])))
              (make_tuple2 (binary []) (binary (255 ∷ [])))
              (list (
                terms (
                  make_tuple2 (binary (65 ∷ [])) (binary (1 ∷ []))
                  ∷ make_tuple2 (binary (66 ∷ [])) (binary (2 ∷ []))
                  ∷ [])))
            ∷ [])))
        (int (pos 1))
        (make_boolean false)
mappeds-in_order_example = mappeds-in_order one_mapped false

binaries-in_order_example :
    binaries_term ((65 ∷ []) ∷ (66 ∷ []) ∷ []) ≡ list (in_order binary ((65 ∷ []) ∷ (66 ∷ []) ∷ []))
binaries-in_order_example = binaries-in_order ((65 ∷ []) ∷ (66 ∷ []) ∷ [])

abbrev connected_world : World
connected_world = record initial { lib_state = LibState.connected }

no_zero : All (λ (b : ℕ). b ≢ 0) (65 ∷ [])
no_zero = (λ e. absurd (omega (arith, e)), tt)

create_database-append_example :
    erlfdb_create_database quiet owner (binary (65 ∷ 0 ∷ []) ∷ []) connected_world
    ≡ give_resource quiet owner "erlfdb_database"
        (Object.database 7)
        (database_destroy 7)
        (log (create_database (65 ∷ [])) connected_world)
create_database-append_example =
    create_database-append quiet owner (65 ∷ []) connected_world refl no_zero

open_tenant-append_example :
    erlfdb_database_open_tenant quiet owner
      (resource 0 ∷ binary (65 ∷ 0 ∷ []) ∷ [])
      (with_object (Object.database 5))
    ≡ give_resource quiet owner "erlfdb_tenant"
        (Object.tenant 7)
        (tenant_destroy 7)
        (log (database_open_tenant 5 (65 ∷ [])) (with_object (Object.database 5)))
open_tenant-append_example =
    open_tenant-append quiet owner (65 ∷ []) 0 1 5 (with_object (Object.database 5)) refl refl

ends_otherwise : (name : List ℕ) → 65 ∷ [] ≢ name ++ 0 ∷ []
ends_otherwise [] e = absurd (cc e)
ends_otherwise (b ∷ []) e = absurd (cc e)
ends_otherwise (b ∷ c ∷ bs) e = absurd (cc e)

names-unterminated_example :
    let w : World = with_object (Object.database 5) in
    (erlfdb_create_database quiet owner (binary (65 ∷ []) ∷ []) w ≡ (badarg, w))
    × (erlfdb_database_open_tenant quiet owner (resource 0 ∷ binary (65 ∷ []) ∷ []) w ≡ (badarg, w))
names-unterminated_example =
    names-unterminated quiet owner (65 ∷ []) 0 1 5 (with_object (Object.database 5)) refl refl
      ends_otherwise
