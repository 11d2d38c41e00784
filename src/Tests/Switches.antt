-- ===== src/Tests/Switches.antt =====
-- The theorems on the flags of a transaction, on new transactions, on results and on the number of
-- arguments at concrete inputs.
use erlfdb.Network.{erlfdb_load}
use erlfdb.Network.Loading.{erlfdb_load_lem}
use erlfdb.Base.{
  ℕ, true, false, ◌≡◌, ◌≢◌, refl, none, some, List, [], ◌∷◌, arith, length, Any, inl, inr,
}
use erlfdb.Term.{Term, atom, binary, resource, make_tuple2}
use erlfdb.Extern.{
  Extern, Call, MutationType, future_result, get_value, atomic_op, transaction_call, destroy,
  database_create_transaction,
}
use erlfdb.World.{LibState, World, Future, FutureType, Object}
use erlfdb.Nif.{ok, badarg, raise, atom_ok, make_boolean}
use erlfdb.Resource.{log}
use erlfdb.Database.{start_transaction}
use erlfdb.Database.Creation.{start_transaction-At, start_transaction-failed}
use erlfdb.Future.{new_future}
use erlfdb.Future.At.{At}
use erlfdb.Future.Get.{future_get_result}
use erlfdb.Future.Outcomes.{future_get_result_lem}
use erlfdb.Transaction.{
  erlfdb_transaction_is_read_only, erlfdb_transaction_has_watches,
  erlfdb_transaction_get_writes_allowed, erlfdb_transaction_reset, erlfdb_transaction_atomic_op,
}
use erlfdb.Transaction.Switches.{Holds, option, set_key, set-disallow, reset-flags, disallow-allow}
use erlfdb.Transaction.Writes.{written, atomic_op-allowed}
use erlfdb.Owned.Grants.{Proper}
use erlfdb.Options.{select, mutation_branches}
use erlfdb.Term.{is_atom, inspect_binary}
use erlfdb.Dispatch.{Function, funcs, invoke}
use erlfdb.Refusal.Numbers.{arity}
use erlfdb.Refusal.Arity.{invoke-arity, funcs-refused}
use erlfdb.System.{initial}
use erlfdb.Tests.Data.{quiet, owner, worn, worn_world}

holds : Holds owner 0 1 worn worn_world
holds = record { connected = refl; found = refl; owner = refl }

set-disallow_example :
    let v : World = (set_key quiet 730 owner 0 1 (65 ∷ []) (66 ∷ []) worn_world).1 in
    (erlfdb_transaction_is_read_only quiet owner (resource 0 ∷ []) v ≡ (ok (make_boolean false), v))
    × (option quiet 730 owner 0 1 "disallow_writes" (binary []) v ≡ (badarg, v))
set-disallow_example =
    set-disallow quiet 730 owner 0 1 (65 ∷ []) (66 ∷ []) (binary []) worn worn_world holds refl

reset-flags_example :
    let v : World = (erlfdb_transaction_reset quiet owner (resource 0 ∷ []) worn_world).1 in
    (erlfdb_transaction_is_read_only quiet owner (resource 0 ∷ []) v ≡ (ok (make_boolean true), v))
    × (erlfdb_transaction_has_watches quiet owner (resource 0 ∷ []) v
        ≡ (ok (make_boolean false), v))
    × (erlfdb_transaction_get_writes_allowed quiet owner (resource 0 ∷ []) v
        ≡ (ok (make_boolean true), v))
reset-flags_example = reset-flags quiet 730 owner 0 1 worn worn_world holds

disallow-allow_example :
    let v : World = (option quiet 730 owner 0 1 "disallow_writes" (binary []) worn_world).1 in
    let u : World = (option quiet 730 owner 0 1 "allow_writes" (binary []) v).1 in
    (set_key quiet 730 owner 0 1 (65 ∷ []) (66 ∷ []) v ≡ (raise (atom "writes_not_allowed"), v))
    × ((set_key quiet 730 owner 0 1 (65 ∷ []) (66 ∷ []) u).0 ≡ ok atom_ok)
disallow-allow_example =
    disallow-allow quiet 730 owner 0 1 (65 ∷ []) (66 ∷ []) (binary []) worn worn_world holds refl

abbrev add_args : List Term
add_args = resource 0 ∷ binary (65 ∷ []) ∷ binary (1 ∷ []) ∷ atom "add" ∷ []

add_called : Proper owner 4 add_args worn_world 0 1 worn
add_called = record { connected = refl; counted = refl; named = refl; found = refl; owner = refl }

key_read : inspect_binary (binary (65 ∷ [])) ≡ some (65 ∷ [])
unfolding inspect_binary
key_read = refl

param_read : inspect_binary (binary (1 ∷ [])) ≡ some (1 ∷ [])
unfolding inspect_binary
param_read = refl

add_selected : select mutation_branches (atom "add") ≡ some MutationType.add
unfolding select mutation_branches is_atom
add_selected = refl

atomic_op-allowed_example :
    erlfdb_transaction_atomic_op quiet owner add_args worn_world
    ≡ (ok atom_ok, written 0 1 worn (atomic_op (65 ∷ []) (1 ∷ []) MutationType.add) worn_world)
atomic_op-allowed_example =
    atomic_op-allowed quiet owner add_args worn_world 0 1 worn (65 ∷ []) (1 ∷ []) MutationType.add
      add_called refl key_read param_read add_selected

abbrev begin_call : Call
begin_call = database_create_transaction 7

start_transaction-At_example :
    let r = start_transaction quiet owner begin_call initial in
    (r.0 ≡ ok (make_tuple2 (atom "erlfdb_transaction") (resource 0)))
    × At 0
        (Object.transaction (record {
          transaction = 7;
          owner = 40;
          txid = 0;
          read_only = true;
          writes_allowed = true;
          has_watches = false;
        }))
        1
        0
        1
        r.1
start_transaction-At_example =
    start_transaction-At quiet owner begin_call initial refl refl refl refl

abbrev no_memory : Extern
no_memory = record quiet { holds = λ _. false }

start_transaction-failed_example :
    start_transaction no_memory owner begin_call initial
    ≡ (badarg, log (transaction_call 7 destroy) (log Call.alloc_resource (log begin_call initial)))
start_transaction-failed_example = start_transaction-failed no_memory owner begin_call initial refl

abbrev plain : Future
plain = new_future owner none 7 FutureType.ft_value

future_get_result_lem_example :
    future_get_result quiet plain initial
    ≡ (ok (binary []), log (future_result 7 get_value) initial)
future_get_result_lem_example = future_get_result_lem quiet plain initial

too_many : length (atom "a" ∷ atom "b" ∷ []) ≢ arity Function.transaction_commit
too_many e = omega (arith, e)

invoke-arity_example :
    invoke quiet 730 owner Function.transaction_commit (atom "a" ∷ atom "b" ∷ []) worn_world
    ≡ (badarg, worn_world)
invoke-arity_example =
    invoke-arity quiet 730 owner Function.transaction_commit (atom "a" ∷ atom "b" ∷ []) worn_world
      too_many

has_entry : Any (λ (e : Function × ℕ). e ≡ (Function.get_max_api_version, 0)) (funcs 730)
unfolding funcs
has_entry = inr (inl refl)

one_too_many : length (atom "a" ∷ []) ≢ 0
one_too_many e = omega (arith, e)

funcs-refused_example :
    invoke quiet 730 owner Function.get_max_api_version (atom "a" ∷ []) worn_world
    ≡ (badarg, log Call.get_max_api_version worn_world)
funcs-refused_example =
    funcs-refused quiet 730 owner Function.get_max_api_version 0 (atom "a" ∷ []) worn_world
      has_entry one_too_many

erlfdb_load_lem_example :
    let r = erlfdb_load quiet true initial in (r.0 ≡ ok 0) × (r.1.lib_state ≡ LibState.loaded)
erlfdb_load_lem_example = erlfdb_load_lem quiet true initial
