-- ===== src/Future.antt =====
-- Futures of c_src/main.c: creation, the callback and the NIFs on them. The getters are in
-- Future/Get.
pub mod Get
pub mod Lists
pub mod Copy
pub mod At
pub mod Delivery
pub mod Failing
pub mod Outcomes
use erlfdb.Base.{
  ℕ, suc, ◌+◌, ◌-◌, Bool, true, false, Option, none, some, List, ◌∷◌, ℤ, is_zero, if◌then◌else◌,
  ◌==◌,
}
use erlfdb.Term.{Term, atom, int, reference, resource, make_tuple2, make_tuple3}
use erlfdb.Extern.{
  Call, Extern, Fired, later, on_scheduler, on_network, future_set_callback, future_cancel,
  future_is_ready, future_result, get_error, future_destroy, alloc_env, mutex_create,
}
use erlfdb.World.{
  World, Field, garbage, null, object, Future, FutureType, Object, Message, Env, update,
}
use erlfdb.Nif.{
  Nif, ok, badarg, ◌>>=◌, ◌>>◌, pure, make_badarg, gets, modify, ask, tell, entry, arg, atom_ok,
  make_boolean,
}
use erlfdb.Resource.{
  fault, keep_resource, release_resource, make_resource, get_resource, as_future, as_transaction,
  hand_over, assign,
}
use erlfdb.Resource
use erlfdb.Util.{erlang_error}
use Get.{future_get_result}

-- The kind of thread that a callback runs on, `enif_thread_type()`.
pub data Thread : Type 0 where
  scheduler network : Thread

-- The environment that `erlfdb_future_cb` gives to `enif_send`.
abbrev pub caller_env : Thread → Future → Option ℕ
caller_env scheduler f = some f.pid_env
caller_env network f = none

abbrev pub with_message : Thread → Future → World → World
with_message thread f w = record w {
  sent =
      record {
        caller = caller_env thread f;
        to = f.pid;
        content = make_tuple2 f.msg_ref (atom "ready");
      }
      ∷ w.sent;
}

-- A message that is sent takes the terms of the msg_env with it: `enif_send` clears the msg_env, and
-- f->msg_ref then names a term that is no longer there.
unfoldable pub send_ready : Thread → ℕ → Future → World → World
unfolding hand_over
send_ready thread i f w = if f.cancelled then w else hand_over i (with_message thread f w)

-- erlfdb_future_cb.
unfoldable pub future_cb : Thread → ℕ → World → World
future_cb thread i w = elim (as_future (w.cell i)) [
  | none ↦ fault w
  | some f ↦ release_resource i (send_ready thread i f w)
]

-- libfdb_c runs the callback of a future, at most once.
unfoldable pub fire : Thread → ℕ → World → World
fire thread i w =
    if w.pending i == 0
    then w
    else future_cb thread i (record w { pending = update w.pending i (w.pending i - 1) })

unfoldable pub run_fired : Fired → ℕ → World → World
run_fired later i w = w
run_fired on_scheduler i w = fire scheduler i w
run_fired on_network i w = fire network i w

abbrev pub register : ℕ → World → World
register i w = record w { pending = update w.pending i (w.pending i + 1) }

-- The first assignments to the new object; the rest of its memory is garbage.
abbrev pub new_future : Env → Option ℕ → ℕ → FutureType → Future
new_future env to fut ftype = record {
  future = fut;
  ftype = ftype;
  pid = elim to [ none ↦ env.self | some p ↦ p ];
  pid_env = env.id;
  msg_env = garbage;
  msg_ref = atom "";
  lock = garbage;
  cancelled = false;
}

abbrev pub message_ref : Option Term → Term → Term
message_ref none ref = ref
message_ref (some tx_ref) ref = make_tuple2 tx_ref ref

-- `enif_make_copy` of a term that names a transaction takes a reference to the transaction. No other
-- resource term is copied: `tx_ref` has passed the guards of a NIF on a transaction.
unfoldable pub copy_term : ℕ → Term → World → World
copy_term i (resource j) w = elim (as_transaction (w.cell j)) [
  | none ↦ w
  | some t ↦ let w' = keep_resource j w in record w' { copies = update w'.copies i (some j) }
]
copy_term i _ w = w

-- The new msg_env of the future `i` has a copy of the transaction's reference, if there is one.
unfoldable pub make_copy : ℕ → Option Term → World → World
unfolding copy_term
make_copy i none w = w
make_copy i (some tx_ref) w = copy_term i tx_ref w

-- The guards at the head of the NIFs on a future.
unfoldable pub future_of : List Term → Nif (ℕ × Future)
future_of argv = do entry 1 argv; get_resource as_future (arg argv 0)

module _ (ext : Extern) (env : Env) where
  -- From `fdb_future_set_callback` on: the callback may run before the call returns.
  unfoldable pub set_callback : ℕ → ℕ → Term → Nif Term
  set_callback i fut ref = do
    modify (keep_resource i)
    err ← ask ext.error (future_set_callback fut)
    if is_zero err
        then (do
          modify (λ w. run_fired (ext.fired w.trace) i (register i w))
          modify (make_resource i)
          modify (release_resource i)
          pure (make_tuple3 (atom "erlfdb_future") ref (resource i)))
        else (do modify (release_resource i); modify (release_resource i); erlang_error err)

  -- The other fields of the new object; where one cannot be made, the object is released.
  unfoldable pub fill_future : Future → ℕ → Option Term → ℕ → Term → Nif Term
  fill_future f i tx_ref fut ref = do
    msg_env ← ask ext.handle alloc_env
    if msg_env == 0
        then (do
          modify (assign i (Object.future (record f { msg_env = null })))
          modify (release_resource i)
          make_badarg)
        else (do
          let g = record f { msg_env = object msg_env; msg_ref = message_ref tx_ref ref }
          modify (make_copy i tx_ref)
          lock ← ask ext.handle (mutex_create "fdb:future_lock")
          if lock == 0
              then (do
                modify (assign i (Object.future (record g { lock = null })))
                modify (release_resource i)
                make_badarg)
              else (do
                modify
                    (assign i (Object.future (record g { lock = object lock; cancelled = false })))
                set_callback i fut ref))

  -- erlfdb_create_future.
  unfoldable pub create_future : Option Term → Option ℕ → ℕ → FutureType → Nif Term
  create_future tx_ref to fut ftype = do
    ref ← gets (λ w. reference w.next_ref)
    modify (λ w. record w { next_ref = w.next_ref + 1 })
    allocated ← ask ext.holds Call.alloc_resource
    if allocated
        then (do
          i ← gets (λ w. w.next)
          modify (Resource.alloc_resource (Object.future (new_future env to fut ftype)))
          fill_future (new_future env to fut ftype) i tx_ref fut ref)
        else (do tell (future_destroy fut); make_badarg)

  -- erlfdb_future_cancel: the call may run the callback.
  unfoldable pub erlfdb_future_cancel : List Term → Nif Term
  erlfdb_future_cancel argv = do
    (i, f) ← future_of argv
    modify (assign i (Object.future (record f { cancelled = true })))
    tell (future_cancel f.future)
    modify (λ w. run_fired (ext.fired w.trace) i w)
    pure atom_ok

  unfoldable pub erlfdb_future_silence : List Term → Nif Term
  erlfdb_future_silence argv = do
    (i, f) ← future_of argv
    modify (assign i (Object.future (record f { cancelled = true })))
    pure atom_ok

  unfoldable pub erlfdb_future_is_ready : List Term → Nif Term
  erlfdb_future_is_ready argv = do
    (i, f) ← future_of argv
    ready ← ask ext.holds (future_is_ready f.future)
    pure (make_boolean ready)

  unfoldable pub erlfdb_future_get_error : List Term → Nif Term
  erlfdb_future_get_error argv = do
    (i, f) ← future_of argv
    err ← ask ext.error (future_result f.future get_error)
    pure (make_tuple2 (atom "erlfdb_error") (int err))

  unfoldable pub erlfdb_future_get : List Term → Nif Term
  erlfdb_future_get argv = do (i, f) ← future_of argv; future_get_result ext f
