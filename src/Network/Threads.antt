-- ===== src/Network/Threads.antt =====
-- The start of the network thread in c_src/main.c: erlfdb_network_thread and the loop of
-- erlfdb_setup_network that waits for it, with the mutex `st->lock` and the condition variable
-- `st->cond`. One step is what a thread does between two points where the other may run.
use erlfdb.Base.{ℕ, zero, suc, Bool, true, false, Option, none, some, List, [], ◌∷◌, if◌then◌else◌}
use erlfdb.Extern.{run_network}
use erlfdb.World.{World, LibState, network_starting}
use erlfdb.Nif.{same_state}
use erlfdb.Resource.{log}

abbrev pub set_lib_state : LibState → World → World
set_lib_state s w = record w { lib_state = s }

-- Where the caller of erlfdb_setup_network is: at `enif_mutex_lock`, at the test of the loop with
-- the mutex, in `enif_cond_wait` without it, there and signalled, or past `enif_mutex_unlock`.
pub data Waiter : Type 0 where
  at_lock at_test in_wait signalled past : Waiter

-- Where erlfdb_network_thread is: at `enif_mutex_lock`, at the assignment, at `enif_cond_signal`,
-- at `enif_mutex_unlock`, or in `fdb_run_network`.
pub data Starter : Type 0 where
  at_lock at_state at_signal at_unlock in_network : Starter

pub record Threads : Type 0 where
  pub waiter : Waiter
  pub starter : Starter
  pub locked : Bool
  pub world : World

-- The steps of the caller; a thread that cannot take the mutex, or is not signalled, stays.
unfoldable pub step_waiter : Threads → Threads
step_waiter s = elim s.waiter [
  | Waiter.at_lock ↦ if s.locked then s else record s { waiter = Waiter.at_test; locked = true }
  | Waiter.at_test ↦
      if same_state s.world.lib_state network_starting
      then record s { waiter = Waiter.past; locked = false }
      else record s { waiter = Waiter.in_wait; locked = false }
  | Waiter.in_wait ↦ s
  | Waiter.signalled ↦ if s.locked then s else record s { waiter = Waiter.at_test; locked = true }
  | Waiter.past ↦ s
]

-- `enif_cond_signal` wakes the caller if it waits, and is lost otherwise.
abbrev pub wake : Waiter → Waiter
wake Waiter.at_lock = Waiter.at_lock
wake Waiter.at_test = Waiter.at_test
wake Waiter.in_wait = Waiter.signalled
wake Waiter.signalled = Waiter.signalled
wake Waiter.past = Waiter.past

-- The steps of erlfdb_network_thread; after the unlock it calls `fdb_run_network` at once.
unfoldable pub step_starter : Threads → Threads
step_starter s = elim s.starter [
  | Starter.at_lock ↦ if s.locked then s else record s { starter = Starter.at_state; locked = true }
  | Starter.at_state ↦ record s {
    starter = Starter.at_signal;
    world = set_lib_state network_starting s.world;
  }
  | Starter.at_signal ↦ record s { starter = Starter.at_unlock; waiter = wake s.waiter }
  | Starter.at_unlock ↦ record s {
    starter = Starter.in_network;
    locked = false;
    world = log run_network s.world;
  }
  | Starter.in_network ↦ s
]

-- `enif_thread_create` has made the thread, and the caller goes on.
abbrev pub created : World → Threads
created w = record { waiter = Waiter.at_lock; starter = Starter.at_lock; locked = false; world = w }

-- The caller and the thread in turn, until the caller is past the loop. `none` means that the fuel
-- ran out.
unfoldable pub take_turns : ℕ → Threads → Option World
take_turns zero s = none
take_turns (suc fuel) s =
    let rest = take_turns fuel (step_starter (step_waiter s)) in
    elim s.waiter [ Waiter.past ↦ some s.world | _ ↦ rest ]

unfoldable pub wait_for_network : ℕ → World → Option World
wait_for_network fuel w = take_turns fuel (created w)

-- What erlfdb_network_thread does to the state in all.
unfoldable pub network_thread : World → World
network_thread w = log run_network (set_lib_state network_starting w)

-- Either thread.
pub data Party : Type 0 where
  waiter starter : Party

unfoldable pub step_party : Party → Threads → Threads
step_party Party.waiter s = step_waiter s
step_party Party.starter s = step_starter s

unfoldable pub steps : List Party → Threads → Threads
steps [] s = s
steps (p ∷ ps) s = steps ps (step_party p s)
