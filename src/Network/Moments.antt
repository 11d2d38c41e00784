-- ===== src/Network/Moments.antt =====
-- The moments of the wait of erlfdb_setup_network in c_src/main.c for the network thread: where the
-- two threads can be, and what a step of either leads to.
use erlfdb.Base.{ℕ, ◌<◌, ◌≡◌, refl, ◌⊎◌, inl, inr, true, false, arith}
use erlfdb.World.{World, api_selected, network_starting}
use erlfdb.Network.Threads.{
  Waiter, Starter, Threads, Party, set_lib_state, network_thread, created, step_waiter,
  step_starter, step_party,
}

-- The moments of a run, by where the caller and the thread are.
pub data Moment : Type 0 where
  created_both tested_first waits takes takes_waited stores stores_waited : Moment
  unlocks unlocks_signalled runs runs_signalled tests leaves : Moment

-- The states, from the state `w` of the library.
unfoldable pub state : World → Moment → Threads
state w Moment.created_both = created w
state w Moment.tested_first = record (created w) { waiter = Waiter.at_test; locked = true }
state w Moment.waits = record (created w) { waiter = Waiter.in_wait }
state w Moment.takes = record (created w) { starter = Starter.at_state; locked = true }
state w Moment.takes_waited = record {
  waiter = Waiter.in_wait;
  starter = Starter.at_state;
  locked = true;
  world = w;
}
state w Moment.stores = record {
  waiter = Waiter.at_lock;
  starter = Starter.at_signal;
  locked = true;
  world = set_lib_state network_starting w;
}
state w Moment.stores_waited = record {
  waiter = Waiter.in_wait;
  starter = Starter.at_signal;
  locked = true;
  world = set_lib_state network_starting w;
}
state w Moment.unlocks = record {
  waiter = Waiter.at_lock;
  starter = Starter.at_unlock;
  locked = true;
  world = set_lib_state network_starting w;
}
state w Moment.unlocks_signalled = record {
  waiter = Waiter.signalled;
  starter = Starter.at_unlock;
  locked = true;
  world = set_lib_state network_starting w;
}
state w Moment.runs = record {
  waiter = Waiter.at_lock;
  starter = Starter.in_network;
  locked = false;
  world = network_thread w;
}
state w Moment.runs_signalled = record {
  waiter = Waiter.signalled;
  starter = Starter.in_network;
  locked = false;
  world = network_thread w;
}
state w Moment.tests = record {
  waiter = Waiter.at_test;
  starter = Starter.in_network;
  locked = true;
  world = network_thread w;
}
state w Moment.leaves = record {
  waiter = Waiter.past;
  starter = Starter.in_network;
  locked = false;
  world = network_thread w;
}

unfoldable pub next : Party → Moment → Moment
next Party.waiter Moment.created_both = Moment.tested_first
next Party.waiter Moment.tested_first = Moment.waits
next Party.waiter Moment.runs = Moment.tests
next Party.waiter Moment.runs_signalled = Moment.tests
next Party.waiter Moment.tests = Moment.leaves
next Party.waiter m = m
next Party.starter Moment.created_both = Moment.takes
next Party.starter Moment.waits = Moment.takes_waited
next Party.starter Moment.takes = Moment.stores
next Party.starter Moment.takes_waited = Moment.stores_waited
next Party.starter Moment.stores = Moment.unlocks
next Party.starter Moment.stores_waited = Moment.unlocks_signalled
next Party.starter Moment.unlocks = Moment.runs
next Party.starter Moment.unlocks_signalled = Moment.runs_signalled
next Party.starter m = m

pub step-state :
    (w : World) (p : Party) (m : Moment)
    → w.lib_state ≡ api_selected
    → step_party p (state w m) ≡ state w (next p m)
unfolding step_party step_waiter step_starter state next network_thread
step-state w Party.waiter Moment.created_both e = refl
step-state w Party.waiter Moment.tested_first e = rw e refl
step-state w Party.waiter Moment.waits e = refl
step-state w Party.waiter Moment.takes e = refl
step-state w Party.waiter Moment.takes_waited e = refl
step-state w Party.waiter Moment.stores e = refl
step-state w Party.waiter Moment.stores_waited e = refl
step-state w Party.waiter Moment.unlocks e = refl
step-state w Party.waiter Moment.unlocks_signalled e = refl
step-state w Party.waiter Moment.runs e = refl
step-state w Party.waiter Moment.runs_signalled e = refl
step-state w Party.waiter Moment.tests e = refl
step-state w Party.waiter Moment.leaves e = refl
step-state w Party.starter Moment.created_both e = refl
step-state w Party.starter Moment.tested_first e = refl
step-state w Party.starter Moment.waits e = refl
step-state w Party.starter Moment.takes e = refl
step-state w Party.starter Moment.takes_waited e = refl
step-state w Party.starter Moment.stores e = refl
step-state w Party.starter Moment.stores_waited e = refl
step-state w Party.starter Moment.unlocks e = refl
step-state w Party.starter Moment.unlocks_signalled e = refl
step-state w Party.starter Moment.runs e = refl
step-state w Party.starter Moment.runs_signalled e = refl
step-state w Party.starter Moment.tests e = refl
step-state w Party.starter Moment.leaves e = refl

-- The most steps that are left.
unfoldable pub left : Moment → ℕ
left Moment.created_both = 9
left Moment.tested_first = 8
left Moment.waits = 7
left Moment.takes = 6
left Moment.takes_waited = 6
left Moment.stores = 5
left Moment.stores_waited = 5
left Moment.unlocks = 4
left Moment.unlocks_signalled = 4
left Moment.runs = 2
left Moment.runs_signalled = 2
left Moment.tests = 1
left Moment.leaves = 0

-- A step goes on or changes nothing.
pub next-left : (p : Party) (m : Moment) → (left (next p m) < left m) ⊎ (next p m ≡ m)
unfolding left next
next-left Party.waiter Moment.created_both = inl (omega arith)
next-left Party.waiter Moment.tested_first = inl (omega arith)
next-left Party.waiter Moment.waits = inr refl
next-left Party.waiter Moment.takes = inr refl
next-left Party.waiter Moment.takes_waited = inr refl
next-left Party.waiter Moment.stores = inr refl
next-left Party.waiter Moment.stores_waited = inr refl
next-left Party.waiter Moment.unlocks = inr refl
next-left Party.waiter Moment.unlocks_signalled = inr refl
next-left Party.waiter Moment.runs = inl (omega arith)
next-left Party.waiter Moment.runs_signalled = inl (omega arith)
next-left Party.waiter Moment.tests = inl (omega arith)
next-left Party.waiter Moment.leaves = inr refl
next-left Party.starter Moment.created_both = inl (omega arith)
next-left Party.starter Moment.tested_first = inr refl
next-left Party.starter Moment.waits = inl (omega arith)
next-left Party.starter Moment.takes = inl (omega arith)
next-left Party.starter Moment.takes_waited = inl (omega arith)
next-left Party.starter Moment.stores = inl (omega arith)
next-left Party.starter Moment.stores_waited = inl (omega arith)
next-left Party.starter Moment.unlocks = inl (omega arith)
next-left Party.starter Moment.unlocks_signalled = inl (omega arith)
next-left Party.starter Moment.runs = inr refl
next-left Party.starter Moment.runs_signalled = inr refl
next-left Party.starter Moment.tests = inr refl
next-left Party.starter Moment.leaves = inr refl

-- One of the two can go on until the caller has left.
unfoldable pub goes : Moment → Party
goes Moment.created_both = Party.waiter
goes Moment.tested_first = Party.waiter
goes Moment.runs = Party.waiter
goes Moment.runs_signalled = Party.waiter
goes Moment.tests = Party.waiter
goes m = Party.starter

pub goes-left : (m : Moment) → (left (next (goes m) m) < left m) ⊎ (m ≡ Moment.leaves)
unfolding left next goes
goes-left Moment.created_both = inl (omega arith)
goes-left Moment.tested_first = inl (omega arith)
goes-left Moment.waits = inl (omega arith)
goes-left Moment.takes = inl (omega arith)
goes-left Moment.takes_waited = inl (omega arith)
goes-left Moment.stores = inl (omega arith)
goes-left Moment.stores_waited = inl (omega arith)
goes-left Moment.unlocks = inl (omega arith)
goes-left Moment.unlocks_signalled = inl (omega arith)
goes-left Moment.runs = inl (omega arith)
goes-left Moment.runs_signalled = inl (omega arith)
goes-left Moment.tests = inl (omega arith)
goes-left Moment.leaves = inr refl
