-- ===== src/System.antt =====
-- The library at work: any order of NIF calls, of callbacks that libfdb_c runs on its network thread
-- and of terms that Erlang's garbage collector drops, from the state that erlfdb_load leaves.
pub mod Flags
pub mod Isolation
pub mod Silence
pub mod Lifecycle
pub mod Balance
use erlfdb.Base.{ℕ, false, none, List, [], ◌∷◌}
use erlfdb.Term.{Term}
use erlfdb.Extern.{Extern}
use erlfdb.World.{World, loaded, Env}
use erlfdb.Resource.{drop_term, drop_stray}
use erlfdb.Future.{network, fire}
use erlfdb.Dispatch.{Function, invoke}

pub data Event : Type 0 where
  calls : Env → Function → List Term → Event
  fires : ℕ → Event
  drops : ℕ → Event
  collects : ℕ → Event

abbrev pub initial : World
initial = record {
  lib_state = loaded;
  sentinel = false;
  next = 0;
  cell = λ _. none;
  pending = λ _. 0;
  held = λ _. 0;
  copies = λ _. none;
  stray = λ _. 0;
  next_ref = 0;
  sent = [];
  trace = [];
  faults = 0;
}

module _ (ext : Extern) (api : ℕ) where
  unfoldable pub step : Event → World → World
  step (calls env f argv) w = (invoke ext api env f argv w).1
  step (fires i) w = fire network i w
  step (drops i) w = drop_term i w
  step (collects i) w = drop_stray i w

  unfoldable pub run : List Event → World → World
  run [] w = w
  run (e ∷ es) w = run es (step e w)
