-- ===== src/Tests/Data.antt =====
-- The concrete inputs of the tests: a libfdb_c whose calls all succeed, processes and a transaction.
use erlfdb.Base.{pos, true, false, ◌==◌, if◌then◌else◌, none, some, List, [], ◌∷◌}
use erlfdb.Term.{Term, binary, resource}
use erlfdb.Extern.{Extern, later}
use erlfdb.World.{World, LibState, Object, Transaction, Env}
use erlfdb.System.{initial}

abbrev pub quiet : Extern
quiet = record {
  error = λ _. pos 0;
  handle = λ _. 7;
  holds = λ _. true;
  fired = λ _. later;
  int64 = λ _. pos 730;
  double = λ _. 0;
  bytes = λ _. [];
  strings = λ _. [];
  keyvalues = λ _. [];
  mapped = λ _. [];
  more = λ _. false;
  text = λ _. none;
}

-- The same with no memory left for an environment.
abbrev pub starved : Extern
starved = record quiet { handle = λ _. 0 }

abbrev pub owner : Env
owner = record { id = 1; self = 40 }

abbrev pub stranger : Env
stranger = record { id = 2; self = 41 }

-- A transaction that has given all numbers but one, and one on which writes are disallowed.
abbrev pub worn : Transaction
worn = record {
  transaction = 7;
  owner = 40;
  txid = 65535;
  read_only = true;
  writes_allowed = true;
  has_watches = false;
}

abbrev pub locked : Transaction
locked = record worn { writes_allowed = false }

abbrev pub with_object : Object → World
with_object o = record initial {
  lib_state = LibState.connected;
  next = 1;
  cell = λ j. if 0 == j then some (record { object = o; count = 1 }) else none;
}

abbrev pub worn_world : World
worn_world = with_object (Object.transaction worn)

abbrev pub locked_world : World
locked_world = with_object (Object.transaction locked)

abbrev pub set_args : List Term
set_args = resource 0 ∷ binary (65 ∷ []) ∷ binary (66 ∷ []) ∷ []
