-- ===== src/Counts.antt =====
-- The reference counts of the resources (c_src/main.c, the comments of erlfdb_create_future): every
-- reference is a term's, libfdb_c's or the running code's, and a count is the number of them.
pub mod Parts
pub mod Ops
pub mod Callback
pub mod Copy
pub mod Create
pub mod Fill
use erlfdb.Base.{
  ℕ, ◌+◌, ◌≤◌, ◌<◌, ◌≡◌, ◌≢◌, ◌⊎◌, Bool, true, false, Option, none, some, if◌then◌else◌, ◌==◌,
}
use erlfdb.World.{World, Field, garbage, Future, Object, Resource}
use erlfdb.World.Tally.{tally}

-- A destructor finds no garbage in the object.
abbrev pub IsFilled : Object → Type 0
IsFilled (Object.future f) = (f.msg_env ≢ garbage) × (f.lock ≢ garbage)
IsFilled _ = Unit {0}

abbrev pub is_future : Object → Bool
is_future (Object.future f) = true
is_future _ = false

-- The terms that refer to the resource `j`: Erlang's, those that have left a msg_env, and those that
-- were copied to a msg_env and are there.
unfoldable pub terms : World → ℕ → ℕ
terms w j = w.held j + w.stray j + tally w.copies w.next j

-- A resource with `p` references of libfdb_c, `h` of terms and `k` of the running code.
pub record Counted (r : Resource) (p h k : ℕ) : Type 0 where
  pub total : r.count ≡ p + h + k
  pub alive : 0 < r.count
  pub once : p ≤ 1
  pub filled : IsFilled r.object
  pub called : (p ≡ 0) ⊎ (is_future r.object ≡ true)

abbrev pub CellOk : Option Resource → ℕ → ℕ → ℕ → Type 0
CellOk none p h k = (p ≡ 0) × (h ≡ 0) × (k ≡ 0)
CellOk (some r) p h k = Counted r p h k

-- The running code holds `k` references to the resource `i`, and none to another.
abbrev pub own : ℕ → ℕ → ℕ → ℕ
own i k j = if i == j then k else 0

pub record Balanced (i k : ℕ) (w : World) : Type 0 where
  pub at : (j : ℕ) → CellOk (w.cell j) (w.pending j) (terms w j) (own i k j)
  pub fresh : (j : ℕ) → w.next ≤ j → w.cell j ≡ none
  pub blank : (j : ℕ) → w.next ≤ j → w.copies j ≡ none
  pub sound : w.faults ≡ 0

-- Between two calls the code holds no reference.
pub record IsBalanced (w : World) : Type 0 where
  pub at : (j : ℕ) → CellOk (w.cell j) (w.pending j) (terms w j) 0
  pub fresh : (j : ℕ) → w.next ≤ j → w.cell j ≡ none
  pub blank : (j : ℕ) → w.next ≤ j → w.copies j ≡ none
  pub sound : w.faults ≡ 0
