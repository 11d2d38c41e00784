-- ===== src/Invariant/Changes.antt =====
-- The kinds of change that a NIF can make to the state, as laws that an invariant has to satisfy.
use erlfdb.Base.{ℕ, ◌+◌, ◌%◌, ◌^◌, ◌≤◌, ◌≡◌, ◌≢◌, true, false, Option, some}
use erlfdb.Term.{Term, resource}
use erlfdb.Extern.{Call, Extern, Fired}
use erlfdb.World.{
  World, LibState, loaded, api_selected, network_starting, connected, FutureType, ft_none, Future,
  Object, Transaction, Env,
}
use erlfdb.Nif.{Outcome}
use erlfdb.Resource.{log, write, alloc_resource, make_resource, release_resource}
use erlfdb.Future.{create_future, run_fired}
use erlfdb.Network.Threads.{set_lib_state}
use erlfdb.Database.{new_transaction}

-- The life of the library.
pub data Edge : LibState → LibState → Type 0 where
  select : Edge loaded api_selected
  start : Edge api_selected network_starting
  connect : Edge network_starting connected

-- What the NIFs do to the fields of a transaction, and when.
pub data Update (t u : Transaction) : Type 0 where
  allow : u ≡ record t { writes_allowed = true } → Update t u
  disallow : t.read_only ≡ true → u ≡ record t { writes_allowed = false } → Update t u
  mutate : t.writes_allowed ≡ true → u ≡ record t { read_only = false } → Update t u
  reset : u ≡ record t { txid = 0; read_only = true; has_watches = false } → Update t u
  watch : t.writes_allowed ≡ true → u ≡ record t { has_watches = true } → Update t u
  next_id : t.txid ≤ 65535 → u ≡ record t { txid = (t.txid + 1) % 2 ^ 32 } → Update t u

-- The objects that a NIF gives to Erlang at once.
pub data IsNew (env : Env) : Object → Type 0 where
  new_database : (d : ℕ) → IsNew env (Object.database d)
  new_tenant : (ten : ℕ) → IsNew env (Object.tenant ten)
  new_tx : {t : Transaction} (h : ℕ) → t ≡ new_transaction env h → IsNew env (Object.transaction t)

-- A new resource given to Erlang.
abbrev pub given : Object → World → World
given o w = release_resource w.next (make_resource w.next (alloc_resource o w))

abbrev pub silenced : ℕ → Future → ℕ → World → World
silenced i f n =
    write i (some (record { object = Object.future (record f { cancelled = true }); count = n }))

-- A transaction that the term names belongs to the caller.
abbrev pub Ours : Env → Option Term → World → Type 0
Ours env tx_ref w =
    (j n : ℕ) (t : Transaction)
    → tx_ref ≡ some (resource j)
    → w.cell j ≡ some (record { object = Object.transaction t; count = n })
    → t.owner ≡ env.self

pub record IsInvariant (ext : Extern) (env : Env) (P : World → Type 0) : Type 0 where
  pub on_log : (c : Call) {w : World} → P w → P (log c w)
  pub on_sentinel : {w : World} → P w → P (record w { sentinel = true })
  pub on_edge : (s : LibState) {w : World} → Edge w.lib_state s → P w → P (set_lib_state s w)
  pub on_update :
      (i n : ℕ) (t u : Transaction) {w : World}
      → w.cell i ≡ some (record { object = Object.transaction t; count = n })
      → t.owner ≡ env.self
      → Update t u
      → P w
      → P (write i (some (record { object = Object.transaction u; count = n })) w)
  pub on_give : (o : Object) {w : World} → IsNew env o → P w → P (given o w)
  pub on_future :
      (tx_ref : Option Term) (to : Option ℕ) (fut : ℕ) (ftype : FutureType) {w : World}
      → ftype ≢ ft_none
      → Ours env tx_ref w
      → P w
      → P (create_future ext env tx_ref to fut ftype w).1
  pub on_silence :
      (i n : ℕ) (f : Future) {w : World}
      → w.cell i ≡ some (record { object = Object.future f; count = n })
      → P w
      → P (silenced i f n w)
  pub on_cancel :
      (fired : Fired) (i n : ℕ) (f : Future) (c : Call) {w : World}
      → w.cell i ≡ some (record { object = Object.future f; count = n })
      → P w
      → P (run_fired fired i (log c (silenced i f n w)))

abbrev pub Kept : (World → Type 0) → Outcome Term → World → Type 0
Kept P r v = P v
