-- ===== src/System/Isolation.antt =====
-- Processes do not disturb each other's transactions (erlfdb_transaction_is_owner in c_src/main.c).
use erlfdb.Base.{
  ℕ, ◌<◌, ◌≡◌, ◌≢◌, sym, subst, false, inl, inr, none, Option, some, List, ◌==◌, ==_iff, Bool-cases,
  arith,
}
use erlfdb.Term.{Term}
use erlfdb.Extern.{Extern}
use erlfdb.World.{World, Future, Object, Resource, Transaction, Env}
use erlfdb.Resource.{alloc_resource, write}
use erlfdb.Dispatch.{Function, invoke}
use erlfdb.Invariant.{invoke-IsInvariant}
use erlfdb.Invariant.Cells.{IsLocal, Local-IsInvariant}

-- A transaction lies in the cell `i`, with its fields and its count.
record Lies (i : ℕ) (r : Resource) (w : World) : Type 0 where
  taken : i < w.next
  found : w.cell i ≡ some r

Other : ℕ → ℕ → Type 0
Other i j = (j == i) ≡ false

apart : (i j : ℕ) → j ≢ i → Other i j
unfolding Other
apart i j n = elim (Bool-cases (j == i)) [ inl e ↦ absurd (n ((==_iff j i).0 e)) | inr e ↦ e ]

Lies-write :
    (i j : ℕ) (r : Resource) (o : Option Resource) (w : World)
    → Other i j
    → Lies i r w
    → Lies i r (write j o w)
unfolding Other
Lies-write i j r o w a h = record { taken = h.taken; found = ground (arith, a, h.found) }

Lies-IsLocal : (i : ℕ) (r : Resource) → IsLocal (Other i) (Other i) (Lies i r)
unfolding alloc_resource Other
Lies-IsLocal i r = record {
  on_count = λ j n s {w} a e h. Lies-write i j r _ w a h;
  on_clear = λ j {w} a h. Lies-write i j r none w a h;
  on_assign = λ j o s {w} a h. Lies-write i j r _ w a h;
  on_alloc = λ o {w} h.
      let a : (w.next == i) ≡ false = apart i w.next (λ e. absurd (omega (arith, e, h.taken))) in
      record { taken = omega (arith, h.taken); found = ground (arith, a, h.found) };
  new_is_loose = λ {w} h. apart i w.next (λ e. absurd (omega (arith, e, h.taken)));
  new_is_free = λ {w} h. apart i w.next (λ e. absurd (omega (arith, e, h.taken)));
  on_agree = λ {v} {w} e h. record {
    taken = subst (λ n. i < n) (sym e.next) h.taken;
    found = subst (λ c. c i ≡ some r) (sym e.cell) h.found;
  };
}

-- A call of any NIF by a process leaves every transaction that another process owns as it was: all
-- its fields and its reference count.
pub invoke_isolated :
    (ext : Extern) (api : ℕ) (env : Env) (f : Function) (argv : List Term) (w : World) (i n : ℕ)
    (t : Transaction)
    → i < w.next
    → w.cell i ≡ some (record { object = Object.transaction t; count = n })
    → t.owner ≢ env.self
    → (invoke ext api env f argv w).1.cell i
      ≡ some (record { object = Object.transaction t; count = n })
invoke_isolated ext api env f argv w i n t le e foreign =
    let r : Resource = record { object = Object.transaction t; count = n } in
    let inv =
      Local-IsInvariant (Lies-IsLocal i r) ext env
        (λ s v _ h. record { taken = h.taken; found = h.found })
        (λ j m u u' v p o h.
          Lies-write i j r _ v (apart i j (λ q. absurd (foreign (own_is j m u v p o q h)))) h)
        (λ j m g v p h.
          let a = apart i j (λ q. absurd (not_future j m g v p q h)) in
          (a, Lies-write i j r _ v a h))
        (λ j m u v p o h. apart i j (λ q. absurd (foreign (own_is j m u v p o q h)))) in
    (invoke-IsInvariant ext api env inv f argv w (record { taken = le; found = e })).found
  where
    own_is :
        (j m : ℕ) (u : Transaction) (v : World)
        → v.cell j ≡ some (record { object = Object.transaction u; count = m })
        → u.owner ≡ env.self
        → j ≡ i
        → Lies i (record { object = Object.transaction t; count = n }) v
        → t.owner ≡ env.self
    own_is j m u v p o q h = ground (arith, p, o, q, h.found)

    not_future :
        (j m : ℕ) (g : Future) (v : World)
        → v.cell j ≡ some (record { object = Object.future g; count = m })
        → j ≡ i
        → Lies i (record { object = Object.transaction t; count = n }) v
        → ⊥
    not_future j m g v p q h = ground (arith, p, q, h.found)
