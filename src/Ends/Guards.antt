-- ===== src/Ends/Guards.antt =====
-- The guards at the head of the NIFs only look at the state: what they answer, and what holds then.
use erlfdb.Base.{ℕ, true, ◌≡◌, inl, inr, Option, none, some, List, arith, ==_iff, Bool-cases}
use erlfdb.Term.{Term, atom, resource}
use erlfdb.World.{World, LibState, Object, Resource, Transaction, Future, Env}
use erlfdb.Nif.{Nif, Outcome, badarg, raise, ◌>>=◌, arg}
use erlfdb.Resource.{as_transaction, as_future, as_database, as_tenant, transaction_is_owner}
use erlfdb.Owned.{owned, check_writes, writable}
use erlfdb.Future.{future_of}
use erlfdb.Database.{database_of, tenant_of}
use erlfdb.Ends.{Ends, Ends-assoc, Ends-entry, Ends-get_resource, Ends-check, Ends-pure_bind}

-- What the guards of a transaction's NIF have checked.
pub record Owns (env : Env) (argv : List Term) (w : World) (i : ℕ) (t : Transaction) : Type 0 where
  pub count : ℕ
  pub found : w.cell i ≡ some (record { object = Object.transaction t; count = count })
  pub owner : t.owner ≡ env.self
  pub connected : w.lib_state ≡ LibState.connected
  pub named : arg argv 0 ≡ resource i

as_transaction-eq_some :
    (c : Option Resource) (t : Transaction)
    → as_transaction c ≡ some t
    → (n : ℕ) × (c ≡ some (record { object = Object.transaction t; count = n }))
as_transaction-eq_some none t e = cc
as_transaction-eq_some (some r) t e = (r.count, ground arith)

as_future-eq_some :
    (c : Option Resource) (f : Future)
    → as_future c ≡ some f
    → (n : ℕ) × (c ≡ some (record { object = Object.future f; count = n }))
as_future-eq_some none f e = cc
as_future-eq_some (some r) f e = (r.count, ground arith)

module _ {P : Outcome Term → World → Type 0} where
  pub Ends-check_writes :
      (t : Transaction) (k : Unit {0} → Nif Term) {w : World}
      → P (raise (atom "writes_not_allowed")) w
      → (t.writes_allowed ≡ true → Ends P (k tt) w)
      → Ends P (check_writes t >>= k) w
  unfolding check_writes ◌>>=◌
  Ends-check_writes t k s h = elim (Bool-cases t.writes_allowed) [
    | inl e ↦ record { at = rw (e, ◌>>=◌) (h e).at }
    | inr e ↦ record { at = rw (e, ◌>>=◌) s }
  ]

  pub Ends-owned :
      (env : Env) (n : ℕ) (argv : List Term) (k : ℕ × Transaction → Nif Term) {w : World}
      → P badarg w
      → ((i : ℕ) (t : Transaction) → Owns env argv w i t → Ends P (k (i, t)) w)
      → Ends P (owned env n argv >>= k) w
  unfolding owned transaction_is_owner
  Ends-owned env n argv k {w} s h = Ends-assoc _ _ _ (
      Ends-entry n argv _ s λ c. Ends-assoc _ _ _ (
        Ends-get_resource as_transaction _ _ s λ i t m e.
          let (count, found) = as_transaction-eq_some (w.cell i) t e in
          Ends-assoc _ _ _ (
            Ends-check _ _ s λ o.
              Ends-pure_bind (i, t) k
                (h i t (record {
                  count = count;
                  found = found;
                  owner = (==_iff _ _).0 o;
                  connected = c;
                  named = m;
                })))))

  pub Ends-writable :
      (env : Env) (n : ℕ) (argv : List Term) (k : ℕ × Transaction → Nif Term) {w : World}
      → P badarg w
      → P (raise (atom "writes_not_allowed")) w
      → ((i : ℕ) (t : Transaction)
          → Owns env argv w i t
          → t.writes_allowed ≡ true
          → Ends P (k (i, t)) w)
      → Ends P (writable env n argv >>= k) w
  unfolding writable
  Ends-writable env n argv k s r h = Ends-assoc _ _ _ (
      Ends-owned env n argv _ s λ i t o.
        Ends-assoc _ _ _ (Ends-check_writes t _ r λ e. Ends-pure_bind (i, t) k (h i t o e)))

  pub Ends-future_of :
      (env : Env) (argv : List Term) (k : ℕ × Future → Nif Term) {w : World}
      → P badarg w
      → ((i : ℕ) (f : Future) (n : ℕ)
          → w.lib_state ≡ LibState.connected
          → w.cell i ≡ some (record { object = Object.future f; count = n })
          → Ends P (k (i, f)) w)
      → Ends P (future_of argv >>= k) w
  unfolding future_of
  Ends-future_of env argv k {w} s h = Ends-assoc _ _ _ (
      Ends-entry 1 argv _ s λ c.
        Ends-get_resource as_future _ _ s
          λ i f _ e. let (n, found) = as_future-eq_some (w.cell i) f e in h i f n c found)

  pub Ends-database_of :
      (n : ℕ) (argv : List Term) (k : ℕ × ℕ → Nif Term) {w : World}
      → P badarg w
      → ((i d : ℕ) → w.lib_state ≡ LibState.connected → Ends P (k (i, d)) w)
      → Ends P (database_of n argv >>= k) w
  unfolding database_of
  Ends-database_of n argv k s h =
      Ends-assoc _ _ _
        (Ends-entry n argv _ s λ c. Ends-get_resource as_database _ _ s λ i d _ _. h i d c)

  pub Ends-tenant_of :
      (n : ℕ) (argv : List Term) (k : ℕ × ℕ → Nif Term) {w : World}
      → P badarg w
      → ((i d : ℕ) → w.lib_state ≡ LibState.connected → Ends P (k (i, d)) w)
      → Ends P (tenant_of n argv >>= k) w
  unfolding tenant_of
  Ends-tenant_of n argv k s h =
      Ends-assoc _ _ _
        (Ends-entry n argv _ s λ c. Ends-get_resource as_tenant _ _ s λ i d _ _. h i d c)
