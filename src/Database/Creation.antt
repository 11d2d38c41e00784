-- ===== src/Database/Creation.antt =====
-- New transactions of c_src/main.c, from a database or from a tenant.
use erlfdb.Base.{
  ℤ, String, true, false, ◌≡◌, refl, ◌∷◌, is_zero, if◌then◌else◌, Bool-cases, inl, inr,
}
use erlfdb.Term.{atom, resource, make_tuple2}
use erlfdb.Extern.{Call, Extern, transaction_call, destroy}
use erlfdb.World.{World, Object, Env}
use erlfdb.Nif.{ok, badarg, raise, ◌>>=◌, ask}
use erlfdb.Resource.{log}
use erlfdb.Util.{error_term, erlang_error}
use erlfdb.Database.{new_transaction, give_resource, start_transaction}
use erlfdb.Ends.{Ends, Ends-modify, Ends-pure, Ends-tell, Ends-make_badarg}
use erlfdb.Future.At.{
  At, alloc-At, make-At, release-At, Ends-get, Ends-answer, Ends-then, Ends-else,
}

module _ (ext : Extern) (env : Env) where
  given-At :
      (tag : String) (o : Object) (c : Call) (w : World)
      → ext.holds (Call.alloc_resource ∷ w.trace) ≡ true
      → w.pending w.next ≡ 0
      → w.held w.next ≡ 0
      → Ends
          (λ r v. (r ≡ ok (make_tuple2 (atom tag) (resource w.next))) × At w.next o 1 0 1 v)
          (give_resource ext env tag o c)
          w
  unfolding give_resource
  given-At tag o c w a p h = Ends-answer _ _ _ (
      Ends-then _ _ a (
        Ends-get _ _ (
          Ends-modify _ _ (
            Ends-modify _ _ (
              Ends-modify _ _ (
                Ends-pure _ (
                  refl,
                  release-At {n = 0} (
                      make-At {c = 1} {p = 0} {h = 0} (alloc-At o (log Call.alloc_resource w) p h)),
                )))))))

  refused :
      (tag : String) (o : Object) (c : Call) (w : World)
      → ext.holds (Call.alloc_resource ∷ w.trace) ≡ false
      → Ends
          (λ r v. (r ≡ badarg) × (v ≡ log c (log Call.alloc_resource w)))
          (give_resource ext env tag o c)
          w
  unfolding give_resource
  refused tag o c w a =
      Ends-answer _ _ _ (Ends-else _ _ a (Ends-tell _ _ (Ends-make_badarg (refl, refl))))

  -- Where the call that creates a transaction and the allocation succeed, and nothing refers to
  -- the new resource's number, the NIF returns {erlfdb_transaction, Tx}, and the resource holds a
  -- transaction with the new handle, owned by the caller, whose counter is 0, which is read-only,
  -- allows writes and has no watches, and it has one reference, the term's.
  pub start_transaction-At :
      (c : Call) (w : World)
      → is_zero (ext.error (c ∷ w.trace)) ≡ true
      → ext.holds (Call.alloc_resource ∷ c ∷ w.trace) ≡ true
      → w.pending w.next ≡ 0
      → w.held w.next ≡ 0
      → let r = start_transaction ext env c w in
        (r.0 ≡ ok (make_tuple2 (atom "erlfdb_transaction") (resource w.next)))
        × At w.next
            (Object.transaction (record {
              transaction = ext.handle (c ∷ w.trace);
              owner = env.self;
              txid = 0;
              read_only = true;
              writes_allowed = true;
              has_watches = false;
            }))
            1
            0
            1
            r.1
  unfolding start_transaction ◌>>=◌ ask
  start_transaction-At c w z a p h =
      rw (z, ◌>>=◌)
        (given-At "erlfdb_transaction"
          (Object.transaction (new_transaction env (ext.handle (c ∷ w.trace)))) _ (log c w) a p
          h).at

  -- Where the resource of a new transaction cannot be allocated, the NIF raises the error of the
  -- call that creates the transaction, or, where that call succeeded, destroys the new handle and
  -- answers badarg; nothing else changes.
  pub start_transaction-failed :
      (c : Call) (w : World)
      → ext.holds (Call.alloc_resource ∷ c ∷ w.trace) ≡ false
      → let err : ℤ = ext.error (c ∷ w.trace) in
        let lost : Call = transaction_call (ext.handle (c ∷ w.trace)) destroy in
        start_transaction ext env c w ≡ (
          if is_zero err
          then (badarg, log lost (log Call.alloc_resource (log c w)))
          else (raise (error_term err), log c w))
  unfolding start_transaction ◌>>=◌ ask erlang_error
  start_transaction-failed c w a = elim (Bool-cases (is_zero (ext.error (c ∷ w.trace)))) [
    | inl z ↦
        let lost : Call = transaction_call (ext.handle (c ∷ w.trace)) destroy in
        let o : Object = Object.transaction (new_transaction env (ext.handle (c ∷ w.trace))) in
        let r = (refused "erlfdb_transaction" o lost (log c w) a).at in
        rw (z, ◌>>=◌) (λ i. (r.0 i, r.1 i))
    | inr z ↦ rw (z, ◌>>=◌) refl
  ]
