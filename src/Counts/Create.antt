-- ===== src/Counts/Create.antt =====
-- The reference counting of erlfdb_create_future and of the NIFs: where no allocation of an
-- environment fails, every call leaves the references balanced.
use mathlib.Core.Path.{fun_ext}
use erlfdb.Base.{
  ℕ, ℤ, ap, eq_refl, ◌+◌, ◌≡◌, refl, sym, subst, inl, inr, true, none, some, arith, ◌==◌, ==_iff,
  Bool-cases,
}
use erlfdb.Term.{Term, atom, resource, make_tuple3}
use erlfdb.Extern.{Call, Extern, Fired, future_set_callback}
use erlfdb.World.{World, Future, Object, Resource, Env}
use erlfdb.Nif.{◌>>◌, modify, pure}
use erlfdb.Resource.{log, alloc_resource, keep_resource, make_resource, release_resource, assign}
use erlfdb.Util.{erlang_error}
use erlfdb.Future.{run_fired, register, set_callback}
use erlfdb.Ends.{Ends, Ends-pure, Ends-ask, Ends-if, Ends-error, Ends-modify, assign_lem}
use erlfdb.Invariant.Changes.{Kept}
use erlfdb.World.Tally.{one, tally_suc, one-none}
use erlfdb.Counts.{terms, own, IsFilled, is_future, Counted, CellOk, Balanced, IsBalanced}
use erlfdb.Counts.Copy.{Filling}
use erlfdb.Counts.Parts.{plain}
use erlfdb.Counts.Ops.{same-Balanced, keep-Balanced, release-Balanced}
use erlfdb.Counts.Callback.{register-Balanced, make-Balanced, run_fired-Balanced, Balanced-none}

-- Nothing is in the msg_env of the new resource.
terms_alloc :
    (o : Object) (w : World) (j : ℕ)
    → w.copies w.next ≡ none
    → terms (alloc_resource o w) j ≡ terms w j
unfolding terms alloc_resource
terms_alloc o w j e =
    let was : one (w.copies w.next) j ≡ one none j = ap (λ c. one c j) e in
    omega (arith, tally_suc w.copies w.next j, was, one-none j)

-- The state with the new resource: its one reference is the running code's.
pub alloc-Balanced :
    (o : Object) (w : World) → IsFilled o → IsBalanced w → Balanced w.next 1 (alloc_resource o w)
unfolding alloc_resource
alloc-Balanced o w f h =
    let z =
      subst (λ c. CellOk c (w.pending w.next) (terms w w.next) 0) (h.fresh w.next (omega arith))
        (h.at w.next) in
    record {
      at = λ j.
          let same : terms (alloc_resource o w) j ≡ terms w j =
            terms_alloc o w j (h.blank w.next (omega arith)) in
          subst (λ t. CellOk ((alloc_resource o w).cell j) (w.pending j) t (own w.next 1 j))
            (sym same)
            (elim (Bool-cases (w.next == j)) [
              | inl e ↦ rw e (
                  let p : w.next ≡ j = (==_iff w.next j).0 e in
                  subst
                    (λ x. Counted (record { object = o; count = 1 }) (w.pending x) (terms w x) 1) p
                    (record {
                      total = omega (arith, z);
                      alive = omega arith;
                      once = omega (arith, z);
                      filled = f;
                      called = inl z.0;
                    }))
              | inr e ↦ rw e (h.at j)
            ]);
      fresh = λ j le. elim (Bool-cases (w.next == j)) [
        | inl e ↦ absurd (omega (arith, (==_iff w.next j).0 e, le))
        | inr e ↦ rw e (h.fresh j (omega (arith, le)))
      ];
      blank = λ j le. h.blank j (omega (arith, le));
      sound = h.sound;
    }

pub logged : (c : Call) {i k : ℕ} {w : World} → Balanced i k w → Balanced i k (log c w)
logged c h = same-Balanced (plain (ground arith)) h

keep-cell :
    (i : ℕ) (w : World) (r : Resource)
    → w.cell i ≡ some r
    → ((keep_resource i w).cell i ≡ some (record r { count = r.count + 1 }))
      × ((keep_resource i w).pending ≡ w.pending)
unfolding keep_resource
keep-cell i w r e = (ground arith, ground arith)

-- A filled object in the place of the new future.
pub alloc-Filling :
    (f : Future) (w : World) → IsBalanced w → Filling w.next f (alloc_resource (Object.future f) w)
unfolding alloc_resource terms
alloc-Filling f w h =
    let z =
      subst (λ c. CellOk c (w.pending w.next) (terms w w.next) 0) (h.fresh w.next (omega arith))
        (h.at w.next) in
    record {
      found = ground (arith, eq_refl w.next);
      quiet = z.0;
      balanced = λ g filled.
          same-Balanced
            (record {
              cell =
                  fun_ext
                    λ j. elim (Bool-cases (w.next == j)) [ inl e ↦ rw e refl | inr e ↦ rw e refl ];
              pending = refl;
              terms = λ j. refl;
              next = refl;
              blank = λ b. b;
              faults = refl;
            })
            (alloc-Balanced (Object.future g) w filled h);
    }

module _ (ext : Extern) (env : Env) where
  -- The callback is registered; it may have run before the new term is made.
  accepted :
      (i : ℕ) (ref : Term) (fired : World → Fired) {v : World} (r : Resource)
      → v.cell i ≡ some r
      → is_future r.object ≡ true
      → v.pending i ≡ 0
      → Balanced i 2 v
      → Ends
          (Kept IsBalanced)
          (do
            modify (λ w. run_fired (fired w) i (register i w))
            modify (make_resource i)
            modify (release_resource i)
            pure (make_tuple3 (atom "erlfdb_future") ref (resource i)))
          v
  accepted i ref fired {v} r e f z h = Ends-modify _ _ (
      Ends-modify _ _ (
        Ends-modify _ _ (
          Ends-pure _ (
            Balanced-none i _ (
              release-Balanced i 0 _ (
                make-Balanced i 0 _
                  (run_fired-Balanced (fired v) i 1 _ (register-Balanced i 1 v r e f z h))))))))

  rejected :
      (i : ℕ) (err : ℤ) {v : World}
      → Balanced i 2 v
      → Ends
          (Kept IsBalanced)
          (do modify (release_resource i); modify (release_resource i); erlang_error err)
          v
  rejected i err h = Ends-modify _ _ (
      Ends-modify _ _
        (Ends-error err (Balanced-none i _ (release-Balanced i 0 _ (release-Balanced i 1 _ h)))))

  pub set_callback-IsBalanced :
      (i fut : ℕ) (ref : Term) {w : World} (r : Resource)
      → w.cell i ≡ some r
      → is_future r.object ≡ true
      → w.pending i ≡ 0
      → Balanced i 1 w
      → Ends (Kept IsBalanced) (set_callback ext env i fut ref) w
  unfolding set_callback
  set_callback-IsBalanced i fut ref {w} r e f z h =
      let (kept, pending) = keep-cell i w r e in
      let z' : (keep_resource i w).pending i ≡ 0 = subst (λ p. p i ≡ 0) (sym pending) z in
      let g = keep-Balanced i 0 w h in
      let v : World = log (future_set_callback fut) (keep_resource i w) in
      let b : Balanced i 2 v = logged _ g in
      Ends-modify _ _ (
        Ends-ask _ _ _ λ err _. search (
          Ends-if,
          accepted i ref (λ u. ext.fired u.trace) {v = v} (record r { count = r.count + 1 }) kept f
              z' b,
          rejected i err {v = v} b,
        ))

-- The object is filled in the cell that was allocated.
pub assign-Balanced :
    (i : ℕ) (f g : Future) (w : World)
    → IsFilled (Object.future g)
    → Filling i f w
    → Balanced i 1 (assign i (Object.future g) w)
assign-Balanced i f g w filled s =
    rw (assign_lem i (Object.future g) w _ s.found) (s.balanced g filled)
