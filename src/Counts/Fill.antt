-- ===== src/Counts/Fill.antt =====
-- erlfdb_create_future, with an allocation of an environment that does not fail, leaves the
-- references balanced on every path.
use erlfdb.Base.{
  ℕ, ◌+◌, ◌≡◌, ◌≢◌, refl, sym, subst, ◌∙◌, inl, inr, false, Option, none, some, List, ◌∷◌, arith,
  ◌==◌, ==_iff, eq_refl,
}
use erlfdb.Term.{Term}
use erlfdb.Extern.{Call, Extern, alloc_env, mutex_create}
use erlfdb.World.{World, null, object, Future, FutureType, Object, Env}
use erlfdb.Nif.{◌>>◌, modify, make_badarg}
use erlfdb.Resource.{log, write, assign, alloc_resource, release_resource}
use erlfdb.Future.{set_callback, fill_future, create_future, new_future, message_ref, make_copy}
use erlfdb.Ends.{
  Ends, Ends-ask, Ends-if, Ends-gets, Ends-modify, Ends-tell, Ends-make_badarg, assign_lem,
}
use erlfdb.Invariant.Changes.{IsInvariant, Kept, IsNew, given, silenced}
use erlfdb.Counts.{terms, IsFilled, Counted, IsBalanced}
use erlfdb.Counts.Copy.{Filling, make_copy-Filling}
use erlfdb.Counts.Parts.{SameParts, plain}
use erlfdb.Counts.Ops.{same-Balanced, release-Balanced, write-Balanced, at_some, not_new}
use erlfdb.Counts.Callback.{make-Balanced, run_fired-Balanced, Balanced-none, Balanced-any}
use erlfdb.Counts.Create.{
  assign-Balanced, set_callback-IsBalanced, alloc-Balanced, alloc-Filling, logged,
}

-- `enif_alloc_env` answers an environment, whatever was called before.
abbrev pub HasEnvs : Extern → Type 0
HasEnvs ext = (h : List Call) → ext.handle (alloc_env ∷ h) ≢ 0

module _ (ext : Extern) (env : Env) where
  unlocked :
      (i : ℕ) (f g : Future) (w : World)
      → IsFilled (Object.future g)
      → Filling i f w
      → Ends
          (Kept IsBalanced)
          (do modify (assign i (Object.future g)); modify (release_resource i); make_badarg)
          w
  unlocked i f g w filled s = Ends-modify _ _ (
      Ends-modify _ _ (
        Ends-make_badarg
          (Balanced-none i _ (release-Balanced i 0 _ (assign-Balanced i f g w filled s)))))

  locked :
      (i : ℕ) (f g : Future) (w : World) (fut : ℕ) (ref : Term)
      → IsFilled (Object.future g)
      → Filling i f w
      → Ends
          (Kept IsBalanced)
          (do modify (assign i (Object.future g)); set_callback ext env i fut ref)
          w
  locked i f g w fut ref filled s =
      let o = Object.future g in
      let e = assign_lem i o w _ s.found in
      Ends-modify _ _ (
        set_callback-IsBalanced ext env i fut ref (record { object = o; count = 1 })
          (rw e (ground (arith, eq_refl i))) refl (rw e s.quiet) (assign-Balanced i f g w filled s))

  logged-Filling :
      (i : ℕ) (f : Future) (c : Call) (w : World) → Filling i f w → Filling i f (log c w)
  logged-Filling i f c w s = record {
    found = s.found;
    quiet = s.quiet;
    balanced = λ g filled. same-Balanced (plain (ground arith)) (s.balanced g filled);
  }

  fill_future-IsBalanced :
      (i : ℕ) (f : Future) (w : World) (tx_ref : Option Term) (fut : ℕ) (ref : Term)
      → HasEnvs ext
      → w.copies i ≡ none
      → Filling i f w
      → Ends (Kept IsBalanced) (fill_future ext env f i tx_ref fut ref) w
  unfolding fill_future
  fill_future-IsBalanced i f w tx_ref fut ref envs blank s = Ends-ask _ _ _ λ m em.
      Ends-if (m == 0) _ _ (λ z. absurd (envs w.trace (sym em ∙ (==_iff m 0).0 z)))
        (λ _.
          let g : Future = record f { msg_env = object m; msg_ref = message_ref tx_ref ref } in
          let v : World = log alloc_env w in
          let t = make_copy-Filling i f tx_ref v blank (logged-Filling i f alloc_env w s) in
          Ends-modify _ _ (
            Ends-ask _ _ _ λ l el.
              let t' =
                logged-Filling i f (mutex_create "fdb:future_lock") (make_copy i tx_ref v) t in
              Ends-if (l == 0) _ _
                (λ _. unlocked i f (record g { lock = null }) _ (λ e. cc, λ e. cc) t')
                (λ _.
                  locked i f (record g { lock = object l; cancelled = false }) _ fut ref
                    (λ e. cc, λ e. cc) t')))

  same-IsBalanced : {v w : World} → SameParts v w → IsBalanced w → IsBalanced v
  same-IsBalanced s h = Balanced-none 0 _ (same-Balanced s (Balanced-any 0 _ h))

  pub create_future-IsBalanced :
      (tx_ref : Option Term) (to : Option ℕ) (fut : ℕ) (ftype : FutureType) {w : World}
      → HasEnvs ext
      → IsBalanced w
      → Ends (Kept IsBalanced) (create_future ext env tx_ref to fut ftype) w
  unfolding create_future alloc_resource
  create_future-IsBalanced tx_ref to fut ftype {w} envs h = Ends-gets _ _ λ ref _. Ends-modify _ _ (
      Ends-ask _ _ _ λ ok _.
        let v : World = log Call.alloc_resource (record w { next_ref = w.next_ref + 1 }) in
        let g : IsBalanced v = same-IsBalanced (plain (ground arith)) h in
        Ends-if ok _ _
          (λ _. Ends-gets _ _ λ i e. Ends-modify _ _ (
            let f = new_future env to fut ftype in
            subst
              (λ j.
                Ends (Kept IsBalanced) (fill_future ext env f j tx_ref fut ref)
                  (alloc_resource (Object.future f) v))
              (sym e)
              (fill_future-IsBalanced v.next f (alloc_resource (Object.future f) v) tx_ref fut ref
                envs (g.blank v.next (omega arith)) (alloc-Filling f v g))))
          (λ _. Ends-tell _ _ (Ends-make_badarg (same-IsBalanced (plain (ground arith)) g))))

  update-IsBalanced :
      (i n : ℕ) (o p : Object) (w : World)
      → w.cell i ≡ some (record { object = o; count = n })
      → (Counted (record { object = o; count = n }) (w.pending i) (terms w i) 0
          → Counted (record { object = p; count = n }) (w.pending i) (terms w i) 0)
      → IsBalanced w
      → IsBalanced (write i (some (record { object = p; count = n })) w)
  update-IsBalanced i n o p w e k h =
      let b = Balanced-any i w h in
      Balanced-none i _ (
        write-Balanced i 0 0 _ w (k (at_some i 0 w _ e b)) (λ le. absurd (not_new i 0 w _ e b le))
          b)

  silenced-IsBalanced :
      (i n : ℕ) (f : Future) (w : World)
      → w.cell i ≡ some (record { object = Object.future f; count = n })
      → IsBalanced w
      → IsBalanced (silenced i f n w)
  silenced-IsBalanced i n f w e h =
      update-IsBalanced i n _ _ w e
        (λ c. record {
          total = c.total;
          alive = c.alive;
          once = c.once;
          filled = c.filled;
          called = inr refl;
        })
        h

  given-IsBalanced : (o : Object) (w : World) → IsNew env o → IsBalanced w → IsBalanced (given o w)
  given-IsBalanced o w n h = Balanced-none w.next _ (
      release-Balanced w.next 0 _
        (make-Balanced w.next 0 _ (alloc-Balanced o w (new_filled o n) h)))
    where
      new_filled : (p : Object) → IsNew env p → IsFilled p
      new_filled (Object.future f) m = elim m [ ]
      new_filled (Object.database d) m = tt
      new_filled (Object.tenant ten) m = tt
      new_filled (Object.transaction t) m = tt

  pub IsBalanced-IsInvariant : HasEnvs ext → IsInvariant ext env IsBalanced
  IsBalanced-IsInvariant envs = record {
    on_log = λ c h. same-IsBalanced (plain (ground arith)) h;
    on_sentinel = λ h. same-IsBalanced (plain (ground arith)) h;
    on_edge = λ s _ h. same-IsBalanced (plain (ground arith)) h;
    on_update = λ i n t u {w} e o m h.
        update-IsBalanced i n (Object.transaction t) (Object.transaction u) w e
          (λ c. record {
            total = c.total;
            alive = c.alive;
            once = c.once;
            filled = tt;
            called = elim c.called [ inl z ↦ inl z | inr q ↦ absurd (cc q) ];
          })
          h;
    on_give = λ o {w} n h. given-IsBalanced o w n h;
    on_future =
        λ tx_ref to fut ftype d _ h. (create_future-IsBalanced tx_ref to fut ftype envs h).at;
    on_silence = λ i n f {w} e h. silenced-IsBalanced i n f w e h;
    on_cancel = λ fired i n f c {w} e h. Balanced-none i _ (
        run_fired-Balanced fired i 0 _
          (logged c (Balanced-any i _ (silenced-IsBalanced i n f w e h))));
  }
