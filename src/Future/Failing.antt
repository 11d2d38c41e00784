-- ===== src/Future/Failing.antt =====
-- The error path of erlfdb_create_future in c_src/main.c on which `enif_alloc_env` fails.
use erlfdb.Base.{ℕ, ◌+◌, ◌≡◌, refl, ap, ◌∙◌, true, Option, some, ◌∷◌, ◌==◌, arith}
use erlfdb.Term.{Term}
use erlfdb.Extern.{Call, Extern, alloc_env, future_destroy, mutex_destroy}
use erlfdb.World.{World, Field, Future, FutureType, Object, Resource, Env}
use erlfdb.Nif.{badarg}
use erlfdb.Resource.{
  log, assign, alloc_resource, release_resource, release_count, dtor, future_dtor, destroy_field,
  destroy_handle, destroy_env,
}
use erlfdb.Future.{new_future, fill_future, create_future}
use erlfdb.Future.At.{At, assign-At, log-At, alloc-At, Ends-get, Ends-answer, Ends-then}
use erlfdb.Ends.{Ends, Ends-modify, Ends-make_badarg}

handle-faults : (c : Call) (h : ℕ) (w : World) → (destroy_handle c h w).faults ≡ w.faults
unfolding destroy_handle
handle-faults c h w = ground arith

fields-faults :
    (i : ℕ) (lock msg_env : Field) (w : World)
    → lock ≡ Field.garbage
    → msg_env ≡ Field.null
    → (destroy_field mutex_destroy lock (destroy_env i msg_env w)).faults ≡ w.faults + 1
unfolding destroy_field destroy_env
fields-faults i lock msg_env w l e = rw (l, e) refl

assign-faults :
    (i : ℕ) (o : Object) (w : World) {r : Resource}
    → w.cell i ≡ some r
    → (assign i o w).faults ≡ w.faults
unfolding assign
assign-faults i o w e = rw (e, assign) refl

released-faults :
    (i : ℕ) (f : Future) (p h : ℕ) (w : World)
    → f.msg_env ≡ Field.null
    → f.lock ≡ Field.garbage
    → At i (Object.future f) 1 p h w
    → (release_resource i w).faults ≡ w.faults + 1
unfolding release_resource release_count dtor future_dtor destroy_field destroy_env destroy_handle
released-faults i f p h w e l a =
    rw (a.found, release_resource, release_count, dtor, future_dtor)
      (fields-faults i f.lock f.msg_env (destroy_handle (future_destroy f.future) f.future w) l e
        ∙ ap (λ n. n + 1) (handle-faults (future_destroy f.future) f.future w))

module _ (ext : Extern) (env : Env) where
  released :
      (i : ℕ) (f : Future) (w : World) {n : ℕ}
      → f.lock ≡ Field.garbage
      → w.faults ≡ n
      → At i (Object.future f) 1 0 0 w
      → (release_resource i (assign i (Object.future (record f { msg_env = Field.null })) w)).faults
        ≡ n + 1
  released i f w l e a =
      let g : Object = Object.future (record f { msg_env = Field.null }) in
      released-faults i (record f { msg_env = Field.null }) 0 0 (assign i g w) refl l
        (assign-At g a)
      ∙ ap (λ k. k + 1) (assign-faults i g w a.found ∙ e)

  failed :
      (tx_ref : Option Term) (to : Option ℕ) (fut : ℕ) (ftype : FutureType) (w : World)
      → ext.holds (Call.alloc_resource ∷ w.trace) ≡ true
      → (ext.handle (alloc_env ∷ Call.alloc_resource ∷ w.trace) == 0) ≡ true
      → w.pending w.next ≡ 0
      → w.held w.next ≡ 0
      → Ends
          (λ r v. (r ≡ badarg) × (v.faults ≡ w.faults + 1))
          (create_future ext env tx_ref to fut ftype)
          w
  unfolding create_future fill_future alloc_resource
  failed tx_ref to fut ftype w a z p h =
      let f : Future = new_future env to fut ftype in
      let v : World = log Call.alloc_resource (record w { next_ref = w.next_ref + 1 }) in
      Ends-get _ _ (
        Ends-modify _ _ (
          Ends-answer _ _ _ (
            Ends-then _ _ a (
              Ends-get _ _ (
                Ends-modify _ _ (
                  Ends-answer _ _ _ (
                    Ends-then _ _ z (
                      Ends-modify _ _ (
                        Ends-modify _ _ (
                          Ends-make_badarg (
                            refl,
                            released w.next f _ {n = w.faults} refl refl
                                (log-At alloc_env (alloc-At (Object.future f) v p h)),
                          )))))))))))

  -- Where the resource is allocated and enif_alloc_env answers NULL, and nothing refers to the new
  -- resource's number, erlfdb_create_future answers badarg, and the destructor of the new future
  -- has read one field that was never assigned.
  pub create_future-faults :
      (tx_ref : Option Term) (to : Option ℕ) (fut : ℕ) (ftype : FutureType) (w : World)
      → ext.holds (Call.alloc_resource ∷ w.trace) ≡ true
      → (ext.handle (alloc_env ∷ Call.alloc_resource ∷ w.trace) == 0) ≡ true
      → w.pending w.next ≡ 0
      → w.held w.next ≡ 0
      → let r = create_future ext env tx_ref to fut ftype w in
        (r.0 ≡ badarg) × (r.1.faults ≡ w.faults + 1)
  create_future-faults tx_ref to fut ftype w a z p h = (failed tx_ref to fut ftype w a z p h).at
