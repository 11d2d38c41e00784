-- ===== src/Invariant/Objects.antt =====
-- A property of the objects behind the resources is kept by every NIF of c_src/main.c, if the
-- assignments to the objects keep it.
use erlfdb.Base.{
  ℕ, zero, suc, ◌+◌, ◌≡◌, ◌≢◌, refl, subst, inl, inr, true, false, if◌then◌else◌, Option, none,
  some, arith, ◌==◌, Option-cases, Bool-cases,
}
use erlfdb.Term.{Term, resource}
use erlfdb.Extern.{Call, free_env, Extern, Fired, later, on_scheduler, on_network}
use erlfdb.World.{World, Field, FutureType, ft_none, Future, Object, Resource, Transaction, Env}
use erlfdb.Resource.{
  log, write, dtor, alloc_resource, keep_resource, release_count, release_resource, make_resource,
  assign, destroy_field, destroy_handle, drop_term, drop_stray, hand_over, destroy_env, as_future,
  as_transaction,
}
use erlfdb.Future.{
  Thread, scheduler, network, fire, future_cb, send_ready, run_fired, register, set_callback,
  copy_term, make_copy, fill_future, create_future, with_message,
}
use erlfdb.Ends.{
  Ends, Ends-pure, Ends-ask, Ends-if, Ends-error, Ends-gets, Ends-modify, Ends-tell,
  Ends-make_badarg,
}
use erlfdb.Invariant.Changes.{IsInvariant, Kept, Update, IsNew, given, silenced}

destroy_field-cell : (free : _) (f : Field) (w : World) → (destroy_field free f w).cell ≡ w.cell
unfolding destroy_field
destroy_field-cell free Field.garbage w = refl
destroy_field-cell free Field.null w = refl
destroy_field-cell free (Field.object h) w = refl

destroy_handle-cell : (c : _) (h : ℕ) (w : World) → (destroy_handle c h w).cell ≡ w.cell
unfolding destroy_handle
destroy_handle-cell c h w = ground arith

hand_over-cell : (i : ℕ) (w : World) → (hand_over i w).cell ≡ w.cell
unfolding hand_over
hand_over-cell i w = elim (Option-cases (w.copies i)) [
  | inl e ↦ rw (e, hand_over) refl
  | inr (j, e) ↦ rw (e, hand_over) refl
]

destroy_env-cell : (i : ℕ) (f : Field) (w : World) → (destroy_env i f w).cell ≡ w.cell
unfolding destroy_env
destroy_env-cell i Field.garbage w = refl
destroy_env-cell i Field.null w = refl
destroy_env-cell i (Field.object h) w = hand_over-cell i (log (free_env h) w)

-- A destructor frees what the object holds and touches no resource.
pub dtor-cell : (i : ℕ) (o : Object) (w : World) → (dtor i o w).cell ≡ w.cell
unfolding dtor
dtor-cell i (Object.future f) w = simp (destroy_field-cell, destroy_env-cell, destroy_handle-cell)
dtor-cell i (Object.database d) w = destroy_handle-cell _ d w
dtor-cell i (Object.tenant ten) w = destroy_handle-cell _ ten w
dtor-cell i (Object.transaction t) w = destroy_handle-cell _ t.transaction w

pub record Objects (Q : Object → Type 0) (w : World) : Type 0 where
  pub at : (j : ℕ) (r : Resource) → w.cell j ≡ some r → Q r.object

module _ {Q : Object → Type 0} where
  write-Objects :
      (i : ℕ) (r : Resource) (w : World) → Q r.object → Objects Q w → Objects Q (write i (some r) w)
  write-Objects i r w q h = record {
    at = λ j s e. elim (Bool-cases (i == j)) [
      | inl same ↦ let p : r ≡ s = ground arith in subst (λ x. Q x.object) p q
      | inr other ↦ h.at j s (ground arith)
    ];
  }

  clear-Objects : (i : ℕ) (w : World) → Objects Q w → Objects Q (write i none w)
  clear-Objects i w h = record {
    at = λ j s e. elim (Bool-cases (i == j)) [
      | inl same ↦ absurd (ground arith)
      | inr other ↦ h.at j s (ground arith)
    ];
  }

  -- Only the cells matter.
  pub same-Objects : {v w : World} → v.cell ≡ w.cell → Objects Q w → Objects Q v
  same-Objects e h = record { at = λ j r p. h.at j r (subst (λ c. c j ≡ some r) e p) }

  pub alloc-Objects : (o : Object) (w : World) → Q o → Objects Q w → Objects Q (alloc_resource o w)
  unfolding alloc_resource
  alloc-Objects o w q h =
      same-Objects refl (write-Objects w.next (record { object = o; count = 1 }) w q h)

  pub keep-Objects : (i : ℕ) (w : World) → Objects Q w → Objects Q (keep_resource i w)
  unfolding keep_resource
  keep-Objects i w h = elim (Option-cases (w.cell i)) [
    | inl e ↦ rw (e, keep_resource) (same-Objects refl h)
    | inr (r, e) ↦ rw (e, keep_resource) (write-Objects i _ w (h.at i r e) h)
  ]

  pub make-Objects : (i : ℕ) (w : World) → Objects Q w → Objects Q (make_resource i w)
  unfolding make_resource
  make-Objects i w h = same-Objects refl (keep-Objects i w h)

  pub assign-Objects :
      (i : ℕ) (o : Object) (w : World) → Q o → Objects Q w → Objects Q (assign i o w)
  unfolding assign
  assign-Objects i o w q h = elim (Option-cases (w.cell i)) [
    | inl e ↦ rw (e, assign) (same-Objects refl h)
    | inr (r, e) ↦ rw (e, assign) (write-Objects i _ w q h)
  ]

  release_count-Objects :
      (i n : ℕ) (o : Object) (w : World) → Q o → Objects Q w → Objects Q (release_count i o n w)
  unfolding release_count
  release_count-Objects i zero o w q h = same-Objects refl h
  release_count-Objects i (suc zero) o w q h =
      clear-Objects i (dtor i o w) (same-Objects (dtor-cell i o w) h)
  release_count-Objects i (suc (suc n)) o w q h = write-Objects i _ w q h

  pub release-Objects : (i : ℕ) (w : World) → Objects Q w → Objects Q (release_resource i w)
  unfolding release_resource
  release-Objects i w h = elim (Option-cases (w.cell i)) [
    | inl e ↦ rw (e, release_resource) (same-Objects refl h)
    | inr (r, e) ↦
        rw (e, release_resource) (release_count-Objects i r.count r.object w (h.at i r e) h)
  ]

  send_ready-Objects :
      (thread : Thread) (i : ℕ) (f : Future) (w : World)
      → Objects Q w
      → Objects Q (send_ready thread i f w)
  unfolding send_ready
  send_ready-Objects thread i f w h =
      elim f.cancelled
        as (λ b. Objects Q (if b then w else hand_over i (with_message thread f w))) [
          | true ↦ h
          | false ↦ same-Objects (hand_over-cell i (with_message thread f w)) h
        ]

  copy_term-Objects : (i : ℕ) (t : Term) (w : World) → Objects Q w → Objects Q (copy_term i t w)
  unfolding copy_term
  copy_term-Objects i (resource j) w h = elim (Option-cases (as_transaction (w.cell j))) [
    | inl e ↦ rw (e, copy_term) h
    | inr (t, e) ↦ rw (e, copy_term) (same-Objects refl (keep-Objects j w h))
  ]
  copy_term-Objects i _ w h = h

  pub make_copy-Objects :
      (i : ℕ) (tx_ref : Option Term) (w : World) → Objects Q w → Objects Q (make_copy i tx_ref w)
  unfolding make_copy
  make_copy-Objects i none w h = h
  make_copy-Objects i (some t) w h = copy_term-Objects i t w h

  future_cb-Objects :
      (thread : Thread) (i : ℕ) (w : World) → Objects Q w → Objects Q (future_cb thread i w)
  unfolding future_cb
  future_cb-Objects thread i w h = elim (Option-cases (as_future (w.cell i))) [
    | inl e ↦ rw (e, future_cb) (same-Objects refl h)
    | inr (f, e) ↦ rw (e, future_cb) (release-Objects i _ (send_ready-Objects thread i f w h))
  ]

  pub fire-Objects :
      (thread : Thread) (i : ℕ) (w : World) → Objects Q w → Objects Q (fire thread i w)
  unfolding fire
  fire-Objects thread i w h = elim (Bool-cases (w.pending i == 0)) [
    | inl e ↦ rw (e, fire) h
    | inr e ↦ rw (e, fire) (future_cb-Objects thread i _ (same-Objects refl h))
  ]

  pub run_fired-Objects :
      (fired : Fired) (i : ℕ) (w : World) → Objects Q w → Objects Q (run_fired fired i w)
  unfolding run_fired
  run_fired-Objects later i w h = h
  run_fired-Objects on_scheduler i w h = fire-Objects scheduler i w h
  run_fired-Objects on_network i w h = fire-Objects network i w h

  pub drop_term-Objects : (i : ℕ) (w : World) → Objects Q w → Objects Q (drop_term i w)
  unfolding drop_term
  drop_term-Objects i w h = elim (Bool-cases (w.held i == 0)) [
    | inl e ↦ rw (e, drop_term) h
    | inr e ↦ rw (e, drop_term) (release-Objects i _ (same-Objects refl h))
  ]

  pub drop_stray-Objects : (i : ℕ) (w : World) → Objects Q w → Objects Q (drop_stray i w)
  unfolding drop_stray
  drop_stray-Objects i w h = elim (Bool-cases (w.stray i == 0)) [
    | inl e ↦ rw (e, drop_stray) h
    | inr e ↦ rw (e, drop_stray) (release-Objects i _ (same-Objects refl h))
  ]

  registered : (i : ℕ) (w : World) → Objects Q w → Objects Q (register i w)
  registered i w h = same-Objects refl h

ruleset following = (
  Ends-ask, Ends-if, Ends-error, Ends-pure, Ends-gets, Ends-modify, Ends-tell, Ends-make_badarg,
  run_fired-Objects, keep-Objects, make-Objects, release-Objects,
)

-- What the assignments have to keep of an object.
pub record IsKept (env : Env) (Q : Object → Type 0) : Type 0 where
  pub on_update :
      (t u : Transaction)
      → t.owner ≡ env.self
      → Update t u
      → Q (Object.transaction t)
      → Q (Object.transaction u)
  pub on_new : (o : Object) → IsNew env o → Q o
  pub on_future : (f : Future) → f.ftype ≢ ft_none → Q (Object.future f)
  pub on_silence :
      (f : Future) → Q (Object.future f) → Q (Object.future (record f { cancelled = true }))

module _ (ext : Extern) (env : Env) {Q : Object → Type 0} (kept : IsKept env Q) where
  logged : (c : Call) {w : World} → Objects Q w → Objects Q (log c w)
  logged c h = same-Objects refl h

  -- An assignment of a future with a result type.
  filled :
      (i : ℕ) (f : Future) (w : World)
      → f.ftype ≢ ft_none
      → Objects Q w
      → Objects Q (assign i (Object.future f) w)
  filled i f w d h = assign-Objects i _ w (kept.on_future f d) h

  allocated :
      (f : Future) (w : World)
      → f.ftype ≢ ft_none
      → Objects Q w
      → Objects Q (alloc_resource (Object.future f) w)
  allocated f w d h = alloc-Objects _ w (kept.on_future f d) h

  referred : (w : World) → Objects Q w → Objects Q (record w { next_ref = w.next_ref + 1 })
  referred w h = same-Objects refl h

  set_callback-Objects :
      (i fut : ℕ) (ref : Term) {w : World}
      → Objects Q w
      → Ends (Kept (Objects Q)) (set_callback ext env i fut ref) w
  unfolding set_callback
  set_callback-Objects i fut ref {w} h = search (following, logged, registered) depth 14

  fill_future-Objects :
      (f : Future) (i : ℕ) (tx_ref : Option Term) (fut : ℕ) (ref : Term) {w : World}
      → f.ftype ≢ ft_none
      → Objects Q w
      → Ends (Kept (Objects Q)) (fill_future ext env f i tx_ref fut ref) w
  unfolding fill_future
  fill_future-Objects f i tx_ref fut ref d h =
      search (following, logged, filled, make_copy-Objects, set_callback-Objects) depth 16

  create_future-Objects :
      (tx_ref : Option Term) (to : Option ℕ) (fut : ℕ) (ftype : FutureType) {w : World}
      → ftype ≢ ft_none
      → Objects Q w
      → Ends (Kept (Objects Q)) (create_future ext env tx_ref to fut ftype) w
  unfolding create_future
  create_future-Objects tx_ref to fut ftype d h =
      search (following, logged, referred, allocated, fill_future-Objects) depth 14

  given-Objects : (o : Object) (w : World) → Q o → Objects Q w → Objects Q (given o w)
  given-Objects o w q h = release-Objects w.next _ (make-Objects w.next _ (alloc-Objects o w q h))

  transaction-Objects :
      (i n : ℕ) (t u : Transaction) (w : World)
      → w.cell i ≡ some (record { object = Object.transaction t; count = n })
      → t.owner ≡ env.self
      → Update t u
      → Objects Q w
      → Objects Q (write i (some (record { object = Object.transaction u; count = n })) w)
  transaction-Objects i n t u w e o m h =
      write-Objects i _ w (kept.on_update t u o m (h.at i _ e)) h

  silenced-Objects :
      (i n : ℕ) (f : Future) (w : World)
      → w.cell i ≡ some (record { object = Object.future f; count = n })
      → Objects Q w
      → Objects Q (silenced i f n w)
  silenced-Objects i n f w e h = write-Objects i _ w (kept.on_silence f (h.at i _ e)) h

  pub Objects-IsInvariant : IsInvariant ext env (Objects Q)
  Objects-IsInvariant = record {
    on_log = λ c h. logged c h;
    on_sentinel = λ h. same-Objects refl h;
    on_edge = λ s _ h. same-Objects refl h;
    on_update = λ i n t u {w} e o m h. transaction-Objects i n t u w e o m h;
    on_give = λ o {w} n h. given-Objects o w (kept.on_new o n) h;
    on_future = λ tx_ref to fut ftype d _ h. (create_future-Objects tx_ref to fut ftype d h).at;
    on_silence = λ i n f {w} e h. silenced-Objects i n f w e h;
    on_cancel = λ fired i n f c {w} e h.
        run_fired-Objects fired i _ (logged c (silenced-Objects i n f w e h));
  }
