-- ===== src/Invariant/Cells.antt =====
-- Invariants that look at the cells, at the library's state and at which numbers are taken: what is
-- allowed to change a cell, and that the NIFs of c_src/main.c do no more.
use erlfdb.Base.{
  ℕ, zero, suc, ◌+◌, ◌-◌, ◌≡◌, refl, sym, subst, inl, inr, Option, none, some, ◌==◌, arith,
  Option-cases, Bool-cases,
}
use erlfdb.Term.{Term, resource}
use erlfdb.Extern.{Call, Extern, Fired, later, on_scheduler, on_network}
use erlfdb.World.{World, LibState, Future, FutureType, Object, Resource, Transaction, Env, update}
use erlfdb.Resource.{
  log, write, alloc_resource, keep_resource, release_count, release_resource, make_resource, assign,
  drop_term, drop_stray, as_future, as_transaction,
}
use erlfdb.Future.{
  Thread, scheduler, network, fire, future_cb, run_fired, register, set_callback, copy_term,
  make_copy, fill_future, create_future, new_future,
}
use erlfdb.Future.Copy.{as_transaction_lem}
use erlfdb.Network.Threads.{set_lib_state}
use erlfdb.Ends.{
  Ends, Ends-pure, Ends-ask, Ends-if, Ends-error, Ends-gets, Ends-modify, Ends-tell,
  Ends-make_badarg,
}
use erlfdb.Invariant.Changes.{IsInvariant, Kept, Edge, given, silenced}
use erlfdb.Invariant.Agree.{Agree, dtor-Agree, send_ready-Agree}

-- `Loose j` lets the code change the count of the resource `j` and drop it, and `Free j` lets it
-- change its object.
pub record IsLocal (Loose Free : ℕ → Type 0) (P : World → Type 0) : Type 0 where
  pub on_count :
      (j n : ℕ) (r : Resource) {w : World}
      → Loose j
      → w.cell j ≡ some r
      → P w
      → P (write j (some (record r { count = n })) w)
  pub on_clear : (j : ℕ) {w : World} → Loose j → P w → P (write j none w)
  pub on_assign :
      (j : ℕ) (o : Object) (r : Resource) {w : World}
      → Free j
      → P w
      → P (write j (some (record r { object = o })) w)
  pub on_alloc : (o : Object) {w : World} → P w → P (alloc_resource o w)
  pub new_is_loose : {w : World} → P w → Loose w.next
  pub new_is_free : {w : World} → P w → Free w.next
  pub on_agree : {v w : World} → Agree v w → P w → P v

module _ {Loose Free : ℕ → Type 0} {P : World → Type 0} (local : IsLocal Loose Free P) where
  open local use {on_count, on_clear, on_assign, on_alloc, new_is_loose, new_is_free, on_agree}

  keep-Local : (j : ℕ) (w : World) → Loose j → P w → P (keep_resource j w)
  unfolding keep_resource
  keep-Local j w a h = elim (Option-cases (w.cell j)) [
    | inl e ↦ rw (e, keep_resource) (on_agree (ground arith) h)
    | inr (r, e) ↦ rw (e, keep_resource) (on_count j (r.count + 1) r a e h)
  ]

  make-Local : (j : ℕ) (w : World) → Loose j → P w → P (make_resource j w)
  unfolding make_resource
  make-Local j w a h = on_agree (ground arith) (keep-Local j w a h)

  assign-Local : (j : ℕ) (o : Object) (w : World) → Free j → P w → P (assign j o w)
  unfolding assign
  assign-Local j o w a h = elim (Option-cases (w.cell j)) [
    | inl e ↦ rw (e, assign) (on_agree (ground arith) h)
    | inr (r, e) ↦ rw (e, assign) (on_assign j o r a h)
  ]

  release_count-Local :
      (j n : ℕ) (o : Object) (w : World)
      → Loose j
      → w.cell j ≡ some (record { object = o; count = n })
      → P w
      → P (release_count j o n w)
  unfolding release_count
  release_count-Local j zero o w a e h = on_agree (ground arith) h
  release_count-Local j (suc zero) o w a e h = on_clear j a (on_agree (dtor-Agree j o w) h)
  release_count-Local j (suc (suc n)) o w a e h = on_count j (suc n) _ a e h

  pub release-Local : (j : ℕ) (w : World) → Loose j → P w → P (release_resource j w)
  unfolding release_resource
  release-Local j w a h = elim (Option-cases (w.cell j)) [
    | inl e ↦ rw (e, release_resource) (on_agree (ground arith) h)
    | inr (r, e) ↦ rw (e, release_resource) (release_count-Local j r.count r.object w a e h)
  ]

  future_cb-Local : (thread : Thread) (j : ℕ) (w : World) → Loose j → P w → P (future_cb thread j w)
  unfolding future_cb
  future_cb-Local thread j w a h = elim (Option-cases (as_future (w.cell j))) [
    | inl e ↦ rw (e, future_cb) (on_agree (ground arith) h)
    | inr (f, e) ↦
        rw (e, future_cb) (release-Local j _ a (on_agree (send_ready-Agree thread j f w) h))
  ]

  pub fire-Local : (thread : Thread) (j : ℕ) (w : World) → Loose j → P w → P (fire thread j w)
  unfolding fire
  fire-Local thread j w a h = elim (Bool-cases (w.pending j == 0)) [
    | inl e ↦ rw (e, fire) h
    | inr e ↦ rw (e, fire) (future_cb-Local thread j _ a (on_agree (ground arith) h))
  ]

  pub run_fired-Local :
      (fired : Fired) (j : ℕ) (w : World) → Loose j → P w → P (run_fired fired j w)
  unfolding run_fired
  run_fired-Local later j w a h = h
  run_fired-Local on_scheduler j w a h = fire-Local scheduler j w a h
  run_fired-Local on_network j w a h = fire-Local network j w a h

  pub drop_term-Local : (j : ℕ) (w : World) → Loose j → P w → P (drop_term j w)
  unfolding drop_term
  drop_term-Local j w a h = elim (Bool-cases (w.held j == 0)) [
    | inl e ↦ rw (e, drop_term) h
    | inr e ↦
        let v : World = record w { held = update w.held j (w.held j - 1) } in
        rw (e, drop_term) (release-Local j v a (on_agree {v = v} {w = w} (ground arith) h))
  ]

  pub drop_stray-Local : (j : ℕ) (w : World) → Loose j → P w → P (drop_stray j w)
  unfolding drop_stray
  drop_stray-Local j w a h = elim (Bool-cases (w.stray j == 0)) [
    | inl e ↦ rw (e, drop_stray) h
    | inr e ↦
        let v : World = record w { stray = update w.stray j (w.stray j - 1) } in
        rw (e, drop_stray) (release-Local j v a (on_agree {v = v} {w = w} (ground arith) h))
  ]

  -- A copy is made only of a term that names a transaction which the invariant leaves to the code.
  Copyable : Option Term → World → Type 0
  Copyable tx_ref w =
      (j n : ℕ) (t : Transaction)
      → tx_ref ≡ some (resource j)
      → w.cell j ≡ some (record { object = Object.transaction t; count = n })
      → Loose j

  copy_term-Local : (i : ℕ) (t : Term) (w : World) → Copyable (some t) w → P w → P (copy_term i t w)
  unfolding copy_term Copyable
  copy_term-Local i (resource j) w c h = elim (Option-cases (as_transaction (w.cell j))) [
    | inl e ↦ rw (e, copy_term) h
    | inr (t, e) ↦
        let (n, found) = as_transaction_lem (w.cell j) t e in
        rw (e, copy_term) (on_agree (ground arith) (keep-Local j w (c j n t refl found) h))
  ]
  copy_term-Local i _ w c h = h

  make_copy-Local :
      (i : ℕ) (tx_ref : Option Term) (w : World)
      → Copyable tx_ref w
      → P w
      → P (make_copy i tx_ref w)
  unfolding make_copy Copyable
  make_copy-Local i none w c h = h
  make_copy-Local i (some t) w c h = copy_term-Local i t w c h

  registered : (j : ℕ) (w : World) → P w → P (register j w)
  registered j w h = on_agree (ground arith) h

  pub logged : (c : Call) {w : World} → P w → P (log c w)
  logged c h = on_agree (ground arith) h

  referred : (w : World) → P w → P (record w { next_ref = w.next_ref + 1 })
  referred w h = on_agree (ground arith) h

  ruleset following = (
    Ends-ask, Ends-if, Ends-error, Ends-pure, Ends-gets, Ends-modify, Ends-tell, Ends-make_badarg,
    run_fired-Local, keep-Local, make-Local, release-Local, assign-Local, logged, registered,
  )

  module _ (ext : Extern) (env : Env) where
    set_callback-Local :
        (j fut : ℕ) (ref : Term) {w : World}
        → Loose j
        → P w
        → Ends (Kept P) (set_callback ext env j fut ref) w
    unfolding set_callback
    set_callback-Local j fut ref a h = search following depth 14

    fill_future-Local :
        (f : Future) (j : ℕ) (tx_ref : Option Term) (fut : ℕ) (ref : Term) {w : World}
        → Loose j
        → Free j
        → Copyable tx_ref w
        → P w
        → Ends (Kept P) (fill_future ext env f j tx_ref fut ref) w
    unfolding fill_future Copyable
    fill_future-Local f j tx_ref fut ref a b c h =
        search (following, set_callback-Local, make_copy-Local) depth 16

    -- The new resource is not the transaction that the term names.
    allocated-Copyable :
        (tx_ref : Option Term) (f : Future) (w : World)
        → Copyable tx_ref w
        → Copyable tx_ref (alloc_resource (Object.future f) w)
    unfolding alloc_resource Copyable
    allocated-Copyable tx_ref f w c j n t e p = elim (Bool-cases (w.next == j)) [
      | inl same ↦ absurd (ground (arith, same, p))
      | inr other ↦ c j n t e (ground (arith, other, p))
    ]

    create_future-Local :
        (tx_ref : Option Term) (to : Option ℕ) (fut : ℕ) (ftype : FutureType) {w : World}
        → Copyable tx_ref w
        → P w
        → Ends (Kept P) (create_future ext env tx_ref to fut ftype) w
    unfolding create_future Copyable
    create_future-Local tx_ref to fut ftype {w} c h = Ends-gets _ _ λ ref _. Ends-modify _ _ (
        Ends-ask _ _ _ λ ok _.
          let g = logged Call.alloc_resource (referred _ h) in
          Ends-if ok _ _
            (λ _. Ends-gets _ _ λ j e. Ends-modify _ _ (
              fill_future-Local _ j tx_ref fut ref (subst Loose (sym e) (new_is_loose g))
                (subst Free (sym e) (new_is_free g))
                (allocated-Copyable tx_ref (new_future env to fut ftype)
                  (log Call.alloc_resource (record w { next_ref = w.next_ref + 1 })) c)
                (on_alloc _ g)))
            (λ _. Ends-tell _ _ (Ends-make_badarg (logged _ g))))

    pub given-Local : (o : Object) (w : World) → P w → P (given o w)
    given-Local o w h =
        let a = new_is_loose h in release-Local w.next _ a (make-Local w.next _ a (on_alloc o h))

    -- A local invariant that the library's life keeps, the updates of the caller's transactions and
    -- the flag of a silenced future.
    pub Local-IsInvariant :
        ((s : LibState) (w : World) → Edge w.lib_state s → P w → P (set_lib_state s w))
        → ((j n : ℕ) (t u : Transaction) (w : World)
            → w.cell j ≡ some (record { object = Object.transaction t; count = n })
            → t.owner ≡ env.self
            → P w
            → P (write j (some (record { object = Object.transaction u; count = n })) w))
        → ((j n : ℕ) (f : Future) (w : World)
            → w.cell j ≡ some (record { object = Object.future f; count = n })
            → P w
            → Loose j × P (silenced j f n w))
        → ((j n : ℕ) (t : Transaction) (w : World)
            → w.cell j ≡ some (record { object = Object.transaction t; count = n })
            → t.owner ≡ env.self
            → P w
            → Loose j)
        → IsInvariant ext env P
    unfolding Copyable
    Local-IsInvariant edge own futures copied = record {
      on_log = λ c h. logged c h;
      on_sentinel = λ h. on_agree (ground arith) h;
      on_edge = λ s {w} e h. edge s w e h;
      on_update = λ i n t u {w} e o m h. own i n t u w e o h;
      on_give = λ o {w} n h. given-Local o w h;
      on_future = λ tx_ref to fut ftype {w} d o h.
          (create_future-Local tx_ref to fut ftype (λ j n t e p. copied j n t w p (o j n t e p) h)
            h).at;
      on_silence = λ i n f {w} e h. (futures i n f w e h).1;
      on_cancel = λ fired i n f c {w} e h.
          let g = futures i n f w e h in run_fired-Local fired i _ g.0 (logged c g.1);
    }
