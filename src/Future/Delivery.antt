-- ===== src/Future/Delivery.antt =====
-- erlfdb_create_future and erlfdb_future_cb of c_src/main.c together: the future that a NIF returns
-- and the message that tells its process of the result.
use erlfdb.Base.{
  ℕ, suc, ◌+◌, ◌-◌, ◌≡◌, refl, sym, ap, ◌∙◌, subst, true, false, Option, none, some, List, ◌∷◌,
  is_zero, if◌then◌else◌, ◌==◌, eq_refl, arith,
}
use erlfdb.Term.{Term, atom, reference, resource, make_tuple2, make_tuple3}
use erlfdb.Extern.{Call, Extern, later, alloc_env, mutex_create, future_set_callback}
use erlfdb.World.{World, object, Future, FutureType, Object, Message, Env, update}
use erlfdb.Nif.{ok}
use erlfdb.Resource.{
  log, assign, alloc_resource, keep_resource, release_resource, release_count, hand_over,
}
use erlfdb.Ends.{Ends, Ends-modify, Ends-pure}
use erlfdb.Future.{
  Thread, caller_env, send_ready, future_cb, fire, new_future, message_ref, set_callback,
  fill_future, create_future, make_copy, with_message,
}
use erlfdb.Future.At.{
  alloc-At, At, keep-At, make-At, register-At, assign-At, log-At, release-At, later-At, keep-trace,
  assign-trace, Ends-then, Ends-else, Ends-answer, Ends-get,
}
use erlfdb.Future.Copy.{make_copy-At, make_copy-trace, hand_over-At, hand_over-sent}

-- The answers under which erlfdb_create_future reaches its end, from a history `h`.
pub record Accepts (ext : Extern) (fut : ℕ) (h : List Call) : Type 0 where
  pub allocated : ext.holds (Call.alloc_resource ∷ h) ≡ true
  pub env_made : (ext.handle (alloc_env ∷ Call.alloc_resource ∷ h) == 0) ≡ false
  pub lock_made :
      (ext.handle (mutex_create "fdb:future_lock" ∷ alloc_env ∷ Call.alloc_resource ∷ h) == 0)
      ≡ false
  pub set :
      is_zero (
        ext.error (
          future_set_callback fut
          ∷ mutex_create "fdb:future_lock"
          ∷ alloc_env
          ∷ Call.alloc_resource
          ∷ h))
      ≡ true
  pub waits :
      ext.fired (
        future_set_callback fut
        ∷ mutex_create "fdb:future_lock"
        ∷ alloc_env
        ∷ Call.alloc_resource
        ∷ h)
      ≡ later

-- The future that erlfdb_create_future leaves, where nothing fails.
abbrev pub whole : Future → ℕ → ℕ → Term → Future
whole f msg_env lock msg_ref = record f {
  msg_env = object msg_env;
  msg_ref = msg_ref;
  lock = object lock;
  cancelled = false;
}

-- A future that waits: its callback is registered, a term refers to it, and nothing else does.
abbrev pub Waits : ℕ → Future → World → Type 0
Waits i f w = At i (Object.future f) 2 1 1 w

module _ (ext : Extern) (env : Env) where
  set_callback-Waits :
      (i fut : ℕ) (ref : Term) (f : Future) {w : World}
      → At i (Object.future f) 1 0 0 w
      → is_zero (ext.error (future_set_callback fut ∷ w.trace)) ≡ true
      → ext.fired (future_set_callback fut ∷ w.trace) ≡ later
      → Ends
          (λ r v. (r ≡ ok (make_tuple3 (atom "erlfdb_future") ref (resource i))) × Waits i f v)
          (set_callback ext env i fut ref)
          w
  unfolding set_callback
  set_callback-Waits i fut ref f {w} a z l =
      let k = log-At (future_set_callback fut) (keep-At a) in
      let same : (keep_resource i w).trace ≡ w.trace = keep-trace i w in
      let z' : is_zero (ext.error (future_set_callback fut ∷ (keep_resource i w).trace)) ≡ true =
        subst (λ t. is_zero (ext.error (future_set_callback fut ∷ t)) ≡ true) (sym same) z in
      let l' : ext.fired (future_set_callback fut ∷ (keep_resource i w).trace) ≡ later =
        subst (λ t. ext.fired (future_set_callback fut ∷ t) ≡ later) (sym same) l in
      Ends-modify _ _ (
        Ends-answer _ _ _ (
          Ends-then _ _ z' (
            Ends-modify _ _ (
              Ends-modify _ _ (
                Ends-modify _ _ (
                  Ends-pure _ (
                    refl,
                    release-At {n = 1} (
                        make-At {c = 2} {p = 1} {h = 0}
                          (later-At _ l' (register-At {c = 2} {p = 0} {h = 0} k))),
                  )))))))

  fill_future-Waits :
      (i fut : ℕ) (ref : Term) (tx_ref : Option Term) (f : Future) {w : World}
      → At i (Object.future f) 1 0 0 w
      → (ext.handle (alloc_env ∷ w.trace) == 0) ≡ false
      → (ext.handle (mutex_create "fdb:future_lock" ∷ alloc_env ∷ w.trace) == 0) ≡ false
      → is_zero (
          ext.error
            (future_set_callback fut ∷ mutex_create "fdb:future_lock" ∷ alloc_env ∷ w.trace))
        ≡ true
      → ext.fired (future_set_callback fut ∷ mutex_create "fdb:future_lock" ∷ alloc_env ∷ w.trace)
        ≡ later
      → let msg_env : ℕ = ext.handle (alloc_env ∷ w.trace) in
        let lock : ℕ = ext.handle (mutex_create "fdb:future_lock" ∷ alloc_env ∷ w.trace) in
        Ends
          (λ r v.
            (r ≡ ok (make_tuple3 (atom "erlfdb_future") ref (resource i)))
            × Waits i (whole f msg_env lock (message_ref tx_ref ref)) v)
          (fill_future ext env f i tx_ref fut ref)
          w
  unfolding fill_future
  fill_future-Waits i fut ref tx_ref f {w} a n m z l =
      let k : Call = mutex_create "fdb:future_lock" in
      let msg_env : ℕ = ext.handle (alloc_env ∷ w.trace) in
      let u : World = make_copy i tx_ref (log alloc_env w) in
      let past : alloc_env ∷ w.trace ≡ u.trace = sym (make_copy-trace i tx_ref (log alloc_env w)) in
      let f' : Future = whole f msg_env (ext.handle (k ∷ u.trace)) (message_ref tx_ref ref) in
      let g : Object = Object.future f' in
      let same : k ∷ alloc_env ∷ w.trace ≡ (assign i g (log k u)).trace =
        ap (λ t. k ∷ t) past ∙ sym (assign-trace i g (log k u)) in
      subst
        (λ t.
          Ends
            (λ r v.
              (r ≡ ok (make_tuple3 (atom "erlfdb_future") ref (resource i)))
              × Waits i (whole f msg_env (ext.handle (k ∷ t)) (message_ref tx_ref ref)) v)
            (fill_future ext env f i tx_ref fut ref) w)
        (sym past)
        (Ends-answer _ _ _ (
          Ends-else _ _ n (
            Ends-modify _ _ (
              Ends-answer _ _ _ (
                Ends-else _ _ (subst (λ t. (ext.handle (k ∷ t) == 0) ≡ false) past m) (
                  Ends-modify _ _ (
                    set_callback-Waits i fut ref f'
                      (assign-At g (log-At k (make_copy-At tx_ref (log-At alloc_env a))))
                      (subst (λ t. is_zero (ext.error (future_set_callback fut ∷ t)) ≡ true) same z)
                      (subst (λ t. ext.fired (future_set_callback fut ∷ t) ≡ later) same l))))))))

  created :
      (tx_ref : Option Term) (to : Option ℕ) (fut : ℕ) (ftype : FutureType) (w : World)
      → Accepts ext fut w.trace
      → w.pending w.next ≡ 0
      → w.held w.next ≡ 0
      → let ref : Term = reference w.next_ref in
        let h : List Call = alloc_env ∷ Call.alloc_resource ∷ w.trace in
        Ends
          (λ r v.
            (r ≡ ok (make_tuple3 (atom "erlfdb_future") ref (resource w.next)))
            × Waits w.next
                (whole
                  (new_future env to fut ftype)
                  (ext.handle h)
                  (ext.handle (mutex_create "fdb:future_lock" ∷ h))
                  (message_ref tx_ref ref))
                v)
          (create_future ext env tx_ref to fut ftype)
          w
  unfolding create_future alloc_resource
  created tx_ref to fut ftype w a p h =
      let f : Future = new_future env to fut ftype in
      let v : World = log Call.alloc_resource (record w { next_ref = w.next_ref + 1 }) in
      Ends-get _ _ (
        Ends-modify _ _ (
          Ends-answer _ _ _ (
            Ends-then _ _ a.allocated (
              Ends-get _ _ (
                Ends-modify _ _ (
                  fill_future-Waits w.next fut (reference w.next_ref) tx_ref f
                    (alloc-At (Object.future f) v p h) a.env_made a.lock_made a.set a.waits))))))

  -- Where no call of erlfdb_create_future fails and the callback is not run at once, it returns
  -- {erlfdb_future, Ref, Future} with the fresh reference, and the new resource holds the future
  -- with the handle and the type, with `to` or else the caller as its receiver, with {Tx, Ref} or
  -- else Ref as its reference, not cancelled, and has two references: the registered callback's
  -- and the term's.
  pub create_future-Waits :
      (tx_ref : Option Term) (to : Option ℕ) (fut : ℕ) (ftype : FutureType) (w : World)
      → Accepts ext fut w.trace
      → w.pending w.next ≡ 0
      → w.held w.next ≡ 0
      → let r = create_future ext env tx_ref to fut ftype w in
        let ref : Term = reference w.next_ref in
        let h : List Call = alloc_env ∷ Call.alloc_resource ∷ w.trace in
        (r.0 ≡ ok (make_tuple3 (atom "erlfdb_future") ref (resource w.next)))
        × Waits w.next
            (record {
              future = fut;
              ftype = ftype;
              pid = elim to [ none ↦ env.self | some p ↦ p ];
              pid_env = env.id;
              msg_env = object (ext.handle h);
              msg_ref = elim tx_ref [ none ↦ ref | some tx ↦ make_tuple2 tx ref ];
              lock = object (ext.handle (mutex_create "fdb:future_lock" ∷ h));
              cancelled = false;
            })
            r.1
  create_future-Waits none to fut ftype w a p h = let r = created none to fut ftype w a p h in r.at
  create_future-Waits (some tx) to fut ftype w a p h =
      let r = created (some tx) to fut ftype w a p h in r.at

fire-found :
    (thread : Thread) (i : ℕ) (f : Future) (w : World)
    → Waits i f w
    → fire thread i w
      ≡ release_resource i (send_ready thread i f (record w { pending = update w.pending i 0 }))
unfolding fire future_cb
fire-found thread i f w a =
    let none_left : w.pending i - 1 ≡ 0 = ground (arith, a.registered) in
    rw (a.registered, a.found, fire, future_cb)
      (ap
        (λ n.
          release_resource i (send_ready thread i f (record w { pending = update w.pending i n })))
        none_left)

send-At :
    (thread : Thread) (f : Future) {i c p h : ℕ} {o : Object} {w : World}
    → At i o c p h w
    → At i o c p h (send_ready thread i f w)
unfolding send_ready
send-At thread f {i} {c} {p} {h} {o} {w} a =
    elim f.cancelled
      as (λ b. At i o c p h (if b then w else hand_over i (with_message thread f w))) [
        | true ↦ a
        | false ↦
            hand_over-At i {w = with_message thread f w}
              (record { found = a.found; registered = a.registered; referred = a.referred })
      ]

abbrev pub ready : Thread → Future → Message
ready thread f = record {
  caller = caller_env thread f;
  to = f.pid;
  content = make_tuple2 f.msg_ref (atom "ready");
}

release-sent :
    {i n p h : ℕ} {o : Object} {w : World}
    → At i o (suc (suc n)) p h w
    → (release_resource i w).sent ≡ w.sent
unfolding release_resource release_count
release-sent a = rw (a.found, release_resource, release_count) refl

send_ready-sent :
    (thread : Thread) (i : ℕ) (f : Future) (w : World)
    → (send_ready thread i f w).sent ≡ (if f.cancelled then w.sent else ready thread f ∷ w.sent)
unfolding send_ready
send_ready-sent thread i f w =
    elim f.cancelled
      as (λ b.
        (if b then w else hand_over i (with_message thread f w)).sent
        ≡ (if b then w.sent else ready thread f ∷ w.sent)) [
          | true ↦ refl
          | false ↦ hand_over-sent i (with_message thread f w)
        ]

idle : (thread : Thread) (i : ℕ) (v : World) → v.pending i ≡ 0 → fire thread i v ≡ v
unfolding fire
idle thread i v e = rw (e, fire) refl

-- The callback of a future that waits sends its process {Ref, ready}, unless the future is
-- cancelled, and then nothing; the term's reference is the only one left, and the callback does
-- not run again.
pub fire-Waits :
    (thread other : Thread) (i : ℕ) (f : Future) (w : World)
    → Waits i f w
    → let v : World = fire thread i w in
      (v.sent ≡ (if f.cancelled then w.sent else ready thread f ∷ w.sent))
      × At i (Object.future f) 1 0 1 v
      × (fire other i v ≡ v)
fire-Waits thread other i f w a =
    let u : World = record w { pending = update w.pending i 0 } in
    let b : At i (Object.future f) 2 0 1 u = record {
      found = a.found;
      registered = ground (arith, eq_refl i);
      referred = a.referred;
    } in
    let c = send-At thread f b in
    let d : At i (Object.future f) 1 0 1 (release_resource i (send_ready thread i f u)) =
      release-At {n = 0} c in
    let step : fire thread i w ≡ release_resource i (send_ready thread i f u) =
      fire-found thread i f w a in
    let d' : At i (Object.future f) 1 0 1 (fire thread i w) =
      subst (At i (Object.future f) 1 0 1) (sym step) d in
    (
      ap (λ (v : World). v.sent) step ∙ release-sent {n = 0} c ∙ send_ready-sent thread i f u,
      d',
      idle other i (fire thread i w) d'.registered,
    )
