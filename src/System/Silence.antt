-- ===== src/System/Silence.antt =====
-- A future that erlfdb_future_silence or erlfdb_future_cancel of c_src/main.c has marked sends no
-- message at any later moment.
use erlfdb.Base.{
  ℕ, zero, suc, ◌-◌, ◌<◌, ◌≡◌, refl, sym, ap, ◌∙◌, subst, true, false, inl, inr, Option, none, some,
  List, [], ◌∷◌, ◌==◌, ==_iff, Bool-cases, Option-cases, eq_refl, arith,
}
use erlfdb.Term.{Term, resource}
use erlfdb.Extern.{Call, free_env, Extern, Fired, later, on_scheduler, on_network, future_cancel}
use erlfdb.World.{World, LibState, Field, Future, Object, Resource, Env, update}
use erlfdb.Nif.{Outcome, ok, ◌>>=◌, entry, in_state, has_arity, check, modify, tell, atom_ok}
use erlfdb.Resource.{
  log, write, alloc_resource, get_resource, release_resource, release_count, dtor, destroy_field,
  destroy_handle, destroy_env,
}
use erlfdb.Future.{
  Thread, scheduler, run_fired, erlfdb_future_cancel, network, fire, future_cb, send_ready,
  future_of, erlfdb_future_silence,
}
use erlfdb.Future.Copy.{hand_over-sent}
use erlfdb.Dispatch.{Function, invoke}
use erlfdb.Ends.{assign_lem}
use erlfdb.Invariant.{invoke-IsInvariant}
use erlfdb.Invariant.Changes.{silenced}
use erlfdb.Invariant.Cells.{
  IsLocal, logged, run_fired-Local, Local-IsInvariant, fire-Local, drop_term-Local,
  drop_stray-Local,
}
use erlfdb.System.{Event, calls, fires, drops, collects, step, run}

abbrev IsQuiet : Object → Type 0
IsQuiet (Object.future f) = f.cancelled ≡ true
IsQuiet _ = Unit {0}

-- The number `i` is taken, and a future with this number is cancelled.
record Hushed (i : ℕ) (w : World) : Type 0 where
  taken : i < w.next
  quiet : (r : Resource) → w.cell i ≡ some r → IsQuiet r.object

abbrev Other : ℕ → ℕ → Type 0
Other i j = (j == i) ≡ false

apart : (i : ℕ) (w : World) → Hushed i w → Other i w.next
apart i w h = elim (Bool-cases (w.next == i)) [
  | inl e ↦ absurd (omega (arith, (==_iff w.next i).0 e, h.taken))
  | inr e ↦ e
]

Hushed-write :
    (i j : ℕ) (o : Option Resource) (w : World)
    → ((r : Resource) → j ≡ i → o ≡ some r → IsQuiet r.object)
    → Hushed i w
    → Hushed i (write j o w)
Hushed-write i j o w q h = record {
  taken = h.taken;
  quiet = λ r e. elim (Bool-cases (j == i)) [
    | inl same ↦ q r ((==_iff j i).0 same) (ground (arith, same, e))
    | inr other ↦ h.quiet r (ground (arith, other, e))
  ];
}

Hushed-IsLocal : (i : ℕ) → IsLocal (λ _. Unit {0}) (Other i) (Hushed i)
unfolding alloc_resource
Hushed-IsLocal i = record {
  on_count = λ j n r {w} a e h.
      Hushed-write i j _ w
        (λ s q p.
          let same : r.object ≡ s.object = ground (arith, p) in
          subst IsQuiet same (h.quiet r (subst (λ x. w.cell x ≡ some r) q e)))
        h;
  on_clear = λ j {w} a h. Hushed-write i j none w (λ r q p. cc) h;
  on_assign = λ j o r {w} a h.
      Hushed-write i j _ w
        (λ s q p. let same : (j == i) ≡ true = (==_iff j i).1 q in absurd (cc (a, same))) h;
  on_alloc = λ o {w} h.
      let other = apart i w h in
      record {
        taken = omega (arith, h.taken);
        quiet = λ r e. h.quiet r (ground (arith, other, e));
      };
  new_is_loose = λ h. tt;
  new_is_free = λ {w} h. apart i w h;
  on_agree = λ {v} {w} e h. record {
    taken = subst (λ n. i < n) (sym e.next) h.taken;
    quiet = λ r p. h.quiet r (subst (λ c. c i ≡ some r) e.cell p);
  };
}

module _ (ext : Extern) (api : ℕ) where
  step-Hushed : (i : ℕ) (e : Event) (w : World) → Hushed i w → Hushed i (step ext api e w)
  unfolding step
  step-Hushed i (calls env f argv) w h =
      invoke-IsInvariant ext api env
        (Local-IsInvariant (Hushed-IsLocal i) ext env
          (λ s v _ g. record { taken = g.taken; quiet = g.quiet })
          (λ j m t u v e o g.
            Hushed-write i j _ v
              (λ r q p.
                let same : Object.transaction u ≡ r.object = ground (arith, p) in
                subst IsQuiet same tt)
              g)
          (λ j m f v e g. (
            tt,
            Hushed-write i j _ v
                (λ r q p.
                  let same : Object.future (record f { cancelled = true }) ≡ r.object =
                    ground (arith, p) in
                  subst IsQuiet same refl)
                g,
          ))
          (λ j m t v e o g. tt))
        f argv w h
  step-Hushed i (fires j) w h = fire-Local (Hushed-IsLocal i) network j w tt h
  step-Hushed i (drops j) w h = drop_term-Local (Hushed-IsLocal i) j w tt h
  step-Hushed i (collects j) w h = drop_stray-Local (Hushed-IsLocal i) j w tt h

  run-Hushed : (i : ℕ) (es : List Event) (w : World) → Hushed i w → Hushed i (run ext api es w)
  unfolding run
  run-Hushed i [] w h = h
  run-Hushed i (e ∷ es) w h = run-Hushed i es (step ext api e w) (step-Hushed i e w h)

destroy_field-sent :
    (free : ℕ → Call) (f : Field) (w : World) → (destroy_field free f w).sent ≡ w.sent
unfolding destroy_field
destroy_field-sent free Field.garbage w = refl
destroy_field-sent free Field.null w = refl
destroy_field-sent free (Field.object h) w = refl

destroy_handle-sent : (c : Call) (h : ℕ) (w : World) → (destroy_handle c h w).sent ≡ w.sent
unfolding destroy_handle
destroy_handle-sent c h w = ground arith

destroy_env-sent : (i : ℕ) (f : Field) (w : World) → (destroy_env i f w).sent ≡ w.sent
unfolding destroy_env
destroy_env-sent i Field.garbage w = refl
destroy_env-sent i Field.null w = refl
destroy_env-sent i (Field.object h) w = hand_over-sent i (log (free_env h) w)

dtor-sent : (i : ℕ) (o : Object) (w : World) → (dtor i o w).sent ≡ w.sent
unfolding dtor
dtor-sent i (Object.future f) w = simp (destroy_field-sent, destroy_env-sent, destroy_handle-sent)
dtor-sent i (Object.database d) w = destroy_handle-sent _ d w
dtor-sent i (Object.tenant ten) w = destroy_handle-sent _ ten w
dtor-sent i (Object.transaction t) w = destroy_handle-sent _ t.transaction w

release_count-sent : (i n : ℕ) (o : Object) (w : World) → (release_count i o n w).sent ≡ w.sent
unfolding release_count
release_count-sent i zero o w = refl
release_count-sent i (suc zero) o w = dtor-sent i o w
release_count-sent i (suc (suc n)) o w = refl

release_resource-sent : (i : ℕ) (w : World) → (release_resource i w).sent ≡ w.sent
unfolding release_resource
release_resource-sent i w = elim (Option-cases (w.cell i)) [
  | inl e ↦ rw (e, release_resource) refl
  | inr (r, e) ↦ rw (e, release_resource) (release_count-sent i r.count r.object w)
]

future_cb-sent :
    (thread : Thread) (i : ℕ) (o : Option Resource) (w : World)
    → w.cell i ≡ o
    → ((r : Resource) → o ≡ some r → IsQuiet r.object)
    → (future_cb thread i w).sent ≡ w.sent
unfolding future_cb send_ready
future_cb-sent thread i none w e q = rw (e, future_cb) refl
future_cb-sent thread i (some r) w e q = go r.object r.count e (q r refl)
  where
    go :
        (o : Object) (n : ℕ)
        → w.cell i ≡ some (record { object = o; count = n })
        → IsQuiet o
        → (future_cb thread i w).sent ≡ w.sent
    go (Object.future f) n e h = rw (e, future_cb) (rw (h, send_ready) (release_resource-sent i w))
    go (Object.database d) n e h = rw (e, future_cb) refl
    go (Object.tenant ten) n e h = rw (e, future_cb) refl
    go (Object.transaction t) n e h = rw (e, future_cb) refl

fire-sent : (thread : Thread) (i : ℕ) (w : World) → Hushed i w → (fire thread i w).sent ≡ w.sent
unfolding fire
fire-sent thread i w h = elim (Bool-cases (w.pending i == 0)) [
  | inl e ↦ rw (e, fire) refl
  | inr e ↦
      rw (e, fire)
        (future_cb-sent thread i (w.cell i)
          (record w { pending = update w.pending i (w.pending i - 1) }) refl h.quiet)
]

granted :
    (w : World) (i n : ℕ) (f : Future)
    → w.lib_state ≡ LibState.connected
    → w.cell i ≡ some (record { object = Object.future f; count = n })
    → future_of (resource i ∷ []) w ≡ (ok (i, f), w)
unfolding future_of entry in_state has_arity check get_resource ◌>>=◌
granted w i n f c e = rw (c, e) refl

silence_lem :
    (ext : Extern) (env : Env) (w : World) (i n : ℕ) (f : Future)
    → w.lib_state ≡ LibState.connected
    → w.cell i ≡ some (record { object = Object.future f; count = n })
    → erlfdb_future_silence ext env (resource i ∷ []) w ≡ (ok atom_ok, silenced i f n w)
unfolding erlfdb_future_silence modify ◌>>=◌
silence_lem ext env w i n f c e =
    rw (granted w i n f c e, assign_lem i (Object.future (record f { cancelled = true })) w _ e)
      refl

cancel_lem :
    (ext : Extern) (env : Env) (w : World) (i n : ℕ) (f : Future)
    → w.lib_state ≡ LibState.connected
    → w.cell i ≡ some (record { object = Object.future f; count = n })
    → let k : Call = future_cancel f.future in
      erlfdb_future_cancel ext env (resource i ∷ []) w
      ≡ (ok atom_ok, run_fired (ext.fired (k ∷ w.trace)) i (log k (silenced i f n w)))
unfolding erlfdb_future_cancel modify tell ◌>>=◌
cancel_lem ext env w i n f c e =
    rw (granted w i n f c e, assign_lem i (Object.future (record f { cancelled = true })) w _ e)
      refl

silenced-Hushed :
    (w : World) (i n : ℕ) (f : Future)
    → i < w.next
    → w.cell i ≡ some (record { object = Object.future f; count = n })
    → Hushed i (silenced i f n w)
silenced-Hushed w i n f le e = record {
  taken = le;
  quiet = λ r p.
      let same : Object.future (record f { cancelled = true }) ≡ r.object =
        ground (arith, eq_refl i, p) in
      subst IsQuiet same refl;
}

run_fired-sent :
    (fired : Fired) (i : ℕ) (w : World) → Hushed i w → (run_fired fired i w).sent ≡ w.sent
unfolding run_fired
run_fired-sent later i w h = refl
run_fired-sent on_scheduler i w h = fire-sent scheduler i w h
run_fired-sent on_network i w h = fire-sent network i w h

module _ (ext : Extern) (api : ℕ) (env : Env) (w : World) (i n : ℕ) (f : Future) (le : i < w.next)
    (c : w.lib_state ≡ LibState.connected)
    (e : w.cell i ≡ some (record { object = Object.future f; count = n })) where
  -- Where the library is connected and a resource term names a future, after erlfdb_future_silence
  -- of it and any later NIF calls, callbacks and collected terms the callback of a future with
  -- this number sends no message.
  pub run-silenced :
      (es : List Event) (thread : Thread)
      → let v : World = run ext api (calls env Function.future_silence (resource i ∷ []) ∷ es) w in
        (fire thread i v).sent ≡ v.sent
  unfolding run step invoke
  run-silenced es thread = fire-sent thread i _ (
      run-Hushed ext api i es _ (
        subst (Hushed i)
          (ap (λ (r : Outcome Term × World). r.1) (sym (silence_lem ext env w i n f c e)))
          (silenced-Hushed w i n f le e)))

  -- Where the library is connected and a resource term names a future, erlfdb_future_cancel of it
  -- sends no message, and after any later NIF calls, callbacks and collected terms the callback of
  -- a future with this number sends none.
  pub run-cancelled :
      (es : List Event) (thread : Thread)
      → let u : World = step ext api (calls env Function.future_cancel (resource i ∷ [])) w in
        let v : World = run ext api es u in (u.sent ≡ w.sent) × ((fire thread i v).sent ≡ v.sent)
  unfolding run step invoke
  run-cancelled es thread =
      let k : Call = future_cancel f.future in
      let h = logged (Hushed-IsLocal i) k (silenced-Hushed w i n f le e) in
      let fired : Fired = ext.fired (k ∷ w.trace) in
      let g : Hushed i (run_fired fired i (log k (silenced i f n w))) =
        run_fired-Local (Hushed-IsLocal i) fired i _ tt h in
      let stepped : step ext api (calls env Function.future_cancel (resource i ∷ [])) w
          ≡ run_fired fired i (log k (silenced i f n w)) =
        ap (λ (r : Outcome Term × World). r.1) (cancel_lem ext env w i n f c e) in
      (
        ap (λ (v : World). v.sent) stepped ∙ run_fired-sent fired i _ h,
        fire-sent thread i _ (run-Hushed ext api i es _ (subst (Hushed i) (sym stepped) g)),
      )
