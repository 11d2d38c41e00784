-- ===== src/System/Balance.antt =====
-- The references of the resources at every moment of a history (c_src/main.c, the comments of
-- erlfdb_create_future), where no allocation of an environment fails.
use erlfdb.Base.{ℕ, ◌+◌, ◌≤◌, ◌<◌, ◌≡◌, ◌≢◌, refl, ap, subst, none, some, List, [], ◌∷◌, arith}
use erlfdb.Extern.{Extern}
use erlfdb.World.{World, Resource}
use erlfdb.Future.{network}
use erlfdb.Invariant.{invoke-IsInvariant}
use erlfdb.World.Tally.{one, tally, tally-update, one_self, one-none}
use erlfdb.Counts.{terms, CellOk, Counted, IsBalanced}
use erlfdb.Counts.Callback.{
  fire-Balanced, drop_term-Balanced, drop_stray-Balanced, Balanced-any, Balanced-none,
}
use erlfdb.Counts.Fill.{HasEnvs, IsBalanced-IsInvariant}
use erlfdb.System.{Event, calls, fires, drops, collects, initial, step, run}

-- A copy in the msg_env of a future is counted.
absent :
    (w : World) (k i : ℕ)
    → w.copies k ≡ some i
    → (w.next ≤ k → w.copies k ≡ none)
    → tally w.copies w.next i ≡ 0
    → ⊥
absent w k i is blank z =
    let taken : k < w.next = ground (arith, is, blank) in
    let u = tally-update w.copies k none w.next i taken in
    let was : one (w.copies k) i ≡ one (some i) i = ap (λ o. one o i) is in
    absurd (omega (arith, z, u, was, one_self i, one-none i))

initial-IsBalanced : IsBalanced initial
unfolding terms tally
initial-IsBalanced = record {
  at = λ j. (refl, refl, refl);
  fresh = λ j _. refl;
  blank = λ j _. refl;
  sound = refl;
}

module _ (ext : Extern) (api : ℕ) (envs : HasEnvs ext) where
  step-IsBalanced : (e : Event) (w : World) → IsBalanced w → IsBalanced (step ext api e w)
  unfolding step
  step-IsBalanced (calls env f argv) w h =
      invoke-IsInvariant ext api env (IsBalanced-IsInvariant ext env envs) f argv w h
  step-IsBalanced (fires i) w h =
      Balanced-none i _ (fire-Balanced network i 0 w (Balanced-any i w h))
  step-IsBalanced (drops i) w h = Balanced-none i _ (drop_term-Balanced i 0 w (Balanced-any i w h))
  step-IsBalanced (collects i) w h =
      Balanced-none i _ (drop_stray-Balanced i 0 w (Balanced-any i w h))

  run-balanced : (es : List Event) (w : World) → IsBalanced w → IsBalanced (run ext api es w)
  unfolding run
  run-balanced [] w h = h
  run-balanced (e ∷ es) w h = run-balanced es (step ext api e w) (step-IsBalanced e w h)

  -- In every history of NIF calls, callbacks and collected terms from the loaded state, with
  -- enif_alloc_env never failing, the count of a live resource is the number of registered
  -- callbacks, of terms that Erlang got from a NIF, of terms that have left a msg_env in a message
  -- or with its end, and of copies that are in the msg_envs of futures; it is positive, and at
  -- most one callback is registered.
  pub run-count :
      (es : List Event) (i : ℕ) (r : Resource)
      → (run ext api es initial).cell i ≡ some r
      → let w : World = run ext api es initial in
        (r.count ≡ w.pending i + w.held i + w.stray i + tally w.copies w.next i)
        × (0 < r.count)
        × (w.pending i ≤ 1)
  unfolding terms
  run-count es i r e =
      let w : World = run ext api es initial in
      let c : Counted r (w.pending i) (terms w i) 0 =
        subst (λ o. CellOk o (w.pending i) (terms w i) 0) e
          ((run-balanced es initial initial-IsBalanced).at i) in
      (omega (arith, c.total), c.alive, c.once)

  -- In every history from the loaded state, with enif_alloc_env never failing, no destructor reads
  -- a field that was never assigned and no dead resource is kept, released or assigned to.
  pub run-faults : (es : List Event) → (run ext api es initial).faults ≡ 0
  run-faults es = (run-balanced es initial initial-IsBalanced).sound

  -- In every history from the loaded state, with enif_alloc_env never failing, a resource that is
  -- gone has no registered callback, no term that Erlang got from a NIF or that left a msg_env,
  -- and no copy of its term in the msg_env of a future.
  pub run-dead :
      (es : List Event) (i : ℕ)
      → (run ext api es initial).cell i ≡ none
      → let w : World = run ext api es initial in
        (w.pending i ≡ 0) × (w.held i ≡ 0) × (w.stray i ≡ 0) × ((k : ℕ) → w.copies k ≢ some i)
  unfolding terms
  run-dead es i e =
      let w : World = run ext api es initial in
      let b = run-balanced es initial initial-IsBalanced in
      let c : CellOk none (w.pending i) (terms w i) 0 =
        subst (λ o. CellOk o (w.pending i) (terms w i) 0) e (b.at i) in
      let none_left : terms w i ≡ 0 = c.1 in
      (
        c.0,
        omega (arith, none_left),
        omega (arith, none_left),
        λ k is. absent w k i is (λ le. b.blank k le) (omega (arith, none_left)),
      )
