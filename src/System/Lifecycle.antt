-- ===== src/System/Lifecycle.antt =====
-- The state `lib_state` of c_src/main.c over a history: loaded, api_selected, network_starting,
-- connected, in this order and never back.
use erlfdb.Base.{ℕ, ◌+◌, ◌≤◌, ◌≡◌, refl, sym, subst, List, [], ◌∷◌, arith}
use erlfdb.Extern.{Extern}
use erlfdb.World.{World, LibState, state_error, loaded, api_selected, network_starting, connected}
use erlfdb.Resource.{alloc_resource}
use erlfdb.Future.{network}
use erlfdb.Invariant.{invoke-IsInvariant}
use erlfdb.Invariant.Changes.{Edge, select, start, connect}
use erlfdb.Invariant.Cells.{
  IsLocal, Local-IsInvariant, fire-Local, drop_term-Local, drop_stray-Local,
}
use erlfdb.System.{Event, calls, fires, drops, collects, step, run}

-- Where a state stands in the library's life.
abbrev pub stage : LibState → ℕ
stage state_error = 0
stage loaded = 1
stage api_selected = 2
stage network_starting = 3
stage connected = 4

-- At or after the stage `n`, and not in the error state.
pub record Since (n : ℕ) (w : World) : Type 0 where
  pub reached : n ≤ stage w.lib_state

Since-IsLocal : (n : ℕ) → IsLocal (λ _. Unit {0}) (λ _. Unit {0}) (Since n)
unfolding alloc_resource
Since-IsLocal n = record {
  on_count = λ j m r a e h. record { reached = h.reached };
  on_clear = λ j a h. record { reached = h.reached };
  on_assign = λ j o r a h. record { reached = h.reached };
  on_alloc = λ o h. record { reached = h.reached };
  new_is_loose = λ h. tt;
  new_is_free = λ h. tt;
  on_agree = λ e h. record { reached = subst (λ s. n ≤ stage s) (sym e.lib_state) h.reached };
}

Edge-stage : {s t : LibState} → Edge s t → stage t ≡ stage s + 1
Edge-stage select = refl
Edge-stage start = refl
Edge-stage connect = refl

module _ (ext : Extern) (api : ℕ) where
  step-Since : (n : ℕ) (e : Event) (w : World) → Since n w → Since n (step ext api e w)
  unfolding step
  step-Since n (calls env f argv) w h =
      invoke-IsInvariant ext api env
        (Local-IsInvariant (Since-IsLocal n) ext env
          (λ s v e g. record { reached = omega (arith, Edge-stage e, g.reached) })
          (λ j m t u v e o g. record { reached = g.reached })
          (λ j m g v e k. (tt, record { reached = k.reached })) (λ j m t v e o g. tt))
        f argv w h
  step-Since n (fires i) w h = fire-Local (Since-IsLocal n) network i w tt h
  step-Since n (drops i) w h = drop_term-Local (Since-IsLocal n) i w tt h
  step-Since n (collects i) w h = drop_stray-Local (Since-IsLocal n) i w tt h

  run-Since : (n : ℕ) (es : List Event) (w : World) → Since n w → Since n (run ext api es w)
  unfolding run
  run-Since n [] w h = h
  run-Since n (e ∷ es) w h = run-Since n es (step ext api e w) (step-Since n e w h)

  -- Over any NIF calls, callbacks and collected terms the state of the library moves forward
  -- through loaded, api_selected, network_starting and connected, or stays.
  pub run-stage :
      (es : List Event) (w : World) → stage w.lib_state ≤ stage (run ext api es w).lib_state
  run-stage es w = (run-Since (stage w.lib_state) es w (record { reached = omega arith })).reached
