-- ===== src/Network/Waiting.antt =====
-- The wait of erlfdb_setup_network in c_src/main.c for the network thread, under every schedule of
-- the two threads.
use erlfdb.Base.{
  ◌≤◌, ◌<◌, ◌≡◌, refl, sym, ap, subst, ◌∙◌, ◌⊎◌, inl, inr, some, List, [], ◌∷◌, All, Any, length,
  arith,
}
use erlfdb.World.{World, api_selected}
use erlfdb.Network.Threads.{
  Waiter, Threads, Party, network_thread, created, wait_for_network, take_turns, step_waiter,
  step_starter, step_party, steps,
}
use erlfdb.Network.Moments.{Moment, state, next, left, goes, step-state, next-left, goes-left}

nexts : List Party → Moment → Moment
nexts [] m = m
nexts (p ∷ ps) m = nexts ps (next p m)

steps-state :
    (w : World) (ps : List Party) (m : Moment)
    → w.lib_state ≡ api_selected
    → steps ps (state w m) ≡ state w (nexts ps m)
unfolding steps nexts
steps-state w [] m e = refl
steps-state w (p ∷ ps) m e = ap (steps ps) (step-state w p m e) ∙ steps-state w ps (next p m) e

nexts-left : (ps : List Party) (m : Moment) → left (nexts ps m) ≤ left m
unfolding nexts
nexts-left [] m = omega arith
nexts-left (p ∷ ps) m =
    let rest = nexts-left ps (next p m) in
    elim (next-left p m) [
      | inl less ↦ omega (arith, rest, less)
      | inr same ↦ let q = ap left same in omega (arith, rest, q)
    ]

-- A schedule in which the thread that can go on gets a turn goes on.
turn-left :
    (ps : List Party) (m : Moment)
    → Any (λ p. p ≡ goes m) ps
    → (left (nexts ps m) < left m) ⊎ (m ≡ Moment.leaves)
unfolding nexts
turn-left [] m turn = absurd turn
turn-left (p ∷ ps) m (inl this) =
    let rest = nexts-left ps (next p m) in
    elim (goes-left m) [
      | inl less ↦
          let q : left (next p m) ≡ left (next (goes m) m) = ap (λ x. left (next x m)) this in
          inl (omega (arith, rest, less, q))
      | inr is ↦ inr is
    ]
turn-left (p ∷ ps) m (inr later) =
    let rest = nexts-left ps (next p m) in
    elim (next-left p m) [
      | inl less ↦ inl (omega (arith, rest, less))
      | inr same ↦
          let q : left (nexts ps (next p m)) ≡ left (nexts ps m) =
            ap (λ x. left (nexts ps x)) same in
          elim (turn-left ps m later) [ inl less ↦ inl (omega (arith, less, q)) | inr is ↦ inr is ]
    ]

-- A round in which each thread gets a turn, in any order and any number of times.
abbrev pub IsFair : List Party → Type 0
IsFair ps = Any (λ p. p ≡ Party.waiter) ps × Any (λ p. p ≡ Party.starter) ps

fair_turn : (q : Party) (ps : List Party) → IsFair ps → Any (λ p. p ≡ q) ps
fair_turn Party.waiter ps f = f.0
fair_turn Party.starter ps f = f.1

unfoldable pub play : List (List Party) → Threads → Threads
play [] s = s
play (ps ∷ rounds) s = play rounds (steps ps s)

plays : List (List Party) → Moment → Moment
plays [] m = m
plays (ps ∷ rounds) m = plays rounds (nexts ps m)

play-state :
    (w : World) (rounds : List (List Party)) (m : Moment)
    → w.lib_state ≡ api_selected
    → play rounds (state w m) ≡ state w (plays rounds m)
unfolding play plays
play-state w [] m e = refl
play-state w (ps ∷ rounds) m e =
    ap (play rounds) (steps-state w ps m e) ∙ play-state w rounds (nexts ps m) e

last_left : left Moment.leaves ≡ 0
unfolding left
last_left = refl

plays-left :
    (rounds : List (List Party)) (m : Moment)
    → All IsFair rounds
    → left m ≤ length rounds
    → left (plays rounds m) ≡ 0
unfolding plays
plays-left [] m fair le = omega (arith, le)
plays-left (ps ∷ rounds) m fair le =
    let less : left (nexts ps m) ≤ length rounds =
      elim (turn-left ps m (fair_turn (goes m) ps fair.0)) [
        | inl less ↦ omega (arith, less, le)
        | inr is ↦
            let z : left m ≡ 0 = subst (λ x. left x ≡ 0) (sym is) last_left in
            omega (arith, nexts-left ps m, z)
      ] in
    plays-left rounds (nexts ps m) fair.1 less

-- Only at the end nothing is left.
left-leaves : (m : Moment) → left m ≡ 0 → m ≡ Moment.leaves
unfolding left
left-leaves Moment.created_both e = absurd (omega (arith, e))
left-leaves Moment.tested_first e = absurd (omega (arith, e))
left-leaves Moment.waits e = absurd (omega (arith, e))
left-leaves Moment.takes e = absurd (omega (arith, e))
left-leaves Moment.takes_waited e = absurd (omega (arith, e))
left-leaves Moment.stores e = absurd (omega (arith, e))
left-leaves Moment.stores_waited e = absurd (omega (arith, e))
left-leaves Moment.unlocks e = absurd (omega (arith, e))
left-leaves Moment.unlocks_signalled e = absurd (omega (arith, e))
left-leaves Moment.runs e = absurd (omega (arith, e))
left-leaves Moment.runs_signalled e = absurd (omega (arith, e))
left-leaves Moment.tests e = absurd (omega (arith, e))
left-leaves Moment.leaves e = refl

turn-state :
    (w : World) (m : Moment)
    → w.lib_state ≡ api_selected
    → step_starter (step_waiter (state w m)) ≡ state w (next Party.starter (next Party.waiter m))
unfolding step_party
turn-state w m e =
    ap step_starter (step-state w Party.waiter m e)
    ∙ step-state w Party.starter (next Party.waiter m) e

-- The turns of the two threads from the first to the last.
pub wait_for_network_lem :
    (w : World) → w.lib_state ≡ api_selected → wait_for_network 8 w ≡ some (network_thread w)
unfolding wait_for_network take_turns state next
wait_for_network_lem w e =
    ap (take_turns 7) (turn-state w Moment.created_both e)
    ∙ ap (take_turns 6) (turn-state w Moment.tested_first e)
    ∙ ap (take_turns 5) (turn-state w Moment.takes_waited e)
    ∙ ap (take_turns 4) (turn-state w Moment.stores_waited e)
    ∙ ap (take_turns 3) (turn-state w Moment.unlocks_signalled e)
    ∙ ap (take_turns 2) (turn-state w Moment.runs_signalled e)
    ∙ ap (take_turns 1) (turn-state w Moment.tests e)

module _ (w : World) (e : w.lib_state ≡ api_selected) where
  -- With the API version selected, in any schedule of nine rounds or more, in each of which both
  -- the caller of erlfdb_setup_network and the network thread get a turn, in any order and any
  -- number of times, the caller leaves the loop that waits for the thread, with the state that the
  -- whole of erlfdb_network_thread leaves, and so do the turns that erlfdb_setup_network takes in
  -- the model.
  pub wait_for_network-play :
      (rounds : List (List Party))
      → All IsFair rounds
      → 9 ≤ length rounds
      → let s : Threads = play rounds (created w) in
        (s.waiter ≡ Waiter.past)
        × (s.world ≡ network_thread w)
        × (wait_for_network 8 w ≡ some s.world)
  unfolding state left
  wait_for_network-play rounds fair le =
      let end =
        left-leaves (plays rounds Moment.created_both)
          (plays-left rounds Moment.created_both fair le) in
      let same : play rounds (created w) ≡ state w Moment.leaves =
        play-state w rounds Moment.created_both e ∙ ap (state w) end in
      let world : (play rounds (created w)).world ≡ network_thread w =
        ap (λ (s : Threads). s.world) same in
      (ap (λ (s : Threads). s.waiter) same, world, wait_for_network_lem w e ∙ ap some (sym world))
