-- ===== src/Counts/Callback.antt =====
-- The references change hands: a callback is registered and runs, a term is made and dropped.
use erlfdb.Base.{
  ℕ, suc, ◌+◌, ◌-◌, ◌≡◌, ◌≢◌, refl, inl, inr, true, false, Option, none, some, arith, ◌==◌,
  if◌then◌else◌, Bool-cases,
}
use erlfdb.World.{World, Future, Object, Resource, update}
use erlfdb.Resource.{as_future, keep_resource, make_resource, drop_term, drop_stray, hand_over}
use erlfdb.Extern.{Fired, later, on_scheduler, on_network}
use erlfdb.Future.{
  Thread, scheduler, network, send_ready, future_cb, fire, run_fired, register, with_message,
}
use erlfdb.Counts.{terms, is_future, CellOk, Balanced, IsBalanced}
use erlfdb.Counts.Parts.{
  SameParts, SameParts-refl, SameParts-trans, IsBlank, plain, hand_over-SameParts,
}
use erlfdb.Counts.Ops.{
  same-Balanced, at_own, keep-Balanced, release-Balanced, move-Balanced, CellOk-move, once, called,
}

update_self : (f : ℕ → ℕ) (i v : ℕ) → update f i v i ≡ v
update_self f i v = ground arith

update_other : (f : ℕ → ℕ) (i v j : ℕ) → (i == j) ≡ false → update f i v j ≡ f j
update_other f i v j e = rw e

-- The number of the terms, where only Erlang's or only the collector's change.
held_self :
    (i x : ℕ) (w : World)
    → terms (record w { held = update w.held i x }) i + w.held i ≡ terms w i + x
unfolding terms
held_self i x w = omega (arith, update_self w.held i x)

held_other :
    (i x : ℕ) (w : World) (j : ℕ)
    → (i == j) ≡ false
    → terms (record w { held = update w.held i x }) j ≡ terms w j
unfolding terms
held_other i x w j o = rw o refl

stray_self :
    (i x : ℕ) (w : World)
    → terms (record w { stray = update w.stray i x }) i + w.stray i ≡ terms w i + x
unfolding terms
stray_self i x w = omega (arith, update_self w.stray i x)

stray_other :
    (i x : ℕ) (w : World) (j : ℕ)
    → (i == j) ≡ false
    → terms (record w { stray = update w.stray i x }) j ≡ terms w j
unfolding terms
stray_other i x w j o = rw o refl

same_terms : (i : ℕ) (p : ℕ → ℕ) (w : World) → terms (record w { pending = p }) i ≡ terms w i
unfolding terms
same_terms i p w = refl

pub register-Balanced :
    (i k : ℕ) (w : World) (r : Resource)
    → w.cell i ≡ some r
    → is_future r.object ≡ true
    → w.pending i ≡ 0
    → Balanced i (suc k) w
    → Balanced i k (register i w)
register-Balanced i k w r e f z h =
    let v : World = register i w in
    move-Balanced i (suc k) k v w refl refl refl
      (λ j o. (
        update_other w.pending i (w.pending i + 1) j o,
        same_terms j (update w.pending i (w.pending i + 1)) w,
      ))
      (λ b. b)
      (CellOk-move (w.cell i) (w.pending i) (terms w i) (suc k) (v.pending i) (terms v i) k
        (omega (
          arith,
          update_self w.pending i (w.pending i + 1),
          same_terms i (update w.pending i (w.pending i + 1)) w,
        ))
        (omega (arith, z, update_self w.pending i (w.pending i + 1))) (inr (inr (r, e, f)))
        (at_own i (suc k) w h))
      h

-- The new term's reference is Erlang's.
pub make-Balanced :
    (i k : ℕ) (w : World) → Balanced i (suc k) w → Balanced i (suc k) (make_resource i w)
unfolding make_resource
make-Balanced i k w h =
    let v = keep_resource i w in
    let g = keep-Balanced i k w h in
    let c = at_own i (suc (suc k)) v g in
    move-Balanced i (suc (suc k)) (suc k) (make_resource i w) v refl refl refl
      (λ j o. (refl, held_other i (v.held i + 1) v j o)) (λ b. b)
      (CellOk-move (v.cell i) (v.pending i) (terms v i) (suc (suc k)) (v.pending i)
        (terms (make_resource i w) i) (suc k) (omega (arith, held_self i (v.held i + 1) v))
        (once (v.cell i) _ _ _ c) (called (v.cell i) _ _ _ c) c)
      g

pub drop_term-Balanced : (i k : ℕ) (w : World) → Balanced i k w → Balanced i k (drop_term i w)
unfolding drop_term
drop_term-Balanced i k w h = elim (Bool-cases (w.held i == 0)) [
  | inl e ↦ rw (e, drop_term) h
  | inr e ↦
      rw (e, drop_term)
        (release-Balanced i k _ (
          let c = at_own i k w h in
          let v : World = record w { held = update w.held i (w.held i - 1) } in
          move-Balanced i k (suc k) v w refl refl refl
            (λ j o. (refl, held_other i (w.held i - 1) w j o)) (λ b. b)
            (CellOk-move (w.cell i) (w.pending i) (terms w i) k (w.pending i) (terms v i) (suc k)
              (ground (arith, e, held_self i (w.held i - 1) w)) (once (w.cell i) _ _ _ c)
              (called (w.cell i) _ _ _ c) c)
            h))
]

pub drop_stray-Balanced : (i k : ℕ) (w : World) → Balanced i k w → Balanced i k (drop_stray i w)
unfolding drop_stray
drop_stray-Balanced i k w h = elim (Bool-cases (w.stray i == 0)) [
  | inl e ↦ rw (e, drop_stray) h
  | inr e ↦
      rw (e, drop_stray)
        (release-Balanced i k _ (
          let c = at_own i k w h in
          let v : World = record w { stray = update w.stray i (w.stray i - 1) } in
          move-Balanced i k (suc k) v w refl refl refl
            (λ j o. (refl, stray_other i (w.stray i - 1) w j o)) (λ b. b)
            (CellOk-move (w.cell i) (w.pending i) (terms w i) k (w.pending i) (terms v i) (suc k)
              (ground (arith, e, stray_self i (w.stray i - 1) w)) (once (w.cell i) _ _ _ c)
              (called (w.cell i) _ _ _ c) c)
            h))
]

send_ready-SameParts :
    (thread : Thread) (i : ℕ) (f : Future) (w : World)
    → IsBlank w
    → SameParts (send_ready thread i f w) w
unfolding send_ready
send_ready-SameParts thread i f w b =
    elim f.cancelled
      as (λ x. SameParts (if x then w else hand_over i (with_message thread f w)) w) [
        | true ↦ SameParts-refl w
        | false ↦
            SameParts-trans (hand_over-SameParts i (with_message thread f w) b)
              (plain (ground arith))
      ]

as_future-is_future :
    (o : Option Resource) (p h k : ℕ)
    → CellOk o p h k
    → p ≢ 0
    → (f : Future) × (as_future o ≡ some f)
as_future-is_future none p h k c n = absurd (n c.0)
as_future-is_future (some r) p h k c n =
    go r.object (elim c.called [ inl z ↦ absurd (n z) | inr f ↦ f ])
  where
    go :
        (o : Object)
        → is_future o ≡ true
        → (f : Future) × (as_future (some (record { object = o; count = 0 })) ≡ some f)
    go (Object.future f) e = (f, refl)
    go (Object.database d) e = cc
    go (Object.tenant ten) e = cc
    go (Object.transaction t) e = cc

-- The callback releases libfdb_c's reference.
pub fire-Balanced :
    (thread : Thread) (i k : ℕ) (w : World) → Balanced i k w → Balanced i k (fire thread i w)
unfolding fire future_cb
fire-Balanced thread i k w h = elim (Bool-cases (w.pending i == 0)) [
  | inl e ↦ rw (e, fire) h
  | inr e ↦
      let c = at_own i k w h in
      let v : World = record w { pending = update w.pending i (w.pending i - 1) } in
      let (f, is) = as_future-is_future (w.cell i) _ _ _ c (ground (arith, e)) in
      let moved : Balanced i (suc k) v =
        move-Balanced i k (suc k) v w refl refl refl
          (λ j o. (
            update_other w.pending i (w.pending i - 1) j o,
            same_terms j (update w.pending i (w.pending i - 1)) w,
          ))
          (λ b. b)
          (CellOk-move (w.cell i) (w.pending i) (terms w i) k (v.pending i) (terms v i) (suc k)
            (ground (
              arith,
              e,
              update_self w.pending i (w.pending i - 1),
              same_terms i (update w.pending i (w.pending i - 1)) w,
            ))
            (omega (arith, once (w.cell i) _ _ _ c, update_self w.pending i (w.pending i - 1)))
            (inr (inl (ground (arith, e)))) c)
          h in
      rw (e, fire)
        (rw (is, future_cb)
          (release-Balanced i k (send_ready thread i f v)
            (same-Balanced (send_ready-SameParts thread i f v moved.blank) moved)))
]

pub run_fired-Balanced :
    (fired : Fired) (i k : ℕ) (w : World) → Balanced i k w → Balanced i k (run_fired fired i w)
unfolding run_fired
run_fired-Balanced later i k w h = h
run_fired-Balanced on_scheduler i k w h = fire-Balanced scheduler i k w h
run_fired-Balanced on_network i k w h = fire-Balanced network i k w h

-- Holding no reference to one resource is holding none to another.
pub Balanced-any : (i : ℕ) (w : World) → IsBalanced w → Balanced i 0 w
Balanced-any i w h = record {
  at = λ j. elim (Bool-cases (i == j)) [ inl e ↦ rw e (h.at j) | inr e ↦ rw e (h.at j) ];
  fresh = h.fresh;
  blank = h.blank;
  sound = h.sound;
}

pub Balanced-none : (i : ℕ) (w : World) → Balanced i 0 w → IsBalanced w
Balanced-none i w h = record {
  at = λ j. elim (Bool-cases (i == j)) [
    | inl e ↦ let q = h.at j in rw e at q
    | inr e ↦ let q = h.at j in rw e at q
  ];
  fresh = h.fresh;
  blank = h.blank;
  sound = h.sound;
}
