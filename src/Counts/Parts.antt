-- ===== src/Counts/Parts.antt =====
-- The parts of the state that the balance of the references speaks of, and that the destructors of
-- c_src/resources.c leave them as they are.
use erlfdb.Base.{
  ℕ, ◌+◌, ◌≤◌, ◌<◌, ◌≡◌, ◌≢◌, refl, ap, ◌∙◌, subst, inl, inr, Option, none, some, arith, ◌==◌,
  ==_iff, Option-cases, Bool-cases,
}
use erlfdb.Extern.{Call, free_env, future_destroy}
use erlfdb.World.{World, Field, garbage, Object, update}
use erlfdb.World.Tally.{one, tally-update, one_self, one_other, one-none}
use erlfdb.Resource.{log, dtor, destroy_field, destroy_handle, destroy_env, hand_over}
use erlfdb.Counts
use erlfdb.Counts.{IsFilled, is_future, Counted, CellOk, own, Balanced}

-- Nothing is in the msg_env of a future that is not there yet.
abbrev pub IsBlank : World → Type 0
IsBlank w = (j : ℕ) → w.next ≤ j → w.copies j ≡ none

-- The parts of the state that the balance speaks of.
pub record SameParts (v w : World) : Type 0 where
  pub cell : v.cell ≡ w.cell
  pub pending : v.pending ≡ w.pending
  pub terms : (j : ℕ) → Counts.terms v j ≡ Counts.terms w j
  pub next : v.next ≡ w.next
  pub blank : IsBlank w → IsBlank v
  pub faults : v.faults ≡ w.faults

-- The parts that the balance speaks of, one by one.
pub record Plain (v w : World) : Type 0 where
  pub cell : v.cell ≡ w.cell
  pub pending : v.pending ≡ w.pending
  pub held : v.held ≡ w.held
  pub copies : v.copies ≡ w.copies
  pub stray : v.stray ≡ w.stray
  pub next : v.next ≡ w.next
  pub faults : v.faults ≡ w.faults

pub plain : {v w : World} → Plain v w → SameParts v w
unfolding Counts.terms
plain s = record {
  cell = s.cell;
  pending = s.pending;
  terms = λ j. rw (s.held, s.stray, s.copies, s.next) refl;
  next = s.next;
  blank = λ b j le. ap (λ (c : ℕ → Option ℕ). c j) s.copies ∙ b j (subst (λ n. n ≤ j) s.next le);
  faults = s.faults;
}

pub SameParts-trans : {u v w : World} → SameParts u v → SameParts v w → SameParts u w
SameParts-trans a b = record {
  cell = a.cell ∙ b.cell;
  pending = a.pending ∙ b.pending;
  terms = λ j. a.terms j ∙ b.terms j;
  next = a.next ∙ b.next;
  blank = λ k. a.blank (b.blank k);
  faults = a.faults ∙ b.faults;
}

pub SameParts-refl : (w : World) → SameParts w w
SameParts-refl w = plain (ground arith)

destroy_field-SameParts :
    (free : ℕ → Call) (f : Field) (w : World) → f ≢ garbage → SameParts (destroy_field free f w) w
unfolding destroy_field
destroy_field-SameParts free Field.garbage w n = absurd (n refl)
destroy_field-SameParts free Field.null w n = plain (ground arith)
destroy_field-SameParts free (Field.object h) w n = plain (ground arith)

destroy_handle-SameParts : (c : Call) (h : ℕ) (w : World) → SameParts (destroy_handle c h w) w
unfolding destroy_handle
destroy_handle-SameParts c h w = plain (ground arith)

handed :
    (i j : ℕ) (w : World)
    → w.copies i ≡ some j
    → IsBlank w
    → SameParts
        (record w { copies = update w.copies i none; stray = update w.stray j (w.stray j + 1) })
        w
unfolding Counts.terms
handed i j w e b = record {
  cell = refl;
  pending = refl;
  terms = λ m.
      let taken : i < w.next = ground (arith, e, b i) in
      let u = tally-update w.copies i none w.next m taken in
      let was : one (w.copies i) m ≡ one (some j) m = ap (λ o. one o m) e in
      elim (Bool-cases (j == m)) [
        | inl same ↦
            let p : j ≡ m = (==_iff j m).0 same in
            let q : one (some j) m ≡ 1 = subst (λ x. one (some j) x ≡ 1) p (one_self j) in
            let s : w.stray j ≡ w.stray m = ap w.stray p in
            rw same (omega (arith, u, was, q, s, one-none m))
        | inr other ↦ rw other (omega (arith, u, was, one_other j m other, one-none m))
      ];
  next = refl;
  blank = λ k m le. elim (Bool-cases (i == m)) [
    | inl same ↦ rw same refl
    | inr other ↦ rw other (k m le)
  ];
  faults = refl;
}

-- The reference of the term stays counted when the term leaves the msg_env.
pub hand_over-SameParts : (i : ℕ) (w : World) → IsBlank w → SameParts (hand_over i w) w
unfolding hand_over
hand_over-SameParts i w b = elim (Option-cases (w.copies i)) [
  | inl e ↦ rw (e, hand_over) (SameParts-refl w)
  | inr (j, e) ↦ rw (e, hand_over) (handed i j w e b)
]

destroy_env-SameParts :
    (i : ℕ) (f : Field) (w : World) → f ≢ garbage → IsBlank w → SameParts (destroy_env i f w) w
unfolding destroy_env
destroy_env-SameParts i Field.garbage w n b = absurd (n refl)
destroy_env-SameParts i Field.null w n b = SameParts-refl w
destroy_env-SameParts i (Field.object h) w n b =
    SameParts-trans (hand_over-SameParts i (log (free_env h) w) b) (plain (ground arith))

pub dtor-SameParts :
    (i : ℕ) (o : Object) (w : World) → IsFilled o → IsBlank w → SameParts (dtor i o w) w
unfolding dtor
dtor-SameParts i (Object.future f) w n b =
    let s = destroy_handle-SameParts (future_destroy f.future) f.future w in
    SameParts-trans (destroy_field-SameParts _ f.lock _ n.1)
      (SameParts-trans (destroy_env-SameParts i f.msg_env _ n.0 (s.blank b)) s)
dtor-SameParts i (Object.database d) w n b = destroy_handle-SameParts _ d w
dtor-SameParts i (Object.tenant ten) w n b = destroy_handle-SameParts _ ten w
dtor-SameParts i (Object.transaction t) w n b = destroy_handle-SameParts _ t.transaction w
