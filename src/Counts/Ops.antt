-- ===== src/Counts/Ops.antt =====
-- What each operation on a resource does to the balance of the references.
use erlfdb.Base.{
  ℕ, zero, suc, ◌+◌, ◌≤◌, ◌≡◌, ◌≢◌, refl, sym, ◌∙◌, ◌⊎◌, subst, inl, inr, true, false, Option, none,
  some, arith, ◌==◌, ==_iff, Option-cases, Bool-cases,
}
use erlfdb.World.{World, Object, Resource}
use erlfdb.Resource.{write, dtor, keep_resource, release_count, release_resource}
use erlfdb.Counts
use erlfdb.Counts.{IsFilled, is_future, Counted, CellOk, own, Balanced}
use erlfdb.Counts.Parts.{IsBlank, SameParts, dtor-SameParts}

pub same-Balanced : {i k : ℕ} {v w : World} → SameParts v w → Balanced i k w → Balanced i k v
same-Balanced {i} {k} {v} {w} s h = record {
  at = λ j.
      subst (λ c. CellOk (c j) (v.pending j) (Counts.terms v j) (own i k j)) (sym s.cell)
        (subst (λ p. CellOk (w.cell j) (p j) (Counts.terms v j) (own i k j)) (sym s.pending)
          (subst (λ q. CellOk (w.cell j) (w.pending j) q (own i k j)) (sym (s.terms j)) (h.at j)));
  fresh = λ j l. subst (λ c. c j ≡ none) (sym s.cell) (h.fresh j (subst (λ n. n ≤ j) s.next l));
  blank = s.blank h.blank;
  sound = ground (arith, s.faults, h.sound);
}

-- A write to the cell `i` alone: the balance has to be right there.
pub write-Balanced :
    (i k l : ℕ) (o : Option Resource) (w : World)
    → CellOk o (w.pending i) (Counts.terms w i) l
    → (w.next ≤ i → o ≡ none)
    → Balanced i k w
    → Balanced i l (write i o w)
unfolding Counts.terms
write-Balanced i k l o w ok new h = record {
  at = λ j. elim (Bool-cases (i == j)) [
    | inl same ↦ rw same (
        let p : i ≡ j = (==_iff i j).0 same in
        subst (λ x. CellOk o (w.pending x) (Counts.terms w x) l) p ok)
    | inr other ↦ let q = h.at j in rw other (rw other at q)
  ];
  fresh = λ j le. elim (Bool-cases (i == j)) [
    | inl same ↦
        rw same (new (let p : i ≡ j = (==_iff i j).0 same in subst (λ x. w.next ≤ x) (sym p) le))
    | inr other ↦ rw other (h.fresh j le)
  ];
  blank = h.blank;
  sound = h.sound;
}

-- What the balance says of the resource that the code holds.
pub at_own :
    (i k : ℕ) (w : World) → Balanced i k w → CellOk (w.cell i) (w.pending i) (Counts.terms w i) k
at_own i k w h = let e : (i == i) ≡ true = (==_iff i i).1 refl in let q = h.at i in rw e at q

pub at_some :
    (i k : ℕ) (w : World) (r : Resource)
    → w.cell i ≡ some r
    → Balanced i k w
    → Counted r (w.pending i) (Counts.terms w i) k
at_some i k w r e h = subst (λ o. CellOk o (w.pending i) (Counts.terms w i) k) e (at_own i k w h)

pub not_new :
    (i k : ℕ) (w : World) (r : Resource) → w.cell i ≡ some r → Balanced i k w → w.next ≤ i → ⊥
not_new i k w r e h le = absurd (cc (h.fresh i le))

pub keep-Balanced :
    (i k : ℕ) (w : World) → Balanced i (suc k) w → Balanced i (suc (suc k)) (keep_resource i w)
unfolding keep_resource
keep-Balanced i k w h = elim (Option-cases (w.cell i)) [
  | inl e ↦ absurd (let q = at_own i (suc k) w h in let z = rw e at q in omega (arith, z.2))
  | inr (r, e) ↦
      rw (e, keep_resource)
        (write-Balanced i (suc k) (suc (suc k)) _ w
          (let c = at_some i (suc k) w r e h in ground arith)
          (λ le. absurd (not_new i (suc k) w r e h le)) h)
]

-- The last release runs the destructor, and the resource is gone.
release_count-Balanced :
    (i k n : ℕ) (o : Object) (w : World)
    → Counted (record { object = o; count = n }) (w.pending i) (Counts.terms w i) (suc k)
    → (w.next ≤ i → ⊥)
    → Balanced i (suc k) w
    → Balanced i k (release_count i o n w)
unfolding release_count
release_count-Balanced i k zero o w c old h = absurd (omega (arith, c.total))
release_count-Balanced i k (suc zero) o w c old h =
    let s = dtor-SameParts i o w c.filled h.blank in
    write-Balanced i (suc k) k none (dtor i o w)
      (subst (λ p. CellOk none (p i) (Counts.terms (dtor i o w) i) k) (sym s.pending)
        (subst (λ q. CellOk none (w.pending i) q k) (sym (s.terms i)) (omega (arith, c.total))))
      (λ _. refl) (same-Balanced s h)
release_count-Balanced i k (suc (suc n)) o w c old h =
    write-Balanced i (suc k) k _ w
      (record {
        total = omega (arith, c.total);
        alive = omega arith;
        once = c.once;
        filled = c.filled;
        called = c.called;
      })
      (λ le. absurd (old le)) h

pub release-Balanced :
    (i k : ℕ) (w : World) → Balanced i (suc k) w → Balanced i k (release_resource i w)
unfolding release_resource
release-Balanced i k w h = elim (Option-cases (w.cell i)) [
  | inl e ↦ absurd (let q = at_own i (suc k) w h in let z = rw e at q in omega (arith, z.2))
  | inr (r, e) ↦
      rw (e, release_resource)
        (release_count-Balanced i k r.count r.object w (at_some i (suc k) w r e h)
          (not_new i (suc k) w r e h) h)
]

-- A reference changes hands: the running code's becomes libfdb_c's or Erlang's, or the other way.
pub move-Balanced :
    (i k l : ℕ) (v w : World)
    → v.cell ≡ w.cell
    → v.next ≡ w.next
    → v.faults ≡ w.faults
    → ((j : ℕ)
        → (i == j) ≡ false
        → (v.pending j ≡ w.pending j) × (Counts.terms v j ≡ Counts.terms w j))
    → (IsBlank w → IsBlank v)
    → CellOk (w.cell i) (v.pending i) (Counts.terms v i) l
    → Balanced i k w
    → Balanced i l v
move-Balanced i k l v w ec en ef others blank ok h = record {
  at = λ j. elim (Bool-cases (i == j)) [
    | inl same ↦ rw same (
        let p : i ≡ j = (==_iff i j).0 same in
        subst (λ x. CellOk (v.cell x) (v.pending x) (Counts.terms v x) l) p
          (subst (λ c. CellOk (c i) (v.pending i) (Counts.terms v i) l) (sym ec) ok))
    | inr other ↦
        let q = h.at j in
        let o = others j other in
        rw other (
          subst (λ c. CellOk (c j) (v.pending j) (Counts.terms v j) 0) (sym ec)
            (subst (λ x. CellOk (w.cell j) x (Counts.terms v j) 0) (sym o.0)
              (subst (λ x. CellOk (w.cell j) (w.pending j) x 0) (sym o.1) (rw other at q))))
  ];
  fresh = λ j le. subst (λ c. c j ≡ none) (sym ec) (h.fresh j (subst (λ n. n ≤ j) en le));
  blank = blank h.blank;
  sound = ef ∙ h.sound;
}

pub CellOk-move :
    (o : Option Resource) (p h k q g l : ℕ)
    → p + h + k ≡ q + g + l
    → q ≤ 1
    → (q ≡ 0) ⊎ ((p ≢ 0) ⊎ ((r : Resource) × (o ≡ some r) × (is_future r.object ≡ true)))
    → CellOk o p h k
    → CellOk o q g l
CellOk-move none p h k q g l e b m ok = omega (arith, e, ok)
CellOk-move (some r) p h k q g l e b m c = record {
  total = c.total ∙ e;
  alive = c.alive;
  once = b;
  filled = c.filled;
  called = ground (arith, c.called);
}

pub once : (o : Option Resource) (p h k : ℕ) → CellOk o p h k → p ≤ 1
once none p h k c = omega (arith, c)
once (some r) p h k c = c.once

pub called :
    (o : Option Resource) (p h k : ℕ)
    → CellOk o p h k
    → (p ≡ 0) ⊎ ((p ≢ 0) ⊎ ((r : Resource) × (o ≡ some r) × (is_future r.object ≡ true)))
called none p h k c = inl c.0
called (some r) p h k c = elim c.called [ inl z ↦ inl z | inr f ↦ inr (inr (r, refl, f)) ]
