-- ===== src/Counts/Copy.antt =====
-- The copy of a transaction's term in the msg_env of a new future takes a reference of its own
-- (`enif_make_copy` in erlfdb_create_future of c_src/main.c).
use erlfdb.Base.{
  ℕ, ◌+◌, ◌<◌, ◌≡◌, refl, sym, ap, subst, inl, inr, true, false, Option, none, some, arith, ◌==◌,
  ==_iff, Option-cases, Bool-cases,
}
use erlfdb.Term.{Term, resource}
use erlfdb.World.{World, Future, Object, Resource, update}
use erlfdb.World.Tally.{one, tally-update, one_self, one_other, one-none}
use erlfdb.Resource.{write, keep_resource, as_transaction}
use erlfdb.Future.{copy_term, make_copy}
use erlfdb.Future.Copy.{as_transaction_lem}
use erlfdb.Counts.{terms, IsFilled, Counted, CellOk, Balanced}

-- The new future `i` with the object `f`, which is garbage in part, and with no callback: with a
-- filled object in its place the references are balanced.
pub record Filling (i : ℕ) (f : Future) (w : World) : Type 0 where
  pub found : w.cell i ≡ some (record { object = Object.future f; count = 1 })
  pub quiet : w.pending i ≡ 0
  pub balanced :
      (g : Future)
      → IsFilled (Object.future g)
      → Balanced i 1 (write i (some (record { object = Object.future g; count = 1 })) w)

-- The state after a copy of a term of the resource `j` for the future `i`.
abbrev copied : ℕ → ℕ → Resource → World → World
copied i j r w = record w {
  cell = update w.cell j (some (record r { count = r.count + 1 }));
  copies = update w.copies i (some j);
}

terms_copied :
    (i j : ℕ) (r : Resource) (w : World) (m : ℕ)
    → i < w.next
    → w.copies i ≡ none
    → terms (copied i j r w) m ≡ terms w m + one (some j) m
unfolding terms
terms_copied i j r w m taken e =
    let u = tally-update w.copies i (some j) w.next m taken in
    let was : one (w.copies i) m ≡ one none m = ap (λ o. one o m) e in
    omega (arith, u, was, one-none m)

terms_written :
    (i : ℕ) (o : Option Resource) (w : World) (m : ℕ) → terms (write i o w) m ≡ terms w m
unfolding terms
terms_written i o w m = refl

CellOk-terms : (o : Option Resource) (p t u k : ℕ) → u ≡ t → CellOk o p t k → CellOk o p u k
CellOk-terms o p t u k e c = subst (λ x. CellOk o p x k) (sym e) c

copied-Balanced :
    (i j : ℕ) (q r : Resource) (w : World)
    → (i == j) ≡ false
    → w.copies i ≡ none
    → w.cell j ≡ some r
    → Balanced i 1 (write i (some q) w)
    → Balanced i 1 (write i (some q) (copied i j r w))
copied-Balanced i j q r w apart blank e h =
    let self : (i == i) ≡ true = (==_iff i i).1 refl in
    let taken : i < w.next = ground (arith, self, h.fresh i) in
    let old : j < w.next = ground (arith, apart, e, h.fresh j) in
    record {
      at = λ m.
          let tw = terms_copied i j r w m taken blank in
          let to = terms_written i (some q) (copied i j r w) m in
          let tn = terms_written i (some q) w m in
          let was = h.at m in
          elim (Bool-cases (i == m)) [
            | inl same ↦
                let p : i ≡ m = (==_iff i m).0 same in
                let other : (j == m) ≡ false = ground (arith, apart, p) in
                let z = one_other j m other in
                let was' = rw same at was in
                rw same (CellOk-terms (some q) _ _ _ 1 (omega (arith, tw, to, tn, z)) was')
            | inr far ↦ elim (Bool-cases (j == m)) [
              | inl same ↦
                  let p : j ≡ m = (==_iff j m).0 same in
                  let z : one (some j) m ≡ 1 = subst (λ x. one (some j) x ≡ 1) p (one_self j) in
                  let here : w.cell m ≡ some r = subst (λ x. w.cell x ≡ some r) p e in
                  let c : Counted r (w.pending m) (terms (write i (some q) w) m) 0 =
                    (let was' = rw far at was in
                      subst (λ o. CellOk o (w.pending m) (terms (write i (some q) w) m) 0) here
                        was') in
                  rw far (
                    rw same (record {
                      total = omega (arith, c.total, tw, to, tn, z);
                      alive = omega (arith, c.alive);
                      once = c.once;
                      filled = c.filled;
                      called = c.called;
                    }))
              | inr other ↦
                  let z = one_other j m other in
                  let was' = rw far at was in
                  rw far
                    (rw other (CellOk-terms (w.cell m) _ _ _ 0 (omega (arith, tw, to, tn, z)) was'))
            ]
          ];
      fresh = λ m le. ground (arith, le, taken, old, h.fresh m);
      blank = λ m le. ground (arith, le, taken, h.blank m);
      sound = h.sound;
    }

copy_term-Filling :
    (i : ℕ) (f : Future) (t : Term) (w : World)
    → w.copies i ≡ none
    → Filling i f w
    → Filling i f (copy_term i t w)
unfolding copy_term keep_resource
copy_term-Filling i f (resource j) w blank h = elim (Option-cases (as_transaction (w.cell j))) [
  | inl e ↦ rw (e, copy_term) h
  | inr (t, e) ↦
      let (n, at) = as_transaction_lem (w.cell j) t e in
      let apart : (i == j) ≡ false = elim (Bool-cases (i == j)) [
        | inl same ↦ absurd (ground (arith, same, h.found, at))
        | inr other ↦ other
      ] in
      rw (e, copy_term)
        (rw (at, keep_resource)
          (record {
            found = ground (arith, apart, h.found);
            quiet = h.quiet;
            balanced = λ g filled. copied-Balanced i j _ _ w apart blank at (h.balanced g filled);
          }))
]
copy_term-Filling i f _ w blank h = h

pub make_copy-Filling :
    (i : ℕ) (f : Future) (tx_ref : Option Term) (w : World)
    → w.copies i ≡ none
    → Filling i f w
    → Filling i f (make_copy i tx_ref w)
unfolding make_copy
make_copy-Filling i f none w blank h = h
make_copy-Filling i f (some t) w blank h = copy_term-Filling i f t w blank h
