-- ===== src/Future/Copy.antt =====
-- The copy of a transaction's term to the msg_env of a new future (erlfdb_create_future in
-- c_src/main.c) and its way out, in a message or with the environment.
use erlfdb.Base.{ℕ, ◌≡◌, refl, Option, none, some, ◌==◌, Option-cases, Bool-cases, inl, inr, arith}
use erlfdb.Term.{Term, resource}
use erlfdb.World.{World, Future, Object, Resource, Transaction}
use erlfdb.Resource.{as_transaction, keep_resource, hand_over}
use erlfdb.Future.{copy_term, make_copy}
use erlfdb.Future.At.{At, keep-trace}

pub as_transaction_lem :
    (o : Option Resource) (t : Transaction)
    → as_transaction o ≡ some t
    → (n : ℕ) × (o ≡ some (record { object = Object.transaction t; count = n }))
as_transaction_lem none t e = absurd (cc e)
as_transaction_lem (some r) t e = (r.count, go r.object r.count e)
  where
    go :
        (o : Object) (n : ℕ)
        → as_transaction (some (record { object = o; count = n })) ≡ some t
        → ◌≡◌ {A = Option Resource}
            (some (record { object = o; count = n }))
            (some (record { object = Object.transaction t; count = n }))
    go (Object.transaction u) n e = ground arith
    go (Object.future g) n e = absurd (cc e)
    go (Object.database d) n e = absurd (cc e)
    go (Object.tenant d) n e = absurd (cc e)

module _ {i c p h : ℕ} {f : Future} {w : World} where
  copy_term-At :
      (t : Term) → At i (Object.future f) c p h w → At i (Object.future f) c p h (copy_term i t w)
  unfolding copy_term keep_resource
  copy_term-At (resource j) a = elim (Option-cases (as_transaction (w.cell j))) [
    | inl e ↦ rw (e, copy_term) a
    | inr (t, e) ↦
        let (n, at) = as_transaction_lem (w.cell j) t e in
        rw (e, copy_term)
          (rw (at, keep_resource)
            (record {
              found = elim (Bool-cases (j == i)) [
                | inl same ↦ absurd (ground (arith, same, a.found, at))
                | inr other ↦ ground (arith, other, a.found)
              ];
              registered = a.registered;
              referred = a.referred;
            }))
  ]
  copy_term-At _ a = a

  -- The copy keeps another resource than the new future.
  pub make_copy-At :
      (tx_ref : Option Term)
      → At i (Object.future f) c p h w
      → At i (Object.future f) c p h (make_copy i tx_ref w)
  unfolding make_copy
  make_copy-At none a = a
  make_copy-At (some t) a = copy_term-At t a

pub hand_over-At :
    {i c p h : ℕ} {o : Object} (k : ℕ) {w : World} → At i o c p h w → At i o c p h (hand_over k w)
unfolding hand_over
hand_over-At k {w} a = elim (Option-cases (w.copies k)) [
  | inl e ↦ rw (e, hand_over) a
  | inr (j, e) ↦
      rw (e, hand_over)
        (record { found = a.found; registered = a.registered; referred = a.referred })
]

pub hand_over-sent : (i : ℕ) (w : World) → (hand_over i w).sent ≡ w.sent
unfolding hand_over
hand_over-sent i w = elim (Option-cases (w.copies i)) [
  | inl e ↦ rw (e, hand_over) refl
  | inr (j, e) ↦ rw (e, hand_over) refl
]

copy_term-trace : (i : ℕ) (t : Term) (w : World) → (copy_term i t w).trace ≡ w.trace
unfolding copy_term
copy_term-trace i (resource j) w = elim (Option-cases (as_transaction (w.cell j))) [
  | inl e ↦ rw (e, copy_term) refl
  | inr (t, e) ↦ rw (e, copy_term) (keep-trace j w)
]
copy_term-trace i _ w = refl

pub make_copy-trace :
    (i : ℕ) (tx_ref : Option Term) (w : World) → (make_copy i tx_ref w).trace ≡ w.trace
unfolding make_copy
make_copy-trace i none w = refl
make_copy-trace i (some t) w = copy_term-trace i t w
