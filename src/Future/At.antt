-- ===== src/Future/At.antt =====
-- One resource and its references through the steps of erlfdb_create_future in c_src/main.c.
use erlfdb.Base.{
  ℕ, suc, ◌+◌, ◌≡◌, refl, sym, subst, Bool, true, false, some, List, ◌∷◌, if◌then◌else◌, eq_refl,
  arith, Option-cases, inl, inr,
}
use erlfdb.Term.{Term}
use erlfdb.Extern.{Call, Fired, later}
use erlfdb.World.{World, Object}
use erlfdb.Nif.{Nif, Outcome, ◌>>=◌, gets, ask}
use erlfdb.Resource.{
  log, assign, alloc_resource, keep_resource, release_resource, release_count, make_resource,
}
use erlfdb.Ends.{Ends, assign_lem}
use erlfdb.Future.{run_fired, register}

-- What is known of one resource: its object, its count and the references of libfdb_c and Erlang.
pub record At (i : ℕ) (o : Object) (c p h : ℕ) (w : World) : Type 0 where
  pub found : w.cell i ≡ some (record { object = o; count = c })
  pub registered : w.pending i ≡ p
  pub referred : w.held i ≡ h

module _ {i c p h : ℕ} {o : Object} {w : World} where
  pub keep-At : At i o c p h w → At i o (c + 1) p h (keep_resource i w)
  unfolding keep_resource
  keep-At a = record {
    found = rw (a.found, keep_resource) (ground (arith, eq_refl i));
    registered = rw (a.found, keep_resource) a.registered;
    referred = rw (a.found, keep_resource) a.referred;
  }

  pub make-At : At i o c p h w → At i o (c + 1) p (h + 1) (make_resource i w)
  unfolding make_resource
  make-At a =
      let k = keep-At a in
      record {
        found = k.found;
        registered = k.registered;
        referred = ground (arith, eq_refl i, k.referred);
      }

  pub register-At : At i o c p h w → At i o c (p + 1) h (register i w)
  register-At a = record {
    found = a.found;
    registered = ground (arith, eq_refl i, a.registered);
    referred = a.referred;
  }

  pub assign-At : (q : Object) → At i o c p h w → At i q c p h (assign i q w)
  assign-At q a = rw (assign_lem i q w _ a.found) (record {
    found = ground (arith, eq_refl i);
    registered = a.registered;
    referred = a.referred;
  })

  pub log-At : (k : Call) → At i o c p h w → At i o c p h (log k w)
  log-At k a = record { found = a.found; registered = a.registered; referred = a.referred }

pub release-At :
    {i n p h : ℕ} {o : Object} {w : World}
    → At i o (suc (suc n)) p h w
    → At i o (suc n) p h (release_resource i w)
unfolding release_resource release_count
release-At {i} a = record {
  found = rw (a.found, release_resource, release_count) (ground (arith, eq_refl i));
  registered = rw (a.found, release_resource, release_count) a.registered;
  referred = rw (a.found, release_resource, release_count) a.referred;
}

pub later-At :
    {i c p h : ℕ} {o : Object} {w : World} (fired : Fired)
    → fired ≡ later
    → At i o c p h w
    → At i o c p h (run_fired fired i w)
unfolding run_fired
later-At {i} {c} {p} {h} {o} {w} fired l a = subst (λ f. At i o c p h (run_fired f i w)) (sym l) a

pub keep-trace : (i : ℕ) (w : World) → (keep_resource i w).trace ≡ w.trace
unfolding keep_resource
keep-trace i w = elim (Option-cases (w.cell i)) [
  | inl e ↦ rw (e, keep_resource) refl
  | inr (r, e) ↦ rw (e, keep_resource) refl
]

pub assign-trace : (i : ℕ) (o : Object) (w : World) → (assign i o w).trace ≡ w.trace
unfolding assign
assign-trace i o w = elim (Option-cases (w.cell i)) [
  | inl e ↦ rw (e, assign) refl
  | inr (r, e) ↦ rw (e, assign) refl
]

module _ {P : Outcome Term → World → Type 0} where
  pub Ends-then :
      {b : Bool} (m n : Nif Term) {w : World}
      → b ≡ true
      → Ends P m w
      → Ends P (if b then m else n) w
  Ends-then {b} m n {w} e h = subst (λ x. Ends P (if x then m else n) w) (sym e) h

  pub Ends-else :
      {b : Bool} (m n : Nif Term) {w : World}
      → b ≡ false
      → Ends P n w
      → Ends P (if b then m else n) w
  Ends-else {b} m n {w} e h = subst (λ x. Ends P (if x then m else n) w) (sym e) h

  pub Ends-answer :
      {A : Type 0} (f : List Call → A) (c : Call) (k : A → Nif Term) {w : World}
      → Ends P (k (f (c ∷ w.trace))) (log c w)
      → Ends P (ask f c >>= k) w
  unfolding ask ◌>>=◌
  Ends-answer f c k h = record { at = h.at }

  pub Ends-get :
      {A : Type 0} (f : World → A) (k : A → Nif Term) {w : World}
      → Ends P (k (f w)) w
      → Ends P (gets f >>= k) w
  unfolding gets ◌>>=◌
  Ends-get f k h = record { at = h.at }

pub alloc-At :
    (o : Object) (v : World)
    → v.pending v.next ≡ 0
    → v.held v.next ≡ 0
    → At v.next o 1 0 0 (alloc_resource o v)
unfolding alloc_resource
alloc-At o v p h = record { found = ground (arith, eq_refl v.next); registered = p; referred = h }
