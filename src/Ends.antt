-- ===== src/Ends.antt =====
-- How to follow a NIF from a state: `Ends P m w` says that `m` from `w` ends in an outcome and a
-- state of which `P` holds, and there is a rule for each way to begin a computation.
pub mod Guards
use erlfdb.Base.{
  ℕ, ℤ, Bool, true, false, ◌≡◌, refl, sym, subst, Option, none, some, List, ◌∷◌, if◌then◌else◌,
  Bool-cases, ◌⊎◌, inl, inr, arith, ◌==◌, ==_iff,
}
use erlfdb.Term.{Term, resource}
use erlfdb.Extern.{Call, TransactionCall, transaction_call}
use erlfdb.World.{World, LibState, connected, Object, Resource, Transaction, Env}
use erlfdb.Nif.{
  Nif, Outcome, ok, badarg, raise, continue, ◌>>=◌, pure, make_badarg, raise_exception, check,
  decode, gets, modify, ask, tell, in_state, has_arity, entry, same_state, arg,
}
use erlfdb.Resource.{log, write, assign, get_resource, paired, as_transaction, transaction_is_owner}
use erlfdb.Util.{erlang_error, error_term}
use erlfdb.Owned.{owned, check_writes, writable, put, call}

pub assign_lem :
    (i : ℕ) (o : Object) (w : World) (r : Resource)
    → w.cell i ≡ some r
    → assign i o w ≡ write i (some (record r { object = o })) w
unfolding assign
assign_lem i o w r e = rw (e, assign)

-- The first step of a block is that of its first part.
continue_assoc :
    {A B C : Type 0} (r : Outcome A) (f : A → Nif B) (g : B → Nif C) (w : World)
    → continue (continue r f w).0 g (continue r f w).1 ≡ continue r (λ a. f a >>= g) w
unfolding ◌>>=◌
continue_assoc (ok a) f g w = refl
continue_assoc badarg f g w = refl
continue_assoc (raise t) f g w = refl

bind_assoc :
    {A B C : Type 0} (m : Nif A) (f : A → Nif B) (g : B → Nif C) (w : World)
    → ◌>>=◌ (m >>= f) g w ≡ ◌>>=◌ m (λ a. f a >>= g) w
unfolding ◌>>=◌
bind_assoc m f g w = continue_assoc (m w).0 f g (m w).1

same_state-connected : (s : LibState) → same_state s connected ≡ true → s ≡ connected
same_state-connected s h = ground arith

pub record Ends (P : Outcome Term → World → Type 0) (m : Nif Term) (w : World) : Type 0 where
  pub at : P (m w).0 (m w).1

module _ {P : Outcome Term → World → Type 0} where
  pub Ends-pure : (t : Term) {w : World} → P (ok t) w → Ends P (pure t) w
  Ends-pure t h = record { at = h }

  pub Ends-make_badarg : {w : World} → P badarg w → Ends P make_badarg w
  Ends-make_badarg h = record { at = h }

  pub Ends-raise : (t : Term) {w : World} → P (raise t) w → Ends P (raise_exception t) w
  Ends-raise t h = record { at = h }

  pub Ends-error :
      (err : ℤ) {w : World} → P (raise (error_term err)) w → Ends P (erlang_error err) w
  unfolding erlang_error
  Ends-error err h = record { at = h }

  pub Ends-if :
      (b : Bool) (m n : Nif Term) {w : World}
      → (b ≡ true → Ends P m w)
      → (b ≡ false → Ends P n w)
      → Ends P (if b then m else n) w
  Ends-if true m n hm hn = hm refl
  Ends-if false m n hm hn = hn refl

  pub Ends-check :
      (b : Bool) (k : Unit {0} → Nif Term) {w : World}
      → P badarg w
      → (b ≡ true → Ends P (k tt) w)
      → Ends P (check b >>= k) w
  unfolding check ◌>>=◌
  Ends-check true k s h = record { at = (h refl).at }
  Ends-check false k s h = record { at = s }

  pub Ends-decode :
      {A : Type 0} (o : Option A) (k : A → Nif Term) {w : World}
      → P badarg w
      → ((a : A) → Ends P (k a) w)
      → Ends P (decode o >>= k) w
  unfolding decode ◌>>=◌
  Ends-decode none k s h = record { at = s }
  Ends-decode (some a) k s h = record { at = (h a).at }

  pub Ends-in_state :
      (l : LibState) (k : Unit {0} → Nif Term) {w : World}
      → P badarg w
      → (same_state w.lib_state l ≡ true → Ends P (k tt) w)
      → Ends P (in_state l >>= k) w
  unfolding in_state check ◌>>=◌
  Ends-in_state l k {w} s h = record { at = (Ends-check (same_state w.lib_state l) k s h).at }

  pub Ends-has_arity :
      (n : ℕ) (argv : List Term) (k : Unit {0} → Nif Term) {w : World}
      → P badarg w
      → Ends P (k tt) w
      → Ends P (has_arity n argv >>= k) w
  unfolding has_arity
  Ends-has_arity n argv k s h = Ends-check _ k s (λ _. h)

  pub Ends-ask :
      {A : Type 0} (f : List Call → A) (c : Call) (k : A → Nif Term) {w : World}
      → ((a : A) → a ≡ f (c ∷ w.trace) → Ends P (k a) (log c w))
      → Ends P (ask f c >>= k) w
  unfolding ask ◌>>=◌
  Ends-ask f c k {w} h = record { at = (h (f (c ∷ w.trace)) refl).at }

  pub Ends-tell :
      (c : Call) (k : Unit {0} → Nif Term) {w : World}
      → Ends P (k tt) (log c w)
      → Ends P (tell c >>= k) w
  unfolding tell ◌>>=◌
  Ends-tell c k h = record { at = h.at }

  pub Ends-call :
      (t : Transaction) (c : TransactionCall) (k : Unit {0} → Nif Term) {w : World}
      → Ends P (k tt) (log (transaction_call t.transaction c) w)
      → Ends P (call t c >>= k) w
  unfolding call
  Ends-call t c k h = Ends-tell _ k h

  pub Ends-gets :
      {A : Type 0} (f : World → A) (k : A → Nif Term) {w : World}
      → ((a : A) → a ≡ f w → Ends P (k a) w)
      → Ends P (gets f >>= k) w
  unfolding gets ◌>>=◌
  Ends-gets f k {w} h = record { at = (h (f w) refl).at }

  pub Ends-modify :
      (f : World → World) (k : Unit {0} → Nif Term) {w : World}
      → Ends P (k tt) (f w)
      → Ends P (modify f >>= k) w
  unfolding modify ◌>>=◌
  Ends-modify f k h = record { at = h.at }

  pub Ends-put :
      (i : ℕ) (t : Transaction) (k : Unit {0} → Nif Term) {w : World} (r : Resource)
      → w.cell i ≡ some r
      → Ends P (k tt) (write i (some (record r { object = Object.transaction t })) w)
      → Ends P (put i t >>= k) w
  unfolding put modify ◌>>=◌
  Ends-put i t k {w} r e h = record {
    at =
        subst (λ v. P (k tt v).0 (k tt v).1) (sym (assign_lem i (Object.transaction t) w r e)) h.at;
  }

  pub Ends-pure_bind :
      {A : Type 0} (a : A) (k : A → Nif Term) {w : World} → Ends P (k a) w → Ends P (pure a >>= k) w
  unfolding ◌>>=◌
  Ends-pure_bind a k h = record { at = h.at }

  -- A block within a block is followed as one block.
  pub Ends-assoc :
      {A B : Type 0} (m : Nif A) (f : A → Nif B) (g : B → Nif Term) {w : World}
      → Ends P (m >>= λ a. f a >>= g) w
      → Ends P (m >>= f >>= g) w
  Ends-assoc m f g {w} h = record { at = subst (λ r. P r.0 r.1) (sym (bind_assoc m f g w)) h.at }

  Ends-paired :
      {A : Type 0} (i : ℕ) (o : Option A) (k : ℕ × A → Nif Term) {w : World}
      → P badarg w
      → ((a : A) → o ≡ some a → Ends P (k (i, a)) w)
      → P (◌>>=◌ (paired i o) k w).0 (◌>>=◌ (paired i o) k w).1
  unfolding ◌>>=◌
  Ends-paired i none k s h = s
  Ends-paired i (some a) k s h = (h a refl).at

  pub Ends-get_resource :
      {A : Type 0} (as_type : Option Resource → Option A) (term : Term) (k : ℕ × A → Nif Term)
      {w : World}
      → P badarg w
      → ((i : ℕ) (a : A) → term ≡ resource i → as_type (w.cell i) ≡ some a → Ends P (k (i, a)) w)
      → Ends P (get_resource as_type term >>= k) w
  unfolding get_resource ◌>>=◌
  Ends-get_resource as_type (resource i) k {w} s h = record {
    at = Ends-paired i (as_type (w.cell i)) k s (λ a e. h i a refl e);
  }
  Ends-get_resource as_type _ k s h = record { at = s }

  pub Ends-entry :
      (n : ℕ) (argv : List Term) (k : Unit {0} → Nif Term) {w : World}
      → P badarg w
      → (w.lib_state ≡ connected → Ends P (k tt) w)
      → Ends P (entry n argv >>= k) w
  unfolding entry
  Ends-entry n argv k {w} s h = Ends-assoc _ _ _ (
      Ends-in_state connected _ s
        λ e. Ends-has_arity n argv k s (h (same_state-connected w.lib_state e)))
