-- ===== src/System/Flags.antt =====
-- What holds of every object at every moment of a history: the flags and the counter of a
-- transaction, and the type of a future.
use erlfdb.Base.{ℕ, ◌≤◌, ◌≡◌, ◌≢◌, sym, subst, true, false, some, List, [], ◌∷◌, arith}
use erlfdb.Extern.{Extern}
use erlfdb.World.{World, ft_none, Future, Object, Transaction, Env}
use erlfdb.Future.{network}
use erlfdb.Invariant.{invoke-IsInvariant}
use erlfdb.Invariant.Changes.{Update, allow, disallow, mutate, reset, watch, next_id, IsNew, new_tx}
use erlfdb.Invariant.Objects.{
  Objects, IsKept, Objects-IsInvariant, fire-Objects, drop_term-Objects, drop_stray-Objects,
}
use erlfdb.Nif.{Outcome, raise}
use erlfdb.Ends.Guards.{Ends-future_of}
use erlfdb.Future.{erlfdb_future_get}
use erlfdb.Future.Outcomes.{future_get_result_lem, answer-raise}
use erlfdb.Dispatch.{Function, invoke}
use erlfdb.Term.{Term, atom}
use erlfdb.System.{Event, calls, fires, drops, collects, initial, step, run}

pub record IsOrderly (t : Transaction) : Type 0 where
  pub locked : t.writes_allowed ≡ false → t.read_only ≡ true
  pub counted : t.txid ≤ 65536

abbrev pub IsGood : Object → Type 0
IsGood (Object.future f) = f.ftype ≢ ft_none
IsGood (Object.database d) = Unit {0}
IsGood (Object.tenant ten) = Unit {0}
IsGood (Object.transaction t) = IsOrderly t

Update-IsOrderly : {t u : Transaction} → Update t u → IsOrderly t → IsOrderly u
Update-IsOrderly (allow e) h = ground arith
Update-IsOrderly (disallow r e) h = ground arith
Update-IsOrderly (mutate a e) h = ground arith
Update-IsOrderly (reset e) h = ground arith
Update-IsOrderly (watch a e) h = ground arith
Update-IsOrderly (next_id b e) h = ground arith

IsNew-IsGood : (env : Env) (o : Object) → IsNew env o → IsGood o
IsNew-IsGood env (Object.future f) (n) = elim n [ ]
IsNew-IsGood env (Object.database d) n = tt
IsNew-IsGood env (Object.tenant ten) n = tt
IsNew-IsGood env (Object.transaction t) (new_tx h e) = ground arith

IsGood-IsKept : (env : Env) → IsKept env IsGood
IsGood-IsKept env = record {
  on_update = λ t u _ m h. Update-IsOrderly m h;
  on_new = IsNew-IsGood env;
  on_future = λ f d. d;
  on_silence = λ f h. h;
}

module _ (ext : Extern) (api : ℕ) where
  step-Objects : (e : Event) (w : World) → Objects IsGood w → Objects IsGood (step ext api e w)
  unfolding step
  step-Objects (calls env f argv) w h =
      invoke-IsInvariant ext api env (Objects-IsInvariant ext env (IsGood-IsKept env)) f argv w h
  step-Objects (fires i) w h = fire-Objects network i w h
  step-Objects (drops i) w h = drop_term-Objects i w h
  step-Objects (collects i) w h = drop_stray-Objects i w h

  run-Objects : (es : List Event) (w : World) → Objects IsGood w → Objects IsGood (run ext api es w)
  unfolding run
  run-Objects [] w h = h
  run-Objects (e ∷ es) w h = run-Objects es (step ext api e w) (step-Objects e w h)

  initial-Objects : Objects IsGood initial
  initial-Objects = record { at = λ j r e. absurd (cc) }

  -- In every history from the loaded state, a transaction on which writes are disallowed is read-
  -- only, and the counter of a transaction is at most 65536.
  pub run-IsOrderly :
      (es : List Event) (i n : ℕ) (t : Transaction)
      → (run ext api es initial).cell i ≡ some (record { object = Object.transaction t; count = n })
      → (t.writes_allowed ≡ false → t.read_only ≡ true) × (t.txid ≤ 65536)
  run-IsOrderly es i n t e =
      let h = (run-Objects es initial initial-Objects).at i _ e in (h.locked, h.counted)

  -- In every history from the loaded state, every future has a result type other than
  -- ErlFDB_FT_NONE, so erlfdb_future_get does not raise invalid_future_type.
  pub run-ftype :
      (es : List Event) (i n : ℕ) (f : Future)
      → (run ext api es initial).cell i ≡ some (record { object = Object.future f; count = n })
      → f.ftype ≢ ft_none
  run-ftype es i n f e = (run-Objects es initial initial-Objects).at i _ e

  IsNotInvalid : Outcome Term → World → Type 0
  IsNotInvalid r v = r ≢ raise (atom "invalid_future_type")

  -- After every history from the loaded state, a call of erlfdb_future_get by any process with any
  -- arguments does not raise invalid_future_type.
  pub run-future_get :
      (es : List Event) (env : Env) (argv : List Term)
      → (invoke ext api env Function.future_get argv (run ext api es initial)).0
        ≢ raise (atom "invalid_future_type")
  unfolding invoke erlfdb_future_get IsNotInvalid
  run-future_get es env argv =
      (Ends-future_of {P = IsNotInvalid} env argv _ (λ e. cc)
        λ i f n _ e.
          let w : World = run ext api es initial in
          record {
            at =
                subst (λ (r : Outcome Term × World). IsNotInvalid r.0 r.1)
                  (sym (future_get_result_lem ext f w))
                  (answer-raise ext f.ftype f.future w (run-ftype es i n f e));
          }).at
