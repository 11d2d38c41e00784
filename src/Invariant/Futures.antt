-- ===== src/Invariant/Futures.antt =====
-- The NIFs on futures keep every invariant.
use erlfdb.Base.{List, ◌∷◌, sym, subst}
use erlfdb.Term.{Term}
use erlfdb.Extern.{Call, Extern, FutureResult, future_cancel}
use erlfdb.World.{World, FutureType, Future, Env}
use erlfdb.Resource.{log}
use erlfdb.Future
use erlfdb.Future.{run_fired}
use erlfdb.Future.Get
use erlfdb.Future.Get.{get_with, get_by_type, future_get_result}
use erlfdb.Ends.{
  Ends, Ends-pure, Ends-ask, Ends-if, Ends-error, Ends-raise, Ends-modify, Ends-tell, assign_lem,
}
use erlfdb.Ends.Guards.{Ends-future_of}
use erlfdb.Invariant.Changes.{IsInvariant, Kept}

module _ (ext : Extern) (env : Env) {P : World → Type 0} (inv : IsInvariant ext env P) where
  open inv use {on_log, on_silence, on_cancel}

  get_with_lem :
      {A : Type 0} (c : FutureResult) (answer : List Call → A) (to_term : A → Term) (f : Future)
      {w : World}
      → P w
      → Ends (Kept P) (get_with ext c answer to_term f) w
  unfolding get_with
  get_with_lem c answer to_term f h =
      search (Ends-ask, Ends-if, Ends-pure, Ends-error, on_log) depth 12

  get_by_type_lem :
      (t : FutureType) (f : Future) {w : World} → P w → Ends (Kept P) (get_by_type ext t f) w
  unfolding Get.future_get_void Get.future_get_int64 Get.future_get_key Get.future_get_value
      Get.future_get_string_array Get.future_get_key_array Get.future_get_keyvalue_array
      Get.future_get_mappedkeyvalue_array
  get_by_type_lem FutureType.ft_none f h = Ends-raise _ h
  get_by_type_lem FutureType.ft_void f h = get_with_lem _ _ _ f h
  get_by_type_lem FutureType.ft_int64 f h = get_with_lem _ _ _ f h
  get_by_type_lem FutureType.ft_key f h = get_with_lem _ _ _ f h
  get_by_type_lem FutureType.ft_value f h = get_with_lem _ _ _ f h
  get_by_type_lem FutureType.ft_string_array f h = get_with_lem _ _ _ f h
  get_by_type_lem FutureType.ft_key_array f h = get_with_lem _ _ _ f h
  get_by_type_lem FutureType.ft_keyvalue_array f h = get_with_lem _ _ _ f h
  get_by_type_lem FutureType.ft_mappedkeyvalue_array f h = get_with_lem _ _ _ f h

  pub future_get_lem :
      (argv : List Term) {w : World} → P w → Ends (Kept P) (Future.erlfdb_future_get ext env argv) w
  unfolding Future.erlfdb_future_get future_get_result
  future_get_lem argv h = Ends-future_of env argv _ h λ i f n _ _. get_by_type_lem f.ftype f h

  pub future_is_ready_lem :
      (argv : List Term) {w : World}
      → P w
      → Ends (Kept P) (Future.erlfdb_future_is_ready ext env argv) w
  unfolding Future.erlfdb_future_is_ready
  future_is_ready_lem argv h =
      Ends-future_of env argv _ h λ i f n _ _. Ends-ask _ _ _ λ a _. Ends-pure _ (on_log _ h)

  pub future_get_error_lem :
      (argv : List Term) {w : World}
      → P w
      → Ends (Kept P) (Future.erlfdb_future_get_error ext env argv) w
  unfolding Future.erlfdb_future_get_error
  future_get_error_lem argv h =
      Ends-future_of env argv _ h λ i f n _ _. Ends-ask _ _ _ λ a _. Ends-pure _ (on_log _ h)

  pub future_silence_lem :
      (argv : List Term) {w : World}
      → P w
      → Ends (Kept P) (Future.erlfdb_future_silence ext env argv) w
  unfolding Future.erlfdb_future_silence
  future_silence_lem argv {w} h = Ends-future_of env argv _ h λ i f n _ e.
      Ends-modify _ _ (Ends-pure _ (subst P (sym (assign_lem i _ w _ e)) (on_silence i n f e h)))

  pub future_cancel_lem :
      (argv : List Term) {w : World}
      → P w
      → Ends (Kept P) (Future.erlfdb_future_cancel ext env argv) w
  unfolding Future.erlfdb_future_cancel
  future_cancel_lem argv {w} h = Ends-future_of env argv _ h λ i f n _ e.
      let c : Call = future_cancel f.future in
      Ends-modify _ _ (
        Ends-tell _ _ (
          Ends-modify _ _ (
            Ends-pure _ (
              subst (λ v. P (run_fired (ext.fired (c ∷ v.trace)) i (log c v)))
                (sym (assign_lem i _ w _ e)) (on_cancel _ i n f c e h)))))
