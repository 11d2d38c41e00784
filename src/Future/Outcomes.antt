-- ===== src/Future/Outcomes.antt =====
-- What erlfdb_future_get of c_src/main.c answers.
use erlfdb.Base.{
  ℕ, ℤ, Bool, pos, true, false, ◌≡◌, ◌≢◌, refl, List, is_zero, length, if◌then◌else◌, ◌∷◌,
  Bool-cases, inl, inr,
}
use erlfdb.Term.{Term, atom, int, binary, list, make_tuple2, make_tuple3}
use erlfdb.Extern.{
  Call, Extern, FutureResult, future_result, get_error, get_int64, get_key, get_value,
  get_string_array, get_key_array, get_keyvalue_array, get_mappedkeyvalue_array,
}
use erlfdb.World.{
  World, FutureType, ft_none, ft_void, ft_int64, ft_key, ft_value, ft_string_array, ft_key_array,
  ft_keyvalue_array, ft_mappedkeyvalue_array, Future,
}
use erlfdb.Nif.{Outcome, ok, raise, ◌>>=◌, ask, make_boolean}
use erlfdb.Resource.{log}
use erlfdb.Util.{error_term, erlang_error}
use erlfdb.Future.Get.{
  get_with, get_by_type, future_get_result, future_get_void, future_get_int64, future_get_key,
  future_get_value, future_get_string_array, future_get_key_array, future_get_keyvalue_array,
  future_get_mappedkeyvalue_array,
}
use erlfdb.Future.Lists.{in_order, binaries-in_order, keyvalues-in_order, mappeds-in_order}

abbrev pub pair : List ℕ × List ℕ → Term
pair kv = make_tuple2 (binary kv.0) (binary kv.1)

module _ (ext : Extern) (fut : ℕ) (w : World) where
  -- One call of a getter: its error code decides between a term, which depends on the calls made,
  -- and the exception.
  abbrev pub answers : FutureResult → (List Call → Term) → Outcome Term × World
  answers c result =
      let h : List Call = future_result fut c ∷ w.trace in
      (
        if is_zero (ext.error h) then ok (result h) else raise (error_term (ext.error h)),
        log (future_result fut c) w,
      )

  -- The answer by the type of the future.
  abbrev pub answer : FutureType → Outcome Term × World
  answer ft_none = (raise (atom "invalid_future_type"), w)
  answer ft_void = answers get_error (λ h. atom "ok")
  answer ft_int64 = answers get_int64 (λ h. int (ext.int64 h))
  answer ft_key = answers get_key (λ h. binary (ext.bytes h))
  answer ft_value =
      answers get_value (λ h. if ext.holds h then binary (ext.bytes h) else atom "not_found")
  answer ft_string_array = answers get_string_array (λ h. list (in_order binary (ext.strings h)))
  answer ft_key_array = answers get_key_array (λ h. list (in_order binary (ext.strings h)))
  answer ft_keyvalue_array = answers get_keyvalue_array (λ h.
      make_tuple3 (list (in_order pair (ext.keyvalues h))) (int (pos (length (ext.keyvalues h))))
        (make_boolean (ext.more h)))
  answer ft_mappedkeyvalue_array = answers get_mappedkeyvalue_array (λ h.
      make_tuple3
        (list (
          in_order
            (λ m.
              make_tuple3 (make_tuple2 (binary m.key) (binary m.value))
                (make_tuple2 (binary m.begin_key) (binary m.end_key))
                (list (in_order pair m.results)))
            (ext.mapped h)))
        (int (pos (length (ext.mapped h)))) (make_boolean (ext.more h)))

module _ (ext : Extern) where
  get_with_lem :
      {A : Type 0} (c : FutureResult) (read : List Call → A) (to_term : A → Term)
      (result : List Call → Term) (f : Future) (w : World)
      → ((h : List Call) → to_term (read h) ≡ result h)
      → get_with ext c read to_term f w ≡ answers ext f.future w c result
  unfolding get_with ◌>>=◌ ask erlang_error
  get_with_lem c read to_term result f w same =
      let h : List Call = future_result f.future c ∷ w.trace in
      elim (Bool-cases (is_zero (ext.error h))) [
        | inl z ↦ rw (z, same h, ◌>>=◌) refl
        | inr z ↦ rw (z, ◌>>=◌) refl
      ]

  get_by_type_lem :
      (t : FutureType) (f : Future) (w : World) → get_by_type ext t f w ≡ answer ext f.future w t
  unfolding future_get_void future_get_int64 future_get_key future_get_value future_get_string_array
      future_get_key_array future_get_keyvalue_array future_get_mappedkeyvalue_array
  get_by_type_lem ft_none f w = refl
  get_by_type_lem ft_void f w = get_with_lem _ _ _ _ f w (λ h. refl)
  get_by_type_lem ft_int64 f w = get_with_lem _ _ _ _ f w (λ h. refl)
  get_by_type_lem ft_key f w = get_with_lem _ _ _ _ f w (λ h. refl)
  get_by_type_lem ft_value f w = get_with_lem _ _ _ _ f w (λ h. refl)
  get_by_type_lem ft_string_array f w =
      get_with_lem _ _ _ _ f w (λ h. binaries-in_order (ext.strings h))
  get_by_type_lem ft_key_array f w =
      get_with_lem _ _ _ _ f w (λ h. binaries-in_order (ext.strings h))
  get_by_type_lem ft_keyvalue_array f w =
      get_with_lem _ _ _ _ f w (λ h. keyvalues-in_order (ext.keyvalues h) (ext.more h))
  get_by_type_lem ft_mappedkeyvalue_array f w =
      get_with_lem _ _ _ _ f w (λ h. mappeds-in_order (ext.mapped h) (ext.more h))

  -- The body of erlfdb_future_get makes one call, the getter of the future's type, raises the
  -- error where its code is not 0, and otherwise answers: ok for a future without a value, the
  -- integer, the key, the value or not_found as the getter tells whether it is present, the
  -- strings or keys in order, or the key-values or mapped key-values in order with their number
  -- and whether there are more. For ErlFDB_FT_NONE it raises invalid_future_type and makes no
  -- call.
  pub future_get_result_lem :
      (f : Future) (w : World) → future_get_result ext f w ≡ answer ext f.future w f.ftype
  unfolding future_get_result
  future_get_result_lem f w = get_by_type_lem f.ftype f w

  -- The error of a getter is no invalid_future_type.
  decided :
      (b : Bool) (t : Term) (err : ℤ)
      → (if b then ok t else raise (error_term err)) ≢ raise (atom "invalid_future_type")
  decided true t err e = cc e
  decided false t err e = cc e

  pub answer-raise :
      (t : FutureType) (fut : ℕ) (w : World)
      → t ≢ ft_none
      → (answer ext fut w t).0 ≢ raise (atom "invalid_future_type")
  answer-raise ft_none fut w d = absurd (d refl)
  answer-raise ft_void fut w d = decided _ _ _
  answer-raise ft_int64 fut w d = decided _ _ _
  answer-raise ft_key fut w d = decided _ _ _
  answer-raise ft_value fut w d = decided _ _ _
  answer-raise ft_string_array fut w d = decided _ _ _
  answer-raise ft_key_array fut w d = decided _ _ _
  answer-raise ft_keyvalue_array fut w d = decided _ _ _
  answer-raise ft_mappedkeyvalue_array fut w d = decided _ _ _
