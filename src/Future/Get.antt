-- ===== src/Future/Get.antt =====
-- The getters of c_src/main.c, erlfdb_future_get_void to erlfdb_future_get_mappedkeyvalue_array,
-- and the choice among them in erlfdb_future_get. An array is filled from its end, by list cells.
use erlfdb.Base.{ℕ, zero, suc, Bool, List, [], pos, is_zero, get_or, length, if◌then◌else◌}
use erlfdb.Term.{Term, Terms, nil, cons, atom, int, binary, list, make_tuple2, make_tuple3}
use erlfdb.Extern.{
  Call, Extern, FutureResult, MappedKeyValue, future_result, get_error, get_int64, get_key,
  get_value, get_string_array, get_key_array, get_keyvalue_array, get_mappedkeyvalue_array,
}
use erlfdb.World.{
  Future, FutureType, ft_none, ft_void, ft_int64, ft_key, ft_value, ft_string_array,
  ft_keyvalue_array, ft_mappedkeyvalue_array, ft_key_array,
}
use erlfdb.Nif.{Nif, ◌>>=◌, pure, raise_exception, ask, make_boolean}
use erlfdb.Util.{erlang_error}

-- `for (i = count - 1; i >= 0; i--) ret = enif_make_list_cell(env, cell(i), ret);`
unfoldable pub fill_list : (ℕ → Term) → ℕ → Terms → Terms
fill_list cell zero ret = ret
fill_list cell (suc i) ret = fill_list cell i (cons (cell i) ret)

abbrev pub keyvalue_term : List ℕ × List ℕ → Term
keyvalue_term kv = make_tuple2 (binary kv.0) (binary kv.1)

abbrev pub no_keyvalue : List ℕ × List ℕ
no_keyvalue = ([], [])

abbrev pub no_mapped : MappedKeyValue
no_mapped = record { key = []; value = []; begin_key = []; end_key = []; results = [] }

-- The inner loop, over the key-values that a secondary query found.
unfoldable pub results_term : List (List ℕ × List ℕ) → Term
results_term kvs = list (fill_list (λ j. keyvalue_term (get_or kvs j no_keyvalue)) (length kvs) nil)

unfoldable pub mapped_term : MappedKeyValue → Term
mapped_term m =
    make_tuple3 (make_tuple2 (binary m.key) (binary m.value))
      (make_tuple2 (binary m.begin_key) (binary m.end_key)) (results_term m.results)

unfoldable pub binaries_term : List (List ℕ) → Term
binaries_term keys = list (fill_list (λ i. binary (get_or keys i [])) (length keys) nil)

-- `T3(env, ret, enif_make_int(env, count), more)`.
abbrev pub page_term : Terms → ℕ → Bool → Term
page_term ret count more = make_tuple3 (list ret) (int (pos count)) (make_boolean more)

unfoldable pub keyvalues_term : List (List ℕ × List ℕ) → Bool → Term
keyvalues_term kvs more =
    page_term (fill_list (λ i. keyvalue_term (get_or kvs i no_keyvalue)) (length kvs) nil)
      (length kvs) more

unfoldable pub mappeds_term : List MappedKeyValue → Bool → Term
mappeds_term ms more =
    page_term (fill_list (λ i. mapped_term (get_or ms i no_mapped)) (length ms) nil) (length ms)
      more

module _ (ext : Extern) where
  -- Ask for the result; an error is raised, and otherwise `answer` is turned into a term.
  unfoldable pub get_with :
      {A : Type 0} → FutureResult → (List Call → A) → (A → Term) → Future → Nif Term
  get_with c answer to_term f = do
    (err, a) ← ask (λ h. (ext.error h, answer h)) (future_result f.future c)
    if is_zero err then pure (to_term a) else erlang_error err

  unfoldable pub future_get_void : Future → Nif Term
  future_get_void = get_with get_error (λ _. tt) (λ _. atom "ok")

  unfoldable pub future_get_int64 : Future → Nif Term
  future_get_int64 = get_with get_int64 ext.int64 int

  unfoldable pub future_get_key : Future → Nif Term
  future_get_key = get_with get_key ext.bytes binary

  unfoldable pub future_get_value : Future → Nif Term
  future_get_value =
      get_with {A = Bool × List ℕ} get_value (λ h. (ext.holds h, ext.bytes h))
        (λ a. if a.0 then binary a.1 else atom "not_found")

  unfoldable pub future_get_string_array : Future → Nif Term
  future_get_string_array = get_with get_string_array ext.strings binaries_term

  unfoldable pub future_get_key_array : Future → Nif Term
  future_get_key_array = get_with get_key_array ext.strings binaries_term

  unfoldable pub future_get_keyvalue_array : Future → Nif Term
  future_get_keyvalue_array =
      get_with {A = List (List ℕ × List ℕ) × Bool} get_keyvalue_array
        (λ h. (ext.keyvalues h, ext.more h)) (λ a. keyvalues_term a.0 a.1)

  unfoldable pub future_get_mappedkeyvalue_array : Future → Nif Term
  future_get_mappedkeyvalue_array =
      get_with {A = List MappedKeyValue × Bool} get_mappedkeyvalue_array
        (λ h. (ext.mapped h, ext.more h)) (λ a. mappeds_term a.0 a.1)

  abbrev pub get_by_type : FutureType → Future → Nif Term
  get_by_type ft_void f = future_get_void f
  get_by_type ft_int64 f = future_get_int64 f
  get_by_type ft_key f = future_get_key f
  get_by_type ft_value f = future_get_value f
  get_by_type ft_string_array f = future_get_string_array f
  get_by_type ft_key_array f = future_get_key_array f
  get_by_type ft_keyvalue_array f = future_get_keyvalue_array f
  get_by_type ft_mappedkeyvalue_array f = future_get_mappedkeyvalue_array f
  get_by_type ft_none f = raise_exception (atom "invalid_future_type")

  -- The body of erlfdb_future_get behind its guards.
  unfoldable pub future_get_result : Future → Nif Term
  future_get_result f = get_by_type f.ftype f
