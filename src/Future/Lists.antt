-- ===== src/Future/Lists.antt =====
-- The loops of the getters of c_src/main.c, which fill a list from its end, against the list in the
-- order of libfdb_c's array.
use erlfdb.Base.{ℕ, zero, suc, Bool, ◌≡◌, refl, ap, ◌∙◌, List, [], ◌∷◌, pos, get_or, length}
use erlfdb.Term.{Term, Terms, nil, cons, binary, int, list, make_tuple2, make_tuple3}
use erlfdb.Extern.{MappedKeyValue}
use erlfdb.Nif.{make_boolean}
use erlfdb.Future.Get.{
  fill_list, keyvalue_term, no_keyvalue, no_mapped, results_term, mapped_term, binaries_term,
  keyvalues_term, mappeds_term,
}

-- The elements in the array's order.
abbrev pub in_order : {A : Type 0} → (A → Term) → List A → Terms
in_order f [] = nil
in_order f (x ∷ xs) = cons (f x) (in_order f xs)

fill_list-suc :
    (cell : ℕ → Term) (n : ℕ) (ret : Terms)
    → fill_list cell (suc n) ret ≡ cons (cell 0) (fill_list (λ i. cell (suc i)) n ret)
unfolding fill_list
fill_list-suc cell zero ret = refl
fill_list-suc cell (suc n) ret = fill_list-suc cell n (cons (cell (suc n)) ret)

pub fill_list-in_order :
    {A : Type 0} (f : A → Term) (d : A) (xs : List A)
    → fill_list (λ i. f (get_or xs i d)) (length xs) nil ≡ in_order f xs
unfolding fill_list
fill_list-in_order f d [] = refl
fill_list-in_order f d (x ∷ xs) =
    fill_list-suc (λ i. f (get_or (x ∷ xs) i d)) (length xs) nil
    ∙ ap (cons (f x)) (fill_list-in_order f d xs)

-- The loop of erlfdb_future_get_string_array and erlfdb_future_get_key_array, from the end of the
-- array, gives all strings in the order of the array.
pub binaries-in_order : (keys : List (List ℕ)) → binaries_term keys ≡ list (in_order binary keys)
unfolding binaries_term
binaries-in_order keys = ap list (fill_list-in_order binary [] keys)

in_order-ext :
    {A : Type 0} {f g : A → Term}
    → ((x : A) → f x ≡ g x)
    → (xs : List A) → in_order f xs ≡ in_order g xs
in_order-ext e [] = refl
in_order-ext e (x ∷ xs) = rw (e x, in_order-ext e xs) refl

-- The loop of erlfdb_future_get_keyvalue_array, from the end of the array, gives {Key, Value} for
-- each key-value in the order of the array, with their number and whether there are more.
pub keyvalues-in_order :
    (kvs : List (List ℕ × List ℕ)) (more : Bool)
    → keyvalues_term kvs more
      ≡ make_tuple3
          (list (in_order (λ kv. make_tuple2 (binary kv.0) (binary kv.1)) kvs))
          (int (pos (length kvs)))
          (make_boolean more)
unfolding keyvalues_term
keyvalues-in_order kvs more =
    ap (λ ts. make_tuple3 (list ts) (int (pos (length kvs))) (make_boolean more))
      (fill_list-in_order keyvalue_term no_keyvalue kvs)

-- A mapped key-value: {{Key, Value}, {Begin, End}, Results}, with {Key, Value} for each result.
mapped_term_lem :
    (m : MappedKeyValue)
    → mapped_term m
      ≡ make_tuple3
          (make_tuple2 (binary m.key) (binary m.value))
          (make_tuple2 (binary m.begin_key) (binary m.end_key))
          (list (in_order (λ kv. make_tuple2 (binary kv.0) (binary kv.1)) m.results))
unfolding mapped_term results_term
mapped_term_lem m =
    ap
      (λ ts.
        make_tuple3 (make_tuple2 (binary m.key) (binary m.value))
          (make_tuple2 (binary m.begin_key) (binary m.end_key)) (list ts))
      (fill_list-in_order keyvalue_term no_keyvalue m.results)

-- The loops of erlfdb_future_get_mappedkeyvalue_array, from the end of the arrays, give {{Key,
-- Value}, {Begin, End}, Results} for each mapped key-value in the order of the array, where
-- Results has {Key, Value} for each secondary result in its order, with the number of the mapped
-- key-values and whether there are more.
pub mappeds-in_order :
    (ms : List MappedKeyValue) (more : Bool)
    → mappeds_term ms more
      ≡ make_tuple3
          (list (
            in_order
              (λ m.
                make_tuple3
                  (make_tuple2 (binary m.key) (binary m.value))
                  (make_tuple2 (binary m.begin_key) (binary m.end_key))
                  (list (in_order (λ kv. make_tuple2 (binary kv.0) (binary kv.1)) m.results)))
              ms))
          (int (pos (length ms)))
          (make_boolean more)
unfolding mappeds_term
mappeds-in_order ms more =
    ap (λ ts. make_tuple3 (list ts) (int (pos (length ms))) (make_boolean more))
      (fill_list-in_order mapped_term no_mapped ms ∙ in_order-ext mapped_term_lem ms)
