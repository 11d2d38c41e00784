-- ===== src/Transaction/Switches.antt =====
-- The flags of a transaction of c_src/main.c: what the owner reads after the calls that set them.
use erlfdb.Base.{
  ℕ, String, Bool-cases, inl, inr, true, false, ◌≡◌, refl, ap, sym, subst, ◌∙◌, some, List, [], ◌∷◌,
  eq_refl, arith, if◌then◌else◌,
}
use erlfdb.Term.{Term, inspect_binary, binary, atom, resource, is_atom}
use erlfdb.Extern.{Extern, TransactionCall, transaction_call, reset, set}
use erlfdb.World.{World, LibState, Object, Transaction, Env}
use erlfdb.Nif.{Outcome, ok, badarg, raise, ◌>>=◌, check, tell, modify, atom_ok, make_boolean}
use erlfdb.Resource.{write, log, assign}
use erlfdb.Ends.{assign_lem}
use erlfdb.Owned.{put, call}
use erlfdb.Owned.Grants.{Proper, owned_lem, writable-locked}
use erlfdb.Transaction.{
  erlfdb_transaction_set_option, erlfdb_transaction_reset, erlfdb_transaction_set,
  erlfdb_transaction_is_read_only, erlfdb_transaction_has_watches,
  erlfdb_transaction_get_writes_allowed,
}
use erlfdb.Transaction.Writes.{written, set-allowed}

-- The owner's world with the transaction `t` in the cell `i`.
pub record Holds (env : Env) (i c : ℕ) (t : Transaction) (w : World) : Type 0 where
  pub connected : w.lib_state ≡ LibState.connected
  pub found : w.cell i ≡ some (record { object = Object.transaction t; count = c })
  pub owner : t.owner ≡ env.self

module _ (ext : Extern) (api : ℕ) (env : Env) (i c : ℕ) where
  one : (t : Transaction) (w : World) → Holds env i c t w → Proper env 1 (resource i ∷ []) w i c t
  one t w h = record {
    connected = h.connected;
    counted = refl;
    named = refl;
    found = h.found;
    owner = h.owner;
  }

  three :
      (name value : Term) (t : Transaction) (w : World)
      → Holds env i c t w
      → Proper env 3 (resource i ∷ name ∷ value ∷ []) w i c t
  three name value t w h = record {
    connected = h.connected;
    counted = refl;
    named = refl;
    found = h.found;
    owner = h.owner;
  }

  abbrev pub option : String → Term → World → Outcome Term × World
  option name value w =
      erlfdb_transaction_set_option ext env api (resource i ∷ atom name ∷ value ∷ []) w

  abbrev pub with_flags : Transaction → World → World
  with_flags t w = write i (some (record { object = Object.transaction t; count = c })) w

  pub disallow-read_only :
      (value : Term) (t : Transaction) (w : World)
      → Holds env i c t w
      → option "disallow_writes" value w ≡ (
          if t.read_only
          then (ok atom_ok, with_flags (record t { writes_allowed = false }) w)
          else (badarg, w))
  unfolding erlfdb_transaction_set_option ◌>>=◌ check put modify assign is_atom
  disallow-read_only value t w h = elim (Bool-cases t.read_only) [
    | inl e ↦
        rw (owned_lem env 3 _ w i c t (three (atom "disallow_writes") value t w h), e, h.found) refl
    | inr e ↦ rw (owned_lem env 3 _ w i c t (three (atom "disallow_writes") value t w h), e) refl
  ]

  allow-Holds :
      (t u : Transaction) (w : World)
      → u.owner ≡ t.owner
      → Holds env i c t w
      → Holds env i c u (with_flags u w)
  allow-Holds t u w o h = record {
    connected = h.connected;
    found = ground (arith, eq_refl i);
    owner = o ∙ h.owner;
  }

  written-Holds :
      (t : Transaction) (k : TransactionCall) (w : World)
      → Holds env i c t w
      → Holds env i c (record t { read_only = false }) (written i c t k w)
  written-Holds t k w h = record {
    connected = h.connected;
    found = ground (arith, eq_refl i);
    owner = h.owner;
  }

  answers_read_only :
      (t : Transaction) (w : World)
      → Holds env i c t w
      → erlfdb_transaction_is_read_only ext env (resource i ∷ []) w
        ≡ (ok (make_boolean t.read_only), w)
  unfolding erlfdb_transaction_is_read_only ◌>>=◌
  answers_read_only t w h = rw (owned_lem env 1 _ w i c t (one t w h)) refl

  answers_watches :
      (t : Transaction) (w : World)
      → Holds env i c t w
      → erlfdb_transaction_has_watches ext env (resource i ∷ []) w
        ≡ (ok (make_boolean t.has_watches), w)
  unfolding erlfdb_transaction_has_watches ◌>>=◌
  answers_watches t w h = rw (owned_lem env 1 _ w i c t (one t w h)) refl

  answers_allowed :
      (t : Transaction) (w : World)
      → Holds env i c t w
      → erlfdb_transaction_get_writes_allowed ext env (resource i ∷ []) w
        ≡ (ok (make_boolean t.writes_allowed), w)
  unfolding erlfdb_transaction_get_writes_allowed ◌>>=◌
  answers_allowed t w h = rw (owned_lem env 1 _ w i c t (one t w h)) refl

  abbrev pub set_key : List ℕ → List ℕ → World → Outcome Term × World
  set_key key val w = erlfdb_transaction_set ext env (resource i ∷ binary key ∷ binary val ∷ []) w

  set_key-written :
      (key val : List ℕ) (t : Transaction) (w : World)
      → Holds env i c t w
      → t.writes_allowed ≡ true
      → set_key key val w ≡ (ok atom_ok, written i c t (set key val) w)
  unfolding inspect_binary
  set_key-written key val t w h e =
      set-allowed ext env _ w i c t key val (three (binary key) (binary val) t w h) e refl refl

  -- After a set by the owner of a transaction on which writes are allowed,
  -- erlfdb_transaction_is_read_only answers false and disallow_writes is refused with badarg and
  -- changes nothing.
  pub set-disallow :
      (key val : List ℕ) (value : Term) (t : Transaction) (w : World)
      → Holds env i c t w
      → t.writes_allowed ≡ true
      → let v : World = (set_key key val w).1 in
        (erlfdb_transaction_is_read_only ext env (resource i ∷ []) v ≡ (ok (make_boolean false), v))
        × (option "disallow_writes" value v ≡ (badarg, v))
  set-disallow key val value t w h e =
      let u : Transaction = record t { read_only = false } in
      let g = written-Holds t (set key val) w h in
      rw (set_key-written key val t w h e) (answers_read_only u _ g, disallow-read_only value u _ g)

  reset-flags_lem :
      (t : Transaction) (w : World)
      → Holds env i c t w
      → erlfdb_transaction_reset ext env (resource i ∷ []) w ≡ (
        ok atom_ok,
        with_flags
            (record t { txid = 0; read_only = true; has_watches = false })
            (log (transaction_call t.transaction reset) w),
      )
  unfolding erlfdb_transaction_reset ◌>>=◌ call tell put modify assign
  reset-flags_lem t w h = rw (owned_lem env 1 _ w i c t (one t w h), h.found) refl

  -- After a reset by the owner the transaction answers that it is read-only and has no watches,
  -- and writes are allowed as they were before.
  pub reset-flags :
      (t : Transaction) (w : World)
      → Holds env i c t w
      → let v : World = (erlfdb_transaction_reset ext env (resource i ∷ []) w).1 in
        (erlfdb_transaction_is_read_only ext env (resource i ∷ []) v ≡ (ok (make_boolean true), v))
        × (erlfdb_transaction_has_watches ext env (resource i ∷ []) v
            ≡ (ok (make_boolean false), v))
        × (erlfdb_transaction_get_writes_allowed ext env (resource i ∷ []) v
            ≡ (ok (make_boolean t.writes_allowed), v))
  reset-flags t w h =
      let u : Transaction = record t { txid = 0; read_only = true; has_watches = false } in
      let logged : Holds env i c t (log (transaction_call t.transaction reset) w) = record {
        connected = h.connected;
        found = h.found;
        owner = h.owner;
      } in
      let g = allow-Holds t u (log (transaction_call t.transaction reset) w) refl logged in
      rw (reset-flags_lem t w h)
        (answers_read_only u _ g, answers_watches u _ g, answers_allowed u _ g)

  allow_lem :
      (value : Term) (t : Transaction) (w : World)
      → Holds env i c t w
      → option "allow_writes" value w
        ≡ (ok atom_ok, with_flags (record t { writes_allowed = true }) w)
  unfolding erlfdb_transaction_set_option ◌>>=◌ put modify assign is_atom
  allow_lem value t w h =
      rw
        (
          owned_lem env 3 _ w i c t (three (atom "allow_writes") value t w h),
          assign_lem i (Object.transaction (record t { writes_allowed = true })) w _ h.found,
        )
        refl

  set_key-locked :
      (key val : List ℕ) (t : Transaction) (w : World)
      → Holds env i c t w
      → t.writes_allowed ≡ false
      → set_key key val w ≡ (raise (atom "writes_not_allowed"), w)
  unfolding erlfdb_transaction_set ◌>>=◌
  set_key-locked key val t w h e =
      rw (writable-locked env 3 _ w i c t (three (binary key) (binary val) t w h) e) refl

  disallow_lem :
      (value : Term) (t : Transaction) (w : World)
      → Holds env i c t w
      → t.read_only ≡ true
      → option "disallow_writes" value w
        ≡ (ok atom_ok, with_flags (record t { writes_allowed = false }) w)
  disallow_lem value t w h e =
      let done : Outcome Term × World =
        (ok atom_ok, with_flags (record t { writes_allowed = false }) w) in
      disallow-read_only value t w h
      ∙ subst (λ b. (if b then done else (badarg, w)) ≡ done) (sym e) refl

  -- On a read-only transaction, after disallow_writes by the owner a set raises writes_not_allowed
  -- and changes nothing, and after allow_writes a set succeeds.
  pub disallow-allow :
      (key val : List ℕ) (value : Term) (t : Transaction) (w : World)
      → Holds env i c t w
      → t.read_only ≡ true
      → let v : World = (option "disallow_writes" value w).1 in
        let u : World = (option "allow_writes" value v).1 in
        (set_key key val v ≡ (raise (atom "writes_not_allowed"), v))
        × ((set_key key val u).0 ≡ ok atom_ok)
  disallow-allow key val value t w h e =
      let t1 : Transaction = record t { writes_allowed = false } in
      let t2 : Transaction = record t { writes_allowed = true } in
      let v : World = with_flags t1 w in
      let g1 = allow-Holds t t1 w refl h in
      let g2 = allow-Holds t1 t2 v refl g1 in
      rw (disallow_lem value t w h e) (
        set_key-locked key val t1 v g1 refl,
        rw (allow_lem value t1 v g1) (
            ap (λ (r : Outcome Term × World). r.0)
              (set_key-written key val t2 (with_flags t2 v) g2 refl)),
      )
