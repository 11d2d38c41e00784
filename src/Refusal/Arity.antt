-- ===== src/Refusal/Arity.antt =====
-- `argc`: a NIF of c_src/main.c called with a number of arguments other than that of its entry in
-- `funcs`.
use erlfdb.Base.{
  ℕ, true, false, ◌≡◌, ◌≢◌, refl, subst, ◌∙◌, List, [], ◌∷◌, Any, length, leb, arith, ◌==◌, ==_iff,
  All, Bool, if◌then◌else◌, Bool-cases, inl, inr,
}
use erlfdb.Term.{Term}
use erlfdb.Extern.{Call, Extern}
use erlfdb.World.{World, LibState, Env}
use erlfdb.Nif.{Nif, badarg, ◌>>=◌, entry, in_state, has_arity, check, same_state, ask, make_badarg}
use erlfdb.Resource.{log}
use erlfdb.Owned.{owned, writable}
use erlfdb.Future.{future_of}
use erlfdb.Database.{database_of, tenant_of}
use erlfdb.Dispatch.{Function, funcs, invoke}
use erlfdb.Refusal.Numbers.{arity}
use erlfdb.Network
use erlfdb.Database
use erlfdb.Future
use erlfdb.Transaction
use erlfdb.Transaction.Read

-- The state after the refusal: erlfdb_get_max_api_version asks before it looks at `argc`.
abbrev pub refused_state : Function → World → World
refused_state Function.get_max_api_version w = log Call.get_max_api_version w
refused_state _ w = w

entry-refused :
    (n : ℕ) (argv : List Term) (w : World)
    → (length argv == n) ≡ false
    → entry n argv w ≡ (badarg, w)
unfolding entry in_state has_arity check ◌>>=◌
entry-refused n argv w bad = elim (Bool-cases (same_state w.lib_state LibState.connected)) [
  | inl e ↦ rw (e, bad, ◌>>=◌) refl
  | inr e ↦ rw (e, ◌>>=◌) refl
]

-- The same for a NIF that runs in another state of the library.
staged :
    (argv : List Term) (n : ℕ) (s : LibState) (k : Unit {0} → Nif Term) (w : World)
    → (length argv == n) ≡ false
    → (in_state s >>= λ _. has_arity n argv >>= k) w ≡ (badarg, w)
unfolding in_state has_arity check ◌>>=◌
staged argv n s k w bad = elim (Bool-cases (same_state w.lib_state s)) [
  | inl e ↦ rw (e, bad, ◌>>=◌) refl
  | inr e ↦ rw (e, ◌>>=◌) refl
]

either :
    (b : Bool) (m : Nif Term) (w : World)
    → m w ≡ (badarg, w)
    → (if b then m else make_badarg) w ≡ (badarg, w)
either true m w h = h
either false m w h = refl

owned-refused :
    (env : Env) (n : ℕ) (argv : List Term) (w : World)
    → (length argv == n) ≡ false
    → owned env n argv w ≡ (badarg, w)
unfolding owned ◌>>=◌
owned-refused env n argv w bad = rw (entry-refused n argv w bad, ◌>>=◌) refl

writable-refused :
    (env : Env) (n : ℕ) (argv : List Term) (w : World)
    → (length argv == n) ≡ false
    → writable env n argv w ≡ (badarg, w)
unfolding writable ◌>>=◌
writable-refused env n argv w bad = rw (owned-refused env n argv w bad, ◌>>=◌) refl

future_of-refused :
    (argv : List Term) (w : World) → (length argv == 1) ≡ false → future_of argv w ≡ (badarg, w)
unfolding future_of ◌>>=◌
future_of-refused argv w bad = rw (entry-refused 1 argv w bad, ◌>>=◌) refl

database_of-refused :
    (n : ℕ) (argv : List Term) (w : World)
    → (length argv == n) ≡ false
    → database_of n argv w ≡ (badarg, w)
unfolding database_of ◌>>=◌
database_of-refused n argv w bad = rw (entry-refused n argv w bad, ◌>>=◌) refl

tenant_of-refused :
    (n : ℕ) (argv : List Term) (w : World)
    → (length argv == n) ≡ false
    → tenant_of n argv w ≡ (badarg, w)
unfolding tenant_of ◌>>=◌
tenant_of-refused n argv w bad = rw (entry-refused n argv w bad, ◌>>=◌) refl

module _ (ext : Extern) (api : ℕ) (env : Env) where
  refused_arity :
      (f : Function) (argv : List Term) (w : World)
      → (length argv == arity f) ≡ false
      → invoke ext api env f argv w ≡ (badarg, refused_state f w)
  unfolding invoke has_arity check ask ◌>>=◌ Database.client_status Read.mapped_range
      Network.erlfdb_can_initialize Network.erlfdb_get_max_api_version
      Network.erlfdb_select_api_version Network.erlfdb_network_set_option
      Network.erlfdb_setup_network Future.erlfdb_future_cancel Future.erlfdb_future_silence
      Future.erlfdb_future_is_ready Future.erlfdb_future_get_error Future.erlfdb_future_get
      Database.erlfdb_create_database Database.erlfdb_database_set_option
      Database.erlfdb_database_open_tenant Database.erlfdb_database_create_transaction
      Database.erlfdb_database_get_main_thread_busyness Database.erlfdb_database_get_client_status
      Database.erlfdb_tenant_create_transaction Transaction.erlfdb_transaction_set_option
      Transaction.erlfdb_transaction_set_read_version Read.erlfdb_transaction_get_read_version
      Read.erlfdb_transaction_get Read.erlfdb_transaction_get_key
      Read.erlfdb_transaction_get_addresses_for_key Read.erlfdb_transaction_get_range
      Read.erlfdb_transaction_get_range_split_points Read.erlfdb_transaction_get_mapped_range
      Transaction.erlfdb_transaction_set Transaction.erlfdb_transaction_clear
      Transaction.erlfdb_transaction_clear_range Transaction.erlfdb_transaction_atomic_op
      Read.erlfdb_transaction_commit Transaction.erlfdb_transaction_get_committed_version
      Read.erlfdb_transaction_get_versionstamp Read.erlfdb_transaction_watch
      Read.erlfdb_transaction_on_error Transaction.erlfdb_transaction_reset
      Transaction.erlfdb_transaction_cancel Transaction.erlfdb_transaction_add_conflict_range
      Read.erlfdb_transaction_get_approximate_size Transaction.erlfdb_transaction_get_next_tx_id
      Transaction.erlfdb_transaction_is_read_only Transaction.erlfdb_transaction_has_watches
      Transaction.erlfdb_transaction_get_writes_allowed
      Read.erlfdb_transaction_get_estimated_range_size Network.erlfdb_get_error
      Network.erlfdb_error_predicate
  refused_arity Function.can_initialize argv w bad = staged argv 0 LibState.loaded _ w bad
  refused_arity Function.get_max_api_version argv w bad = rw (bad, ◌>>=◌) refl
  refused_arity Function.select_api_version argv w bad = staged argv 1 LibState.loaded _ w bad
  refused_arity Function.network_set_option argv w bad = staged argv 2 LibState.api_selected _ w bad
  refused_arity Function.setup_network argv w bad = staged argv 0 LibState.api_selected _ w bad
  refused_arity Function.future_cancel argv w bad = rw (future_of-refused argv w bad, ◌>>=◌) refl
  refused_arity Function.future_silence argv w bad = rw (future_of-refused argv w bad, ◌>>=◌) refl
  refused_arity Function.future_is_ready argv w bad = rw (future_of-refused argv w bad, ◌>>=◌) refl
  refused_arity Function.future_get_error argv w bad = rw (future_of-refused argv w bad, ◌>>=◌) refl
  refused_arity Function.future_get argv w bad = rw (future_of-refused argv w bad, ◌>>=◌) refl
  refused_arity Function.create_database argv w bad = rw (entry-refused 1 argv w bad, ◌>>=◌) refl
  refused_arity Function.database_set_option argv w bad =
      rw (database_of-refused 3 argv w bad, ◌>>=◌) refl
  refused_arity Function.database_open_tenant argv w bad =
      rw (database_of-refused 2 argv w bad, ◌>>=◌) refl
  refused_arity Function.database_create_transaction argv w bad =
      rw (database_of-refused 1 argv w bad, ◌>>=◌) refl
  refused_arity Function.database_get_main_thread_busyness argv w bad =
      rw (database_of-refused 1 argv w bad, ◌>>=◌) refl
  refused_arity Function.database_get_client_status argv w bad =
      either (leb 730 api) _ w (rw (database_of-refused 1 argv w bad, ◌>>=◌) refl)
  refused_arity Function.tenant_create_transaction argv w bad =
      rw (tenant_of-refused 1 argv w bad, ◌>>=◌) refl
  refused_arity Function.transaction_set_option argv w bad =
      rw (owned-refused env 3 argv w bad, ◌>>=◌) refl
  refused_arity Function.transaction_set_read_version argv w bad =
      rw (owned-refused env 2 argv w bad, ◌>>=◌) refl
  refused_arity Function.transaction_get_read_version argv w bad =
      rw (owned-refused env 1 argv w bad, ◌>>=◌) refl
  refused_arity Function.transaction_get argv w bad =
      rw (owned-refused env 3 argv w bad, ◌>>=◌) refl
  refused_arity Function.transaction_get_key argv w bad =
      rw (owned-refused env 3 argv w bad, ◌>>=◌) refl
  refused_arity Function.transaction_get_addresses_for_key argv w bad =
      rw (owned-refused env 2 argv w bad, ◌>>=◌) refl
  refused_arity Function.transaction_get_range argv w bad =
      rw (owned-refused env 9 argv w bad, ◌>>=◌) refl
  refused_arity Function.transaction_get_range_split_points argv w bad =
      rw (owned-refused env 4 argv w bad, ◌>>=◌) refl
  refused_arity Function.transaction_get_mapped_range argv w bad =
      either (leb 730 api) _ w (rw (owned-refused env 10 argv w bad, ◌>>=◌) refl)
  refused_arity Function.transaction_set argv w bad =
      rw (writable-refused env 3 argv w bad, ◌>>=◌) refl
  refused_arity Function.transaction_clear argv w bad =
      rw (writable-refused env 2 argv w bad, ◌>>=◌) refl
  refused_arity Function.transaction_clear_range argv w bad =
      rw (writable-refused env 3 argv w bad, ◌>>=◌) refl
  refused_arity Function.transaction_atomic_op argv w bad =
      rw (writable-refused env 4 argv w bad, ◌>>=◌) refl
  refused_arity Function.transaction_commit argv w bad =
      rw (owned-refused env 1 argv w bad, ◌>>=◌) refl
  refused_arity Function.transaction_get_committed_version argv w bad =
      rw (owned-refused env 1 argv w bad, ◌>>=◌) refl
  refused_arity Function.transaction_get_versionstamp argv w bad =
      rw (owned-refused env 2 argv w bad, ◌>>=◌) refl
  refused_arity Function.transaction_watch argv w bad =
      rw (writable-refused env 3 argv w bad, ◌>>=◌) refl
  refused_arity Function.transaction_on_error argv w bad =
      rw (owned-refused env 2 argv w bad, ◌>>=◌) refl
  refused_arity Function.transaction_reset argv w bad =
      rw (owned-refused env 1 argv w bad, ◌>>=◌) refl
  refused_arity Function.transaction_cancel argv w bad =
      rw (owned-refused env 1 argv w bad, ◌>>=◌) refl
  refused_arity Function.transaction_add_conflict_range argv w bad =
      rw (owned-refused env 4 argv w bad, ◌>>=◌) refl
  refused_arity Function.transaction_get_approximate_size argv w bad =
      rw (owned-refused env 1 argv w bad, ◌>>=◌) refl
  refused_arity Function.transaction_get_next_tx_id argv w bad =
      rw (owned-refused env 1 argv w bad, ◌>>=◌) refl
  refused_arity Function.transaction_is_read_only argv w bad =
      rw (owned-refused env 1 argv w bad, ◌>>=◌) refl
  refused_arity Function.transaction_has_watches argv w bad =
      rw (owned-refused env 1 argv w bad, ◌>>=◌) refl
  refused_arity Function.transaction_get_writes_allowed argv w bad =
      rw (owned-refused env 1 argv w bad, ◌>>=◌) refl
  refused_arity Function.transaction_get_estimated_range_size argv w bad =
      rw (owned-refused env 3 argv w bad, ◌>>=◌) refl
  refused_arity Function.get_error argv w bad = rw (bad, ◌>>=◌) refl
  refused_arity Function.error_predicate argv w bad = rw (bad, ◌>>=◌) refl

  -- A NIF called with another number of arguments than it takes answers badarg and changes
  -- nothing; only erlfdb_get_max_api_version has made its call before.
  pub invoke-arity :
      (f : Function) (argv : List Term) (w : World)
      → length argv ≢ arity f
      → invoke ext api env f argv w ≡ (badarg, refused_state f w)
  invoke-arity f argv w other = elim (Bool-cases (length argv == arity f)) [
    | inl e ↦ absurd (other ((==_iff (length argv) (arity f)).0 e))
    | inr e ↦ refused_arity f argv w e
  ]

funcs-arity : (api : ℕ) → All (λ (e : Function × ℕ). arity e.0 ≡ e.1) (funcs api)
unfolding funcs
funcs-arity api = ground arith

-- What holds of every entry holds of one.
of_entry :
    (P : Function × ℕ → Type 0) (es : List (Function × ℕ)) (e : Function × ℕ)
    → All P es
    → Any (λ x. x ≡ e) es
    → P e
of_entry P [] e h at = absurd at
of_entry P (x ∷ es) e h (inl this) = subst P this h.0
of_entry P (x ∷ es) e h (inr later) = of_entry P es e h.1 later

-- For an entry of the table of NIFs, a call of its function with another number of arguments than
-- the entry has answers badarg and changes nothing; only erlfdb_get_max_api_version has made its
-- call before.
pub funcs-refused :
    (ext : Extern) (api : ℕ) (env : Env) (f : Function) (n : ℕ) (argv : List Term) (w : World)
    → Any (λ (e : Function × ℕ). e ≡ (f, n)) (funcs api)
    → length argv ≢ n
    → invoke ext api env f argv w ≡ (badarg, refused_state f w)
funcs-refused ext api env f n argv w at other =
    let same : arity f ≡ n =
      of_entry (λ e. arity e.0 ≡ e.1) (funcs api) (f, n) (funcs-arity api) at in
    invoke-arity ext api env f argv w (λ e. other (e ∙ same))
