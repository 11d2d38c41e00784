-- ===== src/Transaction/Ids.antt =====
-- erlfdb_transaction_get_next_tx_id of c_src/main.c, called again and again by the owner.
use erlfdb.Base.{
  ℕ, zero, suc, ◌+◌, ◌%◌, ◌^◌, ◌≤◌, ◌<◌, true, false, ◌≡◌, refl, ap, subst, some, List, [], ◌∷◌,
  ◌++◌, pos, ltb, not, arith, eq_refl,
}
use erlfdb.Term.{Term, int}
use erlfdb.Extern.{Extern}
use erlfdb.World.{World, Object, Transaction, Env}
use erlfdb.Nif.{Outcome, ok, badarg, ◌>>=◌, check, modify}
use erlfdb.Resource.{write, assign}
use erlfdb.Owned.{put}
use erlfdb.Owned.Grants.{Proper, owned_lem}
use erlfdb.Transaction.{erlfdb_transaction_get_next_tx_id}

-- The state in which the transaction's counter is `k`.
abbrev pub counted : ℕ → ℕ → Transaction → ℕ → World → World
counted i c t k =
    write i (some (record { object = Object.transaction (record t { txid = k }); count = c }))

module _ (ext : Extern) (env : Env) (argv : List Term) where
  unfoldable pub next_ids : ℕ → World → List (Outcome Term)
  next_ids zero w = []
  next_ids (suc n) w =
      let r = erlfdb_transaction_get_next_tx_id ext env argv w in r.0 ∷ next_ids n r.1

  next_tx_id-fresh :
      (w : World) (i c : ℕ) (t : Transaction)
      → Proper env 1 argv w i c t
      → t.txid ≤ 65535
      → erlfdb_transaction_get_next_tx_id ext env argv w
        ≡ (ok (int (pos t.txid)), counted i c t (suc t.txid) w)
  unfolding erlfdb_transaction_get_next_tx_id ◌>>=◌ check put modify assign
  next_tx_id-fresh w i c t p le =
      let small : not (ltb 65535 t.txid) ≡ true = ground arith in
      let same : (t.txid + 1) % 2 ^ 32 ≡ suc t.txid = omega arith in
      rw (owned_lem env 1 argv w i c t p, small, p.found, same) refl

  next_tx_id-used_up :
      (w : World) (i c : ℕ) (t : Transaction)
      → Proper env 1 argv w i c t
      → 65535 < t.txid
      → erlfdb_transaction_get_next_tx_id ext env argv w ≡ (badarg, w)
  unfolding erlfdb_transaction_get_next_tx_id ◌>>=◌ check
  next_tx_id-used_up w i c t p lt =
      let large : not (ltb 65535 t.txid) ≡ false = ground arith in
      rw (owned_lem env 1 argv w i c t p, large) refl

  -- The numbers from `k` on, `n` of them.
  abbrev pub ids_from : ℕ → ℕ → List (Outcome Term)
  ids_from k zero = []
  ids_from k (suc n) = ok (int (pos k)) ∷ ids_from (suc k) n

  counted-Proper :
      (w : World) (i c : ℕ) (t : Transaction) (k : ℕ)
      → Proper env 1 argv w i c t
      → Proper env 1 argv (counted i c t k w) i c (record t { txid = k })
  counted-Proper w i c t k p = record {
    connected = p.connected;
    counted = p.counted;
    named = p.named;
    found = ground (arith, eq_refl i);
    owner = p.owner;
  }

  abbrev pub refusals : ℕ → List (Outcome Term)
  refusals zero = []
  refusals (suc n) = badarg ∷ refusals n

  next_ids-used_up :
      (n : ℕ) (w : World) (i c : ℕ) (t : Transaction)
      → Proper env 1 argv w i c t
      → 65535 < t.txid
      → next_ids n w ≡ refusals n
  unfolding next_ids
  next_ids-used_up zero w i c t p lt = refl
  next_ids-used_up (suc n) w i c t p lt =
      rw (next_tx_id-used_up w i c t p lt)
        (ap (λ ids. badarg ∷ ids) (next_ids-used_up n w i c t p lt))

  -- A transaction whose counter is at k gives its owner, once the library is connected, the
  -- numbers from k to 65535 in order, each once, and badarg from then on.
  pub next_ids_lem :
      (n m : ℕ) (w : World) (i c : ℕ) (t : Transaction)
      → Proper env 1 argv w i c t
      → t.txid + n ≡ 65536
      → next_ids (n + m) w ≡ ids_from t.txid n ++ refusals m
  unfolding next_ids
  next_ids_lem zero m w i c t p e =
      subst (λ x. next_ids x w ≡ refusals m) (omega arith)
        (next_ids-used_up m w i c t p (omega (arith, e)))
  next_ids_lem (suc n) m w i c t p e =
      let split : suc (n + m) ≡ suc n + m = omega arith in
      subst (λ x. next_ids x w ≡ ids_from t.txid (suc n) ++ refusals m) split
        (rw (next_tx_id-fresh w i c t p (omega (arith, e))) (
          ap (λ ids. ok (int (pos t.txid)) ∷ ids)
            (next_ids_lem n m (counted i c t (suc t.txid) w) i c (record t { txid = suc t.txid })
              (counted-Proper w i c t (suc t.txid) p) (omega (arith, e)))))
