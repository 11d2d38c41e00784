-- ===== src/Invariant/Writing.antt =====
-- The other NIFs on a transaction keep every invariant.
use mathlib.Core.Bool.{false≢true}
use erlfdb.Base.{ℕ, Bool, false, ◌≡◌, refl, sym, ◌∙◌, ◌≤◌, not, some, ltb, List, arith}
use erlfdb.Term.{Term}
use erlfdb.Extern.{Extern, TransactionCall, ConflictRangeType}
use erlfdb.World.{World, Object, Transaction, Env}
use erlfdb.Nif.{◌>>◌, pure, check, atom_ok}
use erlfdb.Owned.{put, call, check_writes}
use erlfdb.Ends.{
  Ends, Ends-pure, Ends-decode, Ends-ask, Ends-if, Ends-put, Ends-error, Ends-call, Ends-check,
}
use erlfdb.Ends.Guards.{Ends-owned, Ends-writable, Ends-check_writes, Owns}
use erlfdb.Transaction
use erlfdb.Transaction.{set_fdb_option, add_conflict, is_write}
use erlfdb.Invariant.Changes.{IsInvariant, Kept, Update}

ruleset following = (Ends-owned, Ends-decode, Ends-ask, Ends-if, Ends-error, Ends-call, Ends-pure)

txid_bound : (n : ℕ) → not (ltb 65535 n) ≡ Bool.true → n ≤ 65535
txid_bound n h = ground arith

module _ (ext : Extern) (env : Env) {P : World → Type 0} (inv : IsInvariant ext env P) where
  open inv use {on_log, on_update}

  pub set_read_version_lem :
      (argv : List Term) {w : World}
      → P w
      → Ends (Kept P) (Transaction.erlfdb_transaction_set_read_version ext env argv) w
  unfolding Transaction.erlfdb_transaction_set_read_version
  set_read_version_lem argv h = search (following, on_log) depth 12

  pub get_committed_version_lem :
      (argv : List Term) {w : World}
      → P w
      → Ends (Kept P) (Transaction.erlfdb_transaction_get_committed_version ext env argv) w
  unfolding Transaction.erlfdb_transaction_get_committed_version
  get_committed_version_lem argv h = search (following, on_log) depth 12

  pub cancel_lem :
      (argv : List Term) {w : World}
      → P w
      → Ends (Kept P) (Transaction.erlfdb_transaction_cancel ext env argv) w
  unfolding Transaction.erlfdb_transaction_cancel
  cancel_lem argv h = search (following, on_log) depth 12

  pub is_read_only_lem :
      (argv : List Term) {w : World}
      → P w
      → Ends (Kept P) (Transaction.erlfdb_transaction_is_read_only ext env argv) w
  unfolding Transaction.erlfdb_transaction_is_read_only
  is_read_only_lem argv h = search (following) depth 12

  pub has_watches_lem :
      (argv : List Term) {w : World}
      → P w
      → Ends (Kept P) (Transaction.erlfdb_transaction_has_watches ext env argv) w
  unfolding Transaction.erlfdb_transaction_has_watches
  has_watches_lem argv h = search (following) depth 12

  pub get_writes_allowed_lem :
      (argv : List Term) {w : World}
      → P w
      → Ends (Kept P) (Transaction.erlfdb_transaction_get_writes_allowed ext env argv) w
  unfolding Transaction.erlfdb_transaction_get_writes_allowed
  get_writes_allowed_lem argv h = search (following) depth 12

  -- A write behind its guards: the call, and the mark that the transaction is not read-only.
  mutated :
      {argv : List Term} (i : ℕ) (t : Transaction) (c : TransactionCall) {w : World}
      → Owns env argv w i t
      → t.writes_allowed ≡ Bool.true
      → P w
      → Ends (Kept P) (do call t c; put i (record t { read_only = false }); pure atom_ok) w
  mutated i t c o a h = Ends-call t c _ (
      Ends-put i _ _ _ o.found
        (Ends-pure _ (on_update i o.count t _ o.found o.owner (Update.mutate a refl) (on_log _ h))))

  pub set_lem :
      (argv : List Term) {w : World}
      → P w
      → Ends (Kept P) (Transaction.erlfdb_transaction_set ext env argv) w
  unfolding Transaction.erlfdb_transaction_set
  set_lem argv h = search (Ends-writable, Ends-decode, mutated) depth 12

  pub clear_lem :
      (argv : List Term) {w : World}
      → P w
      → Ends (Kept P) (Transaction.erlfdb_transaction_clear ext env argv) w
  unfolding Transaction.erlfdb_transaction_clear
  clear_lem argv h = search (Ends-writable, Ends-decode, mutated) depth 12

  pub clear_range_lem :
      (argv : List Term) {w : World}
      → P w
      → Ends (Kept P) (Transaction.erlfdb_transaction_clear_range ext env argv) w
  unfolding Transaction.erlfdb_transaction_clear_range
  clear_range_lem argv h = search (Ends-writable, Ends-decode, mutated) depth 12

  pub atomic_op_lem :
      (argv : List Term) {w : World}
      → P w
      → Ends (Kept P) (Transaction.erlfdb_transaction_atomic_op ext env argv) w
  unfolding Transaction.erlfdb_transaction_atomic_op
  atomic_op_lem argv h = search (Ends-writable, Ends-decode, mutated) depth 12

  pub reset_lem :
      (argv : List Term) {w : World}
      → P w
      → Ends (Kept P) (Transaction.erlfdb_transaction_reset ext env argv) w
  unfolding Transaction.erlfdb_transaction_reset
  reset_lem argv h = Ends-owned env _ _ _ h λ i t o. Ends-call t _ _ (
      Ends-put i _ _ _ o.found
        (Ends-pure _ (on_update i o.count t _ o.found o.owner (Update.reset refl) (on_log _ h))))

  pub get_next_tx_id_lem :
      (argv : List Term) {w : World}
      → P w
      → Ends (Kept P) (Transaction.erlfdb_transaction_get_next_tx_id ext env argv) w
  unfolding Transaction.erlfdb_transaction_get_next_tx_id
  get_next_tx_id_lem argv h = Ends-owned env _ _ _ h λ i t o. Ends-check _ _ h λ b.
      Ends-put i _ _ _ o.found (
        Ends-pure _
          (on_update i o.count t _ o.found o.owner (Update.next_id (txid_bound t.txid b) refl) h))

  set_fdb_option_lem :
      (api : ℕ) (t : Transaction) (argv : List Term) {w : World}
      → P w
      → Ends (Kept P) (set_fdb_option ext env api t argv) w
  unfolding set_fdb_option
  set_fdb_option_lem api t argv h = search (following, on_log) depth 12

  allow_lem :
      {argv : List Term} (i : ℕ) (t : Transaction) {w : World}
      → Owns env argv w i t
      → P w
      → Ends (Kept P) (do put i (record t { writes_allowed = Bool.true }); pure atom_ok) w
  allow_lem i t o h =
      Ends-put i _ _ _ o.found
        (Ends-pure _ (on_update i o.count t _ o.found o.owner (Update.allow refl) h))

  disallow_lem :
      {argv : List Term} (i : ℕ) (t : Transaction) {w : World}
      → Owns env argv w i t
      → P w
      → Ends
          (Kept P)
          (do check t.read_only; put i (record t { writes_allowed = false }); pure atom_ok)
          w
  disallow_lem i t o h = Ends-check _ _ h λ r.
      Ends-put i _ _ _ o.found
        (Ends-pure _ (on_update i o.count t _ o.found o.owner (Update.disallow r refl) h))

  pub set_option_lem :
      (api : ℕ) (argv : List Term) {w : World}
      → P w
      → Ends (Kept P) (Transaction.erlfdb_transaction_set_option ext env api argv) w
  unfolding Transaction.erlfdb_transaction_set_option
  set_option_lem api argv h =
      search (Ends-owned, Ends-if, allow_lem, disallow_lem, set_fdb_option_lem) depth 12

  marked_lem :
      (i n : ℕ) (t : Transaction) (rtype : ConflictRangeType) {w : World}
      → w.cell i ≡ some (record { object = Object.transaction t; count = n })
      → t.owner ≡ env.self
      → (is_write rtype ≡ Bool.true → t.writes_allowed ≡ Bool.true)
      → is_write rtype ≡ Bool.true
      → P w
      → Ends (Kept P) (do put i (record t { read_only = false }); pure atom_ok) w
  marked_lem i n t rtype e o a b h =
      Ends-put i _ _ _ e (Ends-pure _ (on_update i n t _ e o (Update.mutate (a b) refl) h))

  -- A write conflict range marks the transaction only behind the test of `writes_allowed`.
  add_conflict_lem :
      {argv : List Term} (i : ℕ) (t : Transaction) (skey ekey : List ℕ) (rtype : ConflictRangeType)
      {w : World}
      → Owns env argv w i t
      → (is_write rtype ≡ Bool.true → t.writes_allowed ≡ Bool.true)
      → P w
      → Ends (Kept P) (add_conflict ext env i t skey ekey rtype) w
  unfolding add_conflict
  add_conflict_lem i t skey ekey rtype o a h = search (following, on_log, marked_lem) depth 12

  checked_lem :
      {argv : List Term} (i : ℕ) (t : Transaction) (skey ekey : List ℕ) (rtype : ConflictRangeType)
      {w : World}
      → Owns env argv w i t
      → P w
      → Ends (Kept P) (do check_writes t; add_conflict ext env i t skey ekey rtype) w
  checked_lem i t skey ekey rtype o h =
      Ends-check_writes t _ h λ a. add_conflict_lem i t skey ekey rtype o (λ _. a) h

  unchecked_lem :
      {argv : List Term} (i : ℕ) (t : Transaction) (skey ekey : List ℕ) (rtype : ConflictRangeType)
      {w : World}
      → Owns env argv w i t
      → is_write rtype ≡ false
      → P w
      → Ends (Kept P) (add_conflict ext env i t skey ekey rtype) w
  unchecked_lem i t skey ekey rtype o r h =
      add_conflict_lem i t skey ekey rtype o (λ b. absurd (false≢true (sym r ∙ b))) h

  pub add_conflict_range_lem :
      (argv : List Term) {w : World}
      → P w
      → Ends (Kept P) (Transaction.erlfdb_transaction_add_conflict_range ext env argv) w
  unfolding Transaction.erlfdb_transaction_add_conflict_range
  add_conflict_range_lem argv h =
      search (Ends-owned, Ends-decode, Ends-if, checked_lem, unchecked_lem) depth 12
