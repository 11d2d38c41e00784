-- ===== src/Invariant/Reading.antt =====
-- The NIFs that start an operation of a transaction keep every invariant.
use erlfdb.Base.{ℕ, none, some, arith, refl, ◌≢◌, List}
use erlfdb.Term.{Term}
use erlfdb.Extern.{Extern, Selector, Range, TransactionCall}
use erlfdb.World.{World, FutureType, ft_none, Transaction, Env}
use erlfdb.Ends.{
  Ends, Ends-decode, Ends-ask, Ends-if, Ends-make_badarg, Ends-put, Ends-assoc, Ends-pure_bind,
}
use erlfdb.Ends.Guards.{Owns, Ends-owned, Ends-writable}
use erlfdb.Nif.{Nif, arg, ◌>>=◌}
use erlfdb.Transaction.Read
use erlfdb.Transaction.Read.{start, start_for, decode_range, mapped_range}
use erlfdb.Invariant.Changes.{IsInvariant, Kept, Update, Ours}

is_int64 : FutureType.ft_int64 ≢ ft_none
is_int64 e = cc

is_value : FutureType.ft_value ≢ ft_none
is_value e = cc

is_key : FutureType.ft_key ≢ ft_none
is_key e = cc

is_strings : FutureType.ft_string_array ≢ ft_none
is_strings e = cc

is_keys : FutureType.ft_key_array ≢ ft_none
is_keys e = cc

is_keyvalues : FutureType.ft_keyvalue_array ≢ ft_none
is_keyvalues e = cc

is_mapped : FutureType.ft_mappedkeyvalue_array ≢ ft_none
is_mapped e = cc

is_void : FutureType.ft_void ≢ ft_none
is_void e = cc

ours :
    (env : Env) (argv : List Term) {w : World} {i : ℕ} {t : Transaction}
    → Owns env argv w i t
    → Ours env (some (arg argv 0)) w
ours env argv o j n u e f = ground (arith, e, f, o.named, o.found, o.owner)

ruleset reading = (
  Ends-owned, ours, Ends-decode, is_int64, is_value, is_key, is_strings, is_keys, is_keyvalues,
  is_mapped, is_void,
)

module _ (ext : Extern) (env : Env) {P : World → Type 0} (inv : IsInvariant ext env P) where
  open inv use {on_log, on_future, on_update}

  start_lem :
      (t : Transaction) (c : TransactionCall) (ftype : FutureType) (argv : List Term) {w : World}
      → ftype ≢ ft_none
      → Ours env (some (arg argv 0)) w
      → P w
      → Ends (Kept P) (start ext env t c ftype argv) w
  unfolding start
  start_lem t c ftype argv d o h =
      Ends-ask _ _ _
        (λ fut _. record { at = on_future (some (arg argv 0)) none fut ftype d o (on_log _ h) })

  start_for_lem :
      (to : ℕ) (t : Transaction) (c : TransactionCall) (ftype : FutureType) {w : World}
      → ftype ≢ ft_none
      → P w
      → Ends (Kept P) (start_for ext env to t c ftype) w
  unfolding start_for
  start_for_lem to t c ftype d h = Ends-ask _ _ _ (λ fut _. record {
    at = on_future none _ fut ftype d (λ j n u e. absurd (cc e)) (on_log _ h);
  })

  pub get_read_version_lem :
      (argv : List Term) {w : World}
      → P w
      → Ends (Kept P) (Read.erlfdb_transaction_get_read_version ext env argv) w
  unfolding Read.erlfdb_transaction_get_read_version
  get_read_version_lem argv h = search (reading, start_lem) depth 12

  pub get_lem :
      (argv : List Term) {w : World}
      → P w
      → Ends (Kept P) (Read.erlfdb_transaction_get ext env argv) w
  unfolding Read.erlfdb_transaction_get
  get_lem argv h = search (reading, start_lem) depth 12

  pub get_estimated_range_size_lem :
      (argv : List Term) {w : World}
      → P w
      → Ends (Kept P) (Read.erlfdb_transaction_get_estimated_range_size ext env argv) w
  unfolding Read.erlfdb_transaction_get_estimated_range_size
  get_estimated_range_size_lem argv h = search (reading, start_lem) depth 12

  pub get_key_lem :
      (argv : List Term) {w : World}
      → P w
      → Ends (Kept P) (Read.erlfdb_transaction_get_key ext env argv) w
  unfolding Read.erlfdb_transaction_get_key
  get_key_lem argv h = search (reading, start_lem) depth 12

  pub get_addresses_for_key_lem :
      (argv : List Term) {w : World}
      → P w
      → Ends (Kept P) (Read.erlfdb_transaction_get_addresses_for_key ext env argv) w
  unfolding Read.erlfdb_transaction_get_addresses_for_key
  get_addresses_for_key_lem argv h = search (reading, start_lem) depth 12

  pub get_range_split_points_lem :
      (argv : List Term) {w : World}
      → P w
      → Ends (Kept P) (Read.erlfdb_transaction_get_range_split_points ext env argv) w
  unfolding Read.erlfdb_transaction_get_range_split_points
  get_range_split_points_lem argv h = search (reading, start_lem) depth 12

  pub commit_lem :
      (argv : List Term) {w : World}
      → P w
      → Ends (Kept P) (Read.erlfdb_transaction_commit ext env argv) w
  unfolding Read.erlfdb_transaction_commit
  commit_lem argv h = search (reading, start_lem) depth 12

  pub get_versionstamp_lem :
      (argv : List Term) {w : World}
      → P w
      → Ends (Kept P) (Read.erlfdb_transaction_get_versionstamp ext env argv) w
  unfolding Read.erlfdb_transaction_get_versionstamp
  get_versionstamp_lem argv h = search (reading, start_for_lem) depth 12

  pub on_error_lem :
      (argv : List Term) {w : World}
      → P w
      → Ends (Kept P) (Read.erlfdb_transaction_on_error ext env argv) w
  unfolding Read.erlfdb_transaction_on_error
  on_error_lem argv h = search (reading, start_lem) depth 12

  pub get_approximate_size_lem :
      (argv : List Term) {w : World}
      → P w
      → Ends (Kept P) (Read.erlfdb_transaction_get_approximate_size ext env argv) w
  unfolding Read.erlfdb_transaction_get_approximate_size
  get_approximate_size_lem argv h = search (reading, start_lem) depth 12

  decode_range_lem :
      (first last : Selector) (k : ℕ) (argv : List Term) (rest : Range → Nif Term) {w : World}
      → P w
      → ((r : Range) → Ends (Kept P) (rest r) w)
      → Ends (Kept P) (decode_range ext env first last k argv >>= rest) w
  unfolding decode_range
  decode_range_lem first last k argv rest h next = Ends-assoc _ _ _ (
      Ends-decode _ _ h λ _. Ends-assoc _ _ _ (
        Ends-decode _ _ h λ _. Ends-assoc _ _ _ (
          Ends-decode _ _ h λ _. Ends-assoc _ _ _ (
            Ends-decode _ _ h λ _. Ends-assoc _ _ _ (
              Ends-decode _ _ h
                λ _. Ends-assoc _ _ _ (Ends-decode _ _ h λ _. Ends-pure_bind _ rest (next _)))))))

  pub get_range_lem :
      (argv : List Term) {w : World}
      → P w
      → Ends (Kept P) (Read.erlfdb_transaction_get_range ext env argv) w
  unfolding Read.erlfdb_transaction_get_range
  get_range_lem argv h = search (reading, decode_range_lem, start_lem) depth 12

  pub mapped_range_lem :
      (argv : List Term) {w : World} → P w → Ends (Kept P) (Read.mapped_range ext env argv) w
  unfolding Read.mapped_range
  mapped_range_lem argv h = search (reading, decode_range_lem, start_lem) depth 12

  pub get_mapped_range_lem :
      (api : ℕ) (argv : List Term) {w : World}
      → P w
      → Ends (Kept P) (Read.erlfdb_transaction_get_mapped_range ext env api argv) w
  unfolding Read.erlfdb_transaction_get_mapped_range
  get_mapped_range_lem api argv h =
      Ends-if _ _ _ (λ _. mapped_range_lem argv h) (λ _. Ends-make_badarg h)

  pub watch_lem :
      (argv : List Term) {w : World}
      → P w
      → Ends (Kept P) (Read.erlfdb_transaction_watch ext env argv) w
  unfolding Read.erlfdb_transaction_watch
  watch_lem argv h = Ends-writable env _ _ _ h h λ i t o a. Ends-decode _ _ h λ key.
      Ends-decode _ _ h λ to. Ends-ask _ _ _ λ fut _. Ends-put i _ _ _ o.found (record {
        at =
            on_future none _ fut _ is_void (λ j n u e. absurd (cc e))
              (on_update i o.count t _ o.found o.owner (Update.watch a refl) (on_log _ h));
      })
