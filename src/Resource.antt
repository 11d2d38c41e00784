-- ===== src/Resource.antt =====
-- Reference-counted resources: `enif_alloc_resource`, `enif_keep_resource`,
-- `enif_release_resource` and `enif_make_resource` as the comments of c_src/main.c describe their
-- effect on the count, and the destructors of c_src/resources.c.
use erlfdb.Base.{ℕ, zero, suc, ◌+◌, ◌-◌, Bool, Option, none, some, ◌∷◌, if◌then◌else◌, ◌==◌}
use erlfdb.Term.{Term, resource}
use erlfdb.Extern.{
  Call, future_destroy, free_env, mutex_destroy, database_destroy, tenant_destroy, transaction_call,
  destroy,
}
use erlfdb.World.{
  World, Field, garbage, null, object, Future, Transaction, Object, Resource, Env, update,
}
use erlfdb.Nif
use erlfdb.Nif.{Nif, ok, badarg}

abbrev pub log : Call → World → World
log c w = record w { trace = c ∷ w.trace }

abbrev pub fault : World → World
fault w = record w { faults = w.faults + 1 }

-- `if (field != NULL) free(field);`
unfoldable pub destroy_field : (ℕ → Call) → Field → World → World
destroy_field free garbage w = fault w
destroy_field free null w = w
destroy_field free (object h) w = log (free h) w

-- `if (handle != NULL) destroy(handle);`
unfoldable pub destroy_handle : Call → ℕ → World → World
destroy_handle c h w = if h == 0 then w else log c w

-- The term in the msg_env of the future `i` leaves it, with its reference.
unfoldable pub hand_over : ℕ → World → World
hand_over i w = elim (w.copies i) [
  | none ↦ w
  | some j ↦ record w { copies = update w.copies i none; stray = update w.stray j (w.stray j + 1) }
]

-- `if (f->msg_env != NULL) enif_free_env(f->msg_env);` for the future `i`.
unfoldable pub destroy_env : ℕ → Field → World → World
unfolding hand_over
destroy_env i garbage w = fault w
destroy_env i null w = w
destroy_env i (object h) w = hand_over i (log (free_env h) w)

unfoldable pub future_dtor : ℕ → Future → World → World
unfolding destroy_field destroy_env destroy_handle
future_dtor i f w =
    destroy_field mutex_destroy f.lock
      (destroy_env i f.msg_env (destroy_handle (future_destroy f.future) f.future w))

unfoldable pub database_dtor : ℕ → World → World
unfolding destroy_handle
database_dtor d w = destroy_handle (database_destroy d) d w

unfoldable pub tenant_dtor : ℕ → World → World
unfolding destroy_handle
tenant_dtor ten w = destroy_handle (tenant_destroy ten) ten w

unfoldable pub transaction_dtor : Transaction → World → World
unfolding destroy_handle
transaction_dtor t w = destroy_handle (transaction_call t.transaction destroy) t.transaction w

-- The destructor that `erlfdb_init_resources` gives to the resource's type.
unfoldable pub dtor : ℕ → Object → World → World
unfolding future_dtor database_dtor tenant_dtor transaction_dtor
dtor i (Object.future f) w = future_dtor i f w
dtor i (Object.database d) w = database_dtor d w
dtor i (Object.tenant ten) w = tenant_dtor ten w
dtor i (Object.transaction t) w = transaction_dtor t w

abbrev pub write : ℕ → Option Resource → World → World
write i r w = record w { cell = update w.cell i r }

-- A new resource has one reference, the allocating code's.
unfoldable pub alloc_resource : Object → World → World
alloc_resource o w = record w {
  next = w.next + 1;
  cell = update w.cell w.next (some (record { object = o; count = 1 }));
}

unfoldable pub keep_resource : ℕ → World → World
keep_resource i w = elim (w.cell i) [
  | none ↦ fault w
  | some r ↦ write i (some (record r { count = r.count + 1 })) w
]

-- The last release runs the destructor.
unfoldable pub release_count : ℕ → Object → ℕ → World → World
unfolding dtor
release_count i o zero w = fault w
release_count i o (suc zero) w = write i none (dtor i o w)
release_count i o (suc (suc n)) w = write i (some (record { object = o; count = suc n })) w

unfoldable pub release_resource : ℕ → World → World
unfolding release_count
release_resource i w = elim (w.cell i) [
  | none ↦ fault w
  | some r ↦ release_count i r.object r.count w
]

-- The term holds a reference of its own.
unfoldable pub make_resource : ℕ → World → World
unfolding keep_resource
make_resource i w =
    let w' = keep_resource i w in record w' { held = update w'.held i (w'.held i + 1) }

-- Erlang's garbage collector drops a term.
unfoldable pub drop_term : ℕ → World → World
unfolding release_resource
drop_term i w =
    if w.held i == 0
    then w
    else release_resource i (record w { held = update w.held i (w.held i - 1) })

-- The garbage collector drops a term of a message or of a freed environment.
unfoldable pub drop_stray : ℕ → World → World
unfolding release_resource
drop_stray i w =
    if w.stray i == 0
    then w
    else release_resource i (record w { stray = update w.stray i (w.stray i - 1) })

-- `enif_get_resource` with the type of a transaction, a future, a database or a tenant.
abbrev pub as_transaction : Option Resource → Option Transaction
as_transaction none = none
as_transaction (some r) = elim r.object [ Object.transaction t ↦ some t | _ ↦ none ]

abbrev pub as_future : Option Resource → Option Future
as_future none = none
as_future (some r) = elim r.object [ Object.future f ↦ some f | _ ↦ none ]

abbrev pub as_database : Option Resource → Option ℕ
as_database none = none
as_database (some r) = elim r.object [ Object.database d ↦ some d | _ ↦ none ]

abbrev pub as_tenant : Option Resource → Option ℕ
as_tenant none = none
as_tenant (some r) = elim r.object [ Object.tenant ten ↦ some ten | _ ↦ none ]

abbrev pub paired : {A : Type 0} → ℕ → Option A → World → Nif.Outcome (ℕ × A) × World
paired i none w = (badarg, w)
paired i (some a) w = (ok (i, a), w)

unfoldable pub get_resource : {A : Type 0} → (Option Resource → Option A) → Term → Nif (ℕ × A)
get_resource as_type (resource i) w = paired i (as_type (w.cell i)) w
get_resource as_type _ w = (badarg, w)

-- An assignment to a field of the object, through the pointer that `enif_get_resource` gave.
unfoldable pub assign : ℕ → Object → World → World
assign i o w = elim (w.cell i) [
  | none ↦ fault w
  | some r ↦ write i (some (record r { object = o })) w
]

-- erlfdb_transaction_is_owner.
unfoldable pub transaction_is_owner : Env → Transaction → Bool
transaction_is_owner env t = t.owner == env.self
