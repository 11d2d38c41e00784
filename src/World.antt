-- ===== src/World.antt =====
-- The state that a NIF call runs in: the library's state (ErlFDBSt in c_src/main.c), the resources
-- (c_src/resources.h) with their reference counts, and what the code has done to its surroundings.
pub mod Tally
use erlfdb.Base.{ℕ, Bool, Option, List, if◌then◌else◌, ◌==◌}
use erlfdb.Term.{Term}
use erlfdb.Extern.{Call}

pub data LibState : Type 0 where
  state_error loaded api_selected network_starting connected : LibState

pub data FutureType : Type 0 where
  ft_none ft_void ft_int64 ft_key ft_value ft_string_array ft_keyvalue_array : FutureType
  ft_mappedkeyvalue_array ft_key_array : FutureType

-- A field of memory from `enif_alloc_resource`, which is not cleared: it holds garbage until it is
-- first assigned, and then a null pointer or an object.
pub data Field : Type 0 where
  garbage null : Field
  object : ℕ → Field

pub record Future : Type 0 where
  pub future : ℕ
  pub ftype : FutureType
  pub pid : ℕ
  pub pid_env : ℕ
  pub msg_env : Field
  pub msg_ref : Term
  pub lock : Field
  pub cancelled : Bool

pub record Transaction : Type 0 where
  pub transaction : ℕ
  pub owner : ℕ
  pub txid : ℕ  -- unsigned int
  pub read_only : Bool
  pub writes_allowed : Bool
  pub has_watches : Bool

pub data Object : Type 0 where
  future : Future → Object
  database : ℕ → Object
  tenant : ℕ → Object
  transaction : Transaction → Object

pub record Resource : Type 0 where
  pub object : Object
  pub count : ℕ

-- A message sent by `enif_send`; `caller` is the calling environment, `none` for NULL.
pub record Message : Type 0 where
  pub caller : Option ℕ
  pub to : ℕ
  pub content : Term

-- `trace` is the history of external calls, newest first. `pending` and `held` count the
-- references to a resource that libfdb_c (a registered callback) and Erlang (a resource term) hold.
-- `copies` is the resource of the term that was copied to the msg_env of a future, while the term is
-- there, and `stray` counts the references of terms that have left a msg_env, in a message or by
-- `enif_free_env`, until the garbage collector drops them.
-- `faults` counts the reads of garbage and the releases of dead resources.
pub record World : Type 0 where
  pub lib_state : LibState
  pub sentinel : Bool
  pub next : ℕ
  pub cell : ℕ → Option Resource
  pub pending : ℕ → ℕ
  pub held : ℕ → ℕ
  pub copies : ℕ → Option ℕ
  pub stray : ℕ → ℕ
  pub next_ref : ℕ
  pub sent : List Message
  pub trace : List Call
  pub faults : ℕ

-- The NIF environment of the running call, and the calling process.
pub record Env : Type 0 where
  pub id : ℕ
  pub self : ℕ

abbrev pub update {ℓ} : {A : Type ℓ} → (ℕ → A) → ℕ → A → ℕ → A
update f p v q = if p == q then v else f q
