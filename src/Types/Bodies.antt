-- ===== src/Types/Bodies.antt =====
-- crates/moire-types/src/objects/entities.rs and scopes.rs: what an entity or a scope is about.
use peeps.Prelude.{ℕ, Bool, Option, List, String}

-- Raw JSON text.
abbrev pub Json : Type 0
Json = String

pub data LockKind : Type 0 where
  mutex rw_lock other : LockKind

pub data OnceCellState : Type 0 where
  empty initializing initialized : OnceCellState

pub data FileOpKind : Type 0 where
  open_file read write sync metadata remove_file rename other_op : FileOpKind

pub data ResponseError : Type 0 where
  internal : String → ResponseError
  user_json : Json → ResponseError

pub data ResponseStatus : Type 0 where
  pending : ResponseStatus
  succeeded : Json → ResponseStatus
  error : ResponseError → ResponseStatus
  cancelled : ResponseStatus

pub record MpscTxEntity : Type 0 where
  pub queue_len : ℕ
  pub capacity : Option ℕ

pub record SemaphoreEntity : Type 0 where
  pub max_permits : ℕ
  pub handed_out_permits : ℕ

pub record OnceCellEntity : Type 0 where
  pub waiter_count : ℕ
  pub state : OnceCellState

pub record CommandEntity : Type 0 where
  pub program : String
  pub args : List String
  pub env : List String

pub record RequestEntity : Type 0 where
  pub service_name : String
  pub method_name : String
  pub args_json : Json

pub record ResponseEntity : Type 0 where
  pub service_name : String
  pub method_name : String
  pub status : ResponseStatus

pub record CustomEntity : Type 0 where
  pub kind : String
  pub display_name : String
  pub category : String
  pub icon : String
  pub attrs : Json

-- The payload structs of one field are that field.
pub data EntityBody : Type 0 where
  future : Option ℕ → EntityBody
  lock : LockKind → EntityBody
  mpsc_tx : MpscTxEntity → EntityBody
  mpsc_rx : EntityBody
  broadcast_tx : ℕ → EntityBody
  broadcast_rx : ℕ → EntityBody
  watch_tx : Option ℕ → EntityBody
  watch_rx : EntityBody
  oneshot_tx : Bool → EntityBody
  oneshot_rx : EntityBody
  semaphore : SemaphoreEntity → EntityBody
  notify : ℕ → EntityBody
  once_cell : OnceCellEntity → EntityBody
  command : CommandEntity → EntityBody
  file_op : FileOpKind → String → EntityBody
  net_connect : String → EntityBody
  net_accept : String → EntityBody
  net_read : String → EntityBody
  net_write : String → EntityBody
  request : RequestEntity → EntityBody
  response : ResponseEntity → EntityBody
  custom : CustomEntity → EntityBody
  aether : String → EntityBody

pub data ScopeBody : Type 0 where
  process : ℕ → ScopeBody
  thread : Option String → ScopeBody
  task : String → ScopeBody
  connection : Option String → Option String → ScopeBody
