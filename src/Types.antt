-- ===== src/Types.antt =====
-- crates/moire-types/src: the objects of the graph and the change stream.
pub mod Bodies
pub mod OpaqueId
pub mod Change
pub mod Snapshot
use Prim.Native.Nat.{Ordering, compare}
use peeps.Prelude.{
  ℕ, ◌≡◌, ◌↔◌, Bool, true, false, Option, none, some, String, arith, Ord, is_eq, ltb, ◌==◌, ◌&&◌,
  not, if◌then◌else◌, min, ◌+◌, saturating_add,
}
use peeps.Trace.{BacktraceId, js_safe_int_max_u64}
use Bodies.{EntityBody, ScopeBody, Json}

abbrev pub EntityId : Type 0
EntityId = String

abbrev pub ScopeId : Type 0
ScopeId = String

abbrev pub EventId : Type 0
EventId = String

abbrev pub ProcessId : Type 0
ProcessId = String

-- Milliseconds since the first use of the clock.
abbrev pub PTime : Type 0
PTime = ℕ

pub record Entity : Type 0 where
  pub id : EntityId
  pub birth : PTime
  pub removed_at : Option PTime
  pub backtrace : BacktraceId
  pub name : String
  pub body : EntityBody

pub record Scope : Type 0 where
  pub id : ScopeId
  pub birth : PTime
  pub backtrace : BacktraceId
  pub name : String
  pub body : ScopeBody

pub data EdgeKind : Type 0 where
  polls waiting_on paired_with held_by : EdgeKind

-- The discriminant, by which `derive(Ord)` compares.
abbrev pub edge_kind_index : EdgeKind → ℕ
edge_kind_index polls = 0
edge_kind_index waiting_on = 1
edge_kind_index paired_with = 2
edge_kind_index held_by = 3

pub edge_kind_cmp_iff :
    (a b : EdgeKind) → (is_eq (compare (edge_kind_index a) (edge_kind_index b)) ≡ true) ↔ (a ≡ b)
edge_kind_cmp_iff a b = ground arith

instance abbrev pub edge_kind_ord : Ord EdgeKind
edge_kind_ord = record {
  cmp = λ a b. compare (edge_kind_index a) (edge_kind_index b);
  cmp_iff = edge_kind_cmp_iff;
}

pub record Edge : Type 0 where
  pub src : EntityId
  pub dst : EntityId
  pub backtrace : BacktraceId
  pub kind : EdgeKind

-- `Edge::new`.
abbrev pub new_edge : EntityId → EntityId → EdgeKind → BacktraceId → Edge
new_edge src dst kind backtrace = record {
  src = src;
  dst = dst;
  backtrace = backtrace;
  kind = kind;
}

pub data EventTarget : Type 0 where
  entity : EntityId → EventTarget
  scope : ScopeId → EventTarget

pub data EventKind : Type 0 where
  state_changed channel_sent channel_received : EventKind
  custom : String → String → Json → EventKind

pub record Event : Type 0 where
  pub id : EventId
  pub at : PTime
  pub backtrace : BacktraceId
  pub target : EventTarget
  pub kind : EventKind
