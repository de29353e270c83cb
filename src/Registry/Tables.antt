-- ===== src/Registry/Tables.antt =====
-- The tables that crates/gridops-core/src/fleet/registry/commands.rs reads and writes, with the
-- columns that it uses. Rows of `host_commands` stand in the order of their cursors.
use gridops.Prelude.{ℕ, String, Option, none, some, List, [], ◌∷◌, ◌++◌}
use gridops.Prelude.Int.{ℤ}
use gridops.Output.Authority.{Registry}
use gridops.Protocol.Outcomes.{AgentCommandEnvelope}

-- `host_commands.kind`.
pub data CommandKind : Type 0 where
  prepare_environment start_runner inspect drain stop cleanup upgrade_agent : CommandKind
  execute_sandbox sandbox_file sandbox_artifact : CommandKind

unfoldable pub CommandKind-discrete : Discrete CommandKind
CommandKind-discrete = hlevel

-- `host_commands.state` and `host_command_attempts.state`.
pub data CommandState : Type 0 where
  pending delivered accepted running succeeded failed uncertain cancelled : CommandState

unfoldable pub CommandState-discrete : Discrete CommandState
CommandState-discrete = hlevel

-- `workload_placements.state`.
pub data PlacementColumn : Type 0 where
  reserved preparing registering starting running draining stopping stopped cleaned :
      PlacementColumn
  retryable failed uncertain : PlacementColumn

unfoldable pub PlacementColumn-discrete : Discrete PlacementColumn
PlacementColumn-discrete = hlevel

-- `capacity_allocations.state`.
pub data AllocationColumn : Type 0 where
  reserved committed releasing uncertain released : AllocationColumn

unfoldable pub AllocationColumn-discrete : Discrete AllocationColumn
AllocationColumn-discrete = hlevel

pub data ResultDisposition : Type 0 where
  applied stale : ResultDisposition

unfoldable pub ResultDisposition-discrete : Discrete ResultDisposition
ResultDisposition-discrete = hlevel

-- `host_commands`, with `payload_json` decoded.
pub record CommandRow : Type 0 where
  pub id : ℕ
  pub host_id : ℕ
  pub host_epoch : ℕ
  pub kind : CommandKind
  pub state : CommandState
  pub placement_id : Option ℕ
  pub payload : AgentCommandEnvelope
  pub deadline_at : ℤ
  pub attempt_count : ℕ

-- `host_command_attempts`.
pub record AttemptRow : Type 0 where
  pub command_id : ℕ
  pub attempt : ℕ
  pub state : CommandState
  pub recorded_at : ℤ

-- `host_command_results`.
pub record ResultRow : Type 0 where
  pub id : ℕ
  pub command_id : ℕ
  pub result_hash : ℕ
  pub disposition : ResultDisposition

-- `workload_placements`.
pub record PlacementRow : Type 0 where
  pub id : ℕ
  pub host_id : ℕ
  pub host_epoch : ℕ
  pub state : PlacementColumn
  pub local_absence_proven_at : Option ℤ
  pub delayed_starts_excluded_at : Option ℤ
  pub updated_at : ℤ

-- `capacity_allocations`.
pub record AllocationRow : Type 0 where
  pub placement_id : ℕ
  pub state : AllocationColumn
  pub released_at : Option ℤ
  pub updated_at : ℤ

-- `fleet_bootstrap_material`.
pub record BootstrapRow : Type 0 where
  pub reference : ℕ
  pub placement_id : ℕ
  pub host_id : ℕ
  pub sealed : Option ℕ
  pub expires_at : ℤ
  pub claimed_at : Option ℤ
  pub erased_at : Option ℤ

-- What `audit_and_event` writes: the action and the command or placement that it is about.
pub record EventRow : Type 0 where
  pub action : String
  pub subject : ℕ
  pub at : ℤ

-- The database; `access` holds the tables by which a caller is authenticated.
pub record Database : Type 0 where
  pub access : Registry
  pub commands : List CommandRow
  pub attempts : List AttemptRow
  pub results : List ResultRow
  pub placements : List PlacementRow
  pub allocations : List AllocationRow
  pub bootstrap : List BootstrapRow
  pub events : List EventRow

-- `COALESCE(column, ?)`.
abbrev pub coalesce : Option ℤ → ℤ → Option ℤ
coalesce none t = some t
coalesce (some old) t = some old

unfoldable pub audit_and_event : String → ℕ → ℤ → Database → Database
audit_and_event action subject now db = record db {
  events = db.events ++ (record { action = action; subject = subject; at = now } ∷ []);
}
