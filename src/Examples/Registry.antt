-- ===== src/Examples/Registry.antt =====
-- One host with a prepared and a started placement, crates/gridops-core/src/fleet/registry/commands.rs.
use mathlib.Core.List.{Memᴰ}
use gridops.Prelude.{arith, ◌≡◌, refl, false, ◌⊎◌, none, some, List, [], ◌∷◌, ok, ℕ, length}
use gridops.Prelude.Int.{pos, ◌+ℤ◌, ◌-ℤ◌}
use gridops.Domain.Host.{approved, active, EnrollmentState-discrete, HostIntent-discrete}
use gridops.Output.Authority.{
  HostRow, Credential, Registry, AuthenticatedHost, is_current, count_hosts, count_current,
  ensure_authenticated_generation, has_authority,
}
use gridops.Protocol.Outcomes.{
  placement_scope, CommandScope-discrete, AgentOperation, SuccessEvidence, CommandOutcome,
  CommandIdentity, AgentCommandEnvelope, AgentCommandResult, scope_generation_matches, same_command,
  evidence_matches, validate_against,
}
use gridops.Protocol.Outcomes.Matches.{validate_against_iff, generation_of, Proves}
use gridops.Registry.Rows.{update_where, exists_where, first_where, select_where}
use gridops.Registry.Tables.{
  CommandKind, CommandKind-discrete, CommandState, CommandState-discrete, PlacementColumn,
  PlacementColumn-discrete, AllocationColumn, AllocationColumn-discrete, applied,
  ResultDisposition-discrete, CommandRow, PlacementRow, AllocationRow, Database, audit_and_event,
}
use gridops.Registry.Placements.{erase_bootstrap, release, move_if, advance, apply_to_placement}
use gridops.Registry.Results.{
  set_command, state_after, upsert_attempt, insert_result, apply_result, record_new,
  record_command_result,
}
use gridops.Registry.Results.Again.{record-again}
use gridops.Registry.Delivery.{
  is_undeliverable, give_up, cancel_command, cancel_all, cancel_undeliverable, is_deliverable,
  insert_attempt, mark_delivered, deliver, deliver_next, poll_commands,
}
use gridops.Registry.Delivery.HandedOut.{IsDelivered, poll-IsDelivered}
use gridops.Registry.Delivery.Charged.{charges, Frees, poll-charges}
use gridops.Registry.Histories.{Call, answer, poll, settle, repair, run}
use gridops.Registry.Absence.{AreAccounted, KeepReleases, KeepEvidence}
use gridops.Registry.Absence.Calls.{run-AreAccounted}
use gridops.Registry.Finality.{state_of, is_in}
use gridops.Registry.Finality.Calls.{run-state_of}

abbrev fleet_host : HostRow
fleet_host = record {
  id = 1;
  epoch = 4;
  agent_session_id = some 50;
  authority_expires_at = some (pos 900000);
  enrollment_state = approved;
  lifecycle_state = active;
}

abbrev fleet_credential : Credential
fleet_credential = record {
  id = 2;
  host_id = 1;
  generation = 3;
  host_epoch = 4;
  revoked_at = none;
  overlap_expires_at = none;
}

abbrev pub fleet : Registry
fleet = record {
  hosts = fleet_host ∷ [];
  credentials = fleet_credential ∷ [];
  placements = [];
  runners = [];
}

abbrev pub agent : AuthenticatedHost
agent = record { host_id = 1; credential_id = 2; generation = 3; epoch = 4 }

abbrev identity_of : ℕ → ℕ → CommandIdentity
identity_of command placement = record {
  command_id = command;
  operation_id = 20;
  host_id = 1;
  host_epoch = 4;
  control_plane_incarnation = 8;
  authority_session_id = 50;
  scope = placement_scope placement 60 1;
}

abbrev preparation : AgentCommandEnvelope
preparation = record {
  identity = identity_of 31 6;
  request_hash = 700;
  operation = AgentOperation.prepare_environment;
}

abbrev start : AgentCommandEnvelope
start = record {
  identity = identity_of 32 7;
  request_hash = 701;
  operation = AgentOperation.start_runner 40 41 1;
}

abbrev preparation_row : CommandRow
preparation_row = record {
  id = 31;
  host_id = 1;
  host_epoch = 4;
  kind = CommandKind.prepare_environment;
  state = CommandState.pending;
  placement_id = some 6;
  payload = preparation;
  deadline_at = pos 200000;
  attempt_count = 0;
}

-- A start that was handed out and is due at 90000.
abbrev start_row : CommandRow
start_row = record {
  id = 32;
  host_id = 1;
  host_epoch = 4;
  kind = CommandKind.start_runner;
  state = CommandState.delivered;
  placement_id = some 7;
  payload = start;
  deadline_at = pos 90000;
  attempt_count = 1;
}

abbrev placement_of : ℕ → PlacementColumn → PlacementRow
placement_of id state = record {
  id = id;
  host_id = 1;
  host_epoch = 4;
  state = state;
  local_absence_proven_at = none;
  delayed_starts_excluded_at = none;
  updated_at = pos 0;
}

abbrev allocation_of : ℕ → AllocationRow
allocation_of placement = record {
  placement_id = placement;
  state = AllocationColumn.reserved;
  released_at = none;
  updated_at = pos 0;
}

abbrev pub tables : Database
tables = record {
  access = fleet;
  commands = preparation_row ∷ start_row ∷ [];
  attempts = [];
  results = [];
  placements =
      placement_of 6 PlacementColumn.preparing ∷ placement_of 7 PlacementColumn.starting ∷ [];
  allocations = allocation_of 6 ∷ allocation_of 7 ∷ [];
  bootstrap = [];
  events = [];
}

-- The preparation failed.
abbrev failure : AgentCommandResult
failure = record {
  result_id = 90;
  identity = identity_of 31 6;
  generation = some 1;
  request_hash = 700;
  outcome = CommandOutcome.failed;
}

abbrev prepared_result : AgentCommandResult
prepared_result = record failure {
  result_id = 91;
  outcome = CommandOutcome.succeeded (SuccessEvidence.prepared 40);
}

abbrev digest_of : List ℕ → ℕ
digest_of bytes = length bytes

abbrev hash_of : AgentCommandResult → ℕ
hash_of r = r.result_id

-- A result that fails a preparation releases its capacity.
abbrev answered : Database
answered = record tables {
  commands = record preparation_row { state = CommandState.failed } ∷ start_row ∷ [];
  attempts =
      record { command_id = 31; attempt = 1; state = CommandState.failed; recorded_at = pos 80000 }
      ∷ [];
  results = record { id = 90; command_id = 31; result_hash = 90; disposition = applied } ∷ [];
  placements =
      record {
        id = 6;
        host_id = 1;
        host_epoch = 4;
        state = PlacementColumn.failed;
        local_absence_proven_at = some (pos 80000);
        delayed_starts_excluded_at = some (pos 80000);
        updated_at = pos 80000;
      }
      ∷ placement_of 7 PlacementColumn.starting
      ∷ [];
  allocations =
      record {
        placement_id = 6;
        state = AllocationColumn.released;
        released_at = some (pos 80000);
        updated_at = pos 80000;
      }
      ∷ allocation_of 7
      ∷ [];
  events = record { action = "fleet.command.result"; subject = 31; at = pos 80000 } ∷ [];
}

recorded :
    record_command_result digest_of hash_of agent failure (pos 80000) tables
    ≡ ok (answered, applied)
unfolding record_command_result record_new apply_result insert_result upsert_attempt state_after
    set_command apply_to_placement advance move_if release erase_bootstrap update_where exists_where
    first_where audit_and_event validate_against scope_generation_matches same_command
    ensure_authenticated_generation count_current count_hosts is_current EnrollmentState-discrete
    HostIntent-discrete CommandState-discrete CommandKind-discrete CommandScope-discrete
    AllocationColumn-discrete PlacementColumn-discrete ResultDisposition-discrete
recorded = refl

still_authentic : ensure_authenticated_generation answered.access agent (pos 85000) ≡ ok tt
unfolding ensure_authenticated_generation count_current count_hosts is_current
    EnrollmentState-discrete HostIntent-discrete
still_authentic = refl

record-again_example :
    record_command_result digest_of hash_of agent failure (pos 85000) answered
    ≡ ok (answered, applied)
record-again_example =
    record-again digest_of hash_of agent failure (pos 80000) (pos 85000) tables answered applied
      recorded still_authentic

taken_result : validate_against digest_of prepared_result preparation ≡ ok tt
unfolding validate_against scope_generation_matches same_command evidence_matches
    CommandScope-discrete
taken_result = refl

validate_against_iff_example :
    (prepared_result.identity ≡ preparation.identity)
    × (prepared_result.request_hash ≡ preparation.request_hash)
    × (prepared_result.generation ≡ generation_of prepared_result.identity.scope)
    × ((e : SuccessEvidence)
        → prepared_result.outcome ≡ CommandOutcome.succeeded e
        → Proves digest_of preparation.identity.scope preparation.operation e)
validate_against_iff_example =
    (validate_against_iff digest_of prepared_result preparation).0 taken_result

-- A poll after the start is due: the start is given up, its placement keeps its capacity, and the
-- preparation is handed out.
abbrev polled : Database
polled = record tables {
  commands =
      record preparation_row { state = CommandState.delivered; attempt_count = 1 }
      ∷ record start_row { state = CommandState.uncertain }
      ∷ [];
  attempts =
      record {
        command_id = 31;
        attempt = 1;
        state = CommandState.delivered;
        recorded_at = pos 100000;
      }
      ∷ [];
  placements =
      placement_of 6 PlacementColumn.preparing
      ∷ record (placement_of 7 PlacementColumn.uncertain) { updated_at = pos 100000 }
      ∷ [];
}

handed_out : poll_commands agent 50 (pos 100000) tables tables ≡ ok (polled, preparation ∷ [])
unfolding poll_commands deliver_next cancel_undeliverable cancel_all cancel_command give_up
    is_undeliverable is_deliverable insert_attempt mark_delivered deliver set_command move_if
    release erase_bootstrap update_where exists_where first_where select_where has_authority
    ensure_authenticated_generation count_current count_hosts is_current EnrollmentState-discrete
    HostIntent-discrete CommandState-discrete CommandKind-discrete AllocationColumn-discrete
    PlacementColumn-discrete ◌+ℤ◌ ◌-ℤ◌
handed_out = refl

poll-IsDelivered_example :
    (preparation ∷ [] ≡ [])
    ⊎ ((c : CommandRow) × (preparation ∷ [] ≡ c.payload ∷ [])
        × IsDelivered agent 50 (pos 100000) (cancel_undeliverable 1 (pos 100000) tables) polled c)
poll-IsDelivered_example =
    poll-IsDelivered agent 50 (pos 100000) tables tables polled (preparation ∷ []) handed_out

not_freeing :
    (h : HostRow) (c : CommandRow)
    → Memᴰ h tables.access.hosts
    → h.id ≡ 1
    → Memᴰ c tables.commands
    → ¬ Frees 7 1 (pos 100000) h c
not_freeing h c row its (Memᴰ.head same) (Frees.unanswered own placed kind state late) =
    ground (arith, same)
not_freeing h c row its (Memᴰ.head same) (Frees.undelivered own placed kind state late) =
    ground (arith, same)
not_freeing h c row its (Memᴰ.tail (Memᴰ.head same)) (Frees.unanswered own placed kind state late) =
    ground (arith, same)
not_freeing h c row its (Memᴰ.tail (Memᴰ.head same))
      (Frees.undelivered own placed kind state late) =
    ground (arith, same)
not_freeing h c row its (Memᴰ.tail (Memᴰ.tail listed)) f = elim listed [ ]

poll-charges_example : charges 7 polled ≡ charges 7 tables
poll-charges_example =
    poll-charges agent 50 7 (pos 100000) tables tables polled (preparation ∷ []) not_freeing
      handed_out

-- The preparation fails, the agent polls, restarts and shakes hands, and an administrator repairs
-- what is left.
abbrev busy_shift : List Call
busy_shift =
    answer agent failure (pos 80000)
    ∷ poll agent 50 (pos 100000) tables
    ∷ settle 1 4 51 (pos 110000)
    ∷ repair 1 (6 ∷ 7 ∷ []) (pos 120000)
    ∷ []

all_accounted : AreAccounted tables.placements tables.allocations
unfolding exists_where AllocationColumn-discrete
all_accounted = ((refl, λ h. cc), ((refl, λ h. cc), tt))

run-AreAccounted_example :
    AreAccounted
      (run digest_of hash_of busy_shift tables).placements
      (run digest_of hash_of busy_shift tables).allocations
    × KeepReleases tables.allocations (run digest_of hash_of busy_shift tables).allocations
    × KeepEvidence tables.placements (run digest_of hash_of busy_shift tables).placements
run-AreAccounted_example = run-AreAccounted digest_of hash_of busy_shift tables all_accounted

distinct_ids : is_in 31 (32 ∷ []) ≡ false
unfolding is_in
distinct_ids = refl

alone : is_in 32 [] ≡ false
unfolding is_in
alone = refl

failed_before : state_of 31 answered.commands ≡ some CommandState.failed
unfolding state_of
failed_before = refl

run-state_of_example :
    state_of 31 (run digest_of hash_of busy_shift answered).commands ≡ some CommandState.failed
run-state_of_example =
    run-state_of digest_of hash_of busy_shift answered 31 CommandState.failed
      (distinct_ids, (alone, tt)) refl failed_before
