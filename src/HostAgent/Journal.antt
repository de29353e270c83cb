-- ===== src/HostAgent/Journal.antt =====
-- The tables `commands` and `environments` of crates/gridops-host-agent/src/journal.rs and the
-- contract types that dispatch reads. Identifiers and hashes are numbers; a row keeps the columns
-- that the modelled operations read.
use gridops.Prelude.{
  not, ℕ, ℕ_discrete, String, String_discrete, Bool, true, false, ◌&&◌, ◌||◌, Option, none, some,
  List, [], ◌∷◌, Result, ok, err, eqb, ◌==◌, if◌then◌else◌,
}
use gridops.Domain.Kinds.{RuntimeKind, ExecutionOs}

pub data LocalResourceIdentity : Type 0 where
  docker_object : String → LocalResourceIdentity
  tart_name : String → LocalResourceIdentity
  process : String → ℕ → String → LocalResourceIdentity

unfoldable pub LocalResourceIdentity-discrete : Discrete LocalResourceIdentity
unfolding String_discrete ℕ_discrete
LocalResourceIdentity-discrete = hlevel (String_discrete, ℕ_discrete)

pub data PreparedWorkload : Type 0 where
  ci_runner fix_sandbox : PreparedWorkload

unfoldable pub PreparedWorkload-discrete : Discrete PreparedWorkload
PreparedWorkload-discrete = hlevel

-- `PrepareEnvironment` with the part of its configuration that dispatch reads.
pub record PrepareEnvironment : Type 0 where
  pub workload : PreparedWorkload
  pub runtime_kind : RuntimeKind
  pub execution_os : ExecutionOs
  pub requires_interactive : Bool
  pub requires_docker_socket : Bool

pub record StartRunner : Type 0 where
  pub prepared_environment_id : ℕ
  pub execution_profile_id : ℕ
  pub profile_revision : ℕ

-- The operations; what a sandbox is to do, a stop's mode and an upgrade's versions are not read.
pub data AgentOperation : Type 0 where
  prepare_environment : PrepareEnvironment → AgentOperation
  start_runner : StartRunner → AgentOperation
  inspect_host drain_host upgrade_agent : AgentOperation
  inspect drain stop cleanup : LocalResourceIdentity → AgentOperation
  execute_sandbox sandbox_file sandbox_artifact : LocalResourceIdentity → AgentOperation

pub data CommandScope : Type 0 where
  host_scope : CommandScope
  placement_scope : ℕ → ℕ → CommandScope

pub record AgentCommandEnvelope : Type 0 where
  pub command_id : ℕ
  pub request_hash : ℕ
  pub scope : CommandScope
  pub operation : AgentOperation

-- `SuccessEvidence`; the evidence of the other operations is a number, which dispatch never opens.
pub data SuccessEvidence : Type 0 where
  prepared : ℕ → SuccessEvidence
  runner_started : ℕ → ℕ → ℕ → LocalResourceIdentity → SuccessEvidence
  other_evidence : ℕ → SuccessEvidence

pub data FailureCode : Type 0 where
  cancelled configuration dependency deadline permission : FailureCode
  resource_unavailable runtime unsupported : FailureCode

pub data CommandOutcome : Type 0 where
  succeeded : SuccessEvidence → CommandOutcome
  failed : FailureCode → Bool → CommandOutcome
  local_state_unknown : CommandOutcome

-- The fields of `AgentCommandResult` that are not copied from the envelope, and the two by which the
-- journal files it.
pub record AgentCommandResult : Type 0 where
  pub command_id : ℕ
  pub request_hash : ℕ
  pub outcome : CommandOutcome

pub record CommandRow : Type 0 where
  pub command_id : ℕ
  pub request_hash : ℕ
  pub result : Option AgentCommandResult
  pub boot_id : Option ℕ

pub record Environment : Type 0 where
  pub id : ℕ
  pub placement_id : ℕ
  pub generation : ℕ
  pub workload : PreparedWorkload
  pub runtime_kind : RuntimeKind
  pub execution_os : ExecutionOs
  pub docker_socket : Bool
  pub local_identity : Option LocalResourceIdentity

pub record Journal : Type 0 where
  pub commands : List CommandRow
  pub environments : List Environment

pub data JournalError : Type 0 where
  conflict storage : JournalError

pub data Receipt : Type 0 where
  new interrupted : Receipt
  completed : AgentCommandResult → Receipt

unfoldable pub find_command : ℕ → List CommandRow → Option CommandRow
find_command id [] = none
find_command id (r ∷ rs) = if r.command_id == id then some r else find_command id rs

abbrev pub stored_receipt : Option AgentCommandResult → Receipt
stored_receipt none = interrupted
stored_receipt (some result) = completed result

abbrev pub received_before : CommandRow → ℕ → Result JournalError Receipt
received_before row hash =
    if row.request_hash == hash then ok (stored_receipt row.result) else err conflict

-- The insertion of a receipt, or what the row of the command says.
abbrev pub receive_at :
    ℕ → Journal → AgentCommandEnvelope → Option CommandRow → Journal × Result JournalError Receipt
receive_at boot j e (some row) = (j, received_before row e.request_hash)
receive_at boot j e none = (
  record j {
    commands =
        record {
          command_id = e.command_id;
          request_hash = e.request_hash;
          result = none;
          boot_id = some boot;
        }
        ∷ j.commands;
  },
  ok new,
)

-- `Journal::receive`, with the boot that `probe::boot_id` reads.
unfoldable pub receive : ℕ → Journal → AgentCommandEnvelope → Journal × Result JournalError Receipt
receive boot j e = receive_at boot j e (find_command e.command_id j.commands)

abbrev pub is_rebooted : ℕ → Option CommandRow → Bool
is_rebooted boot none = false
is_rebooted boot (some row) = elim row.boot_id [ none ↦ false | some at ↦ not (at == boot) ]

-- `Journal::rebooted_since`.
unfoldable pub rebooted_since : ℕ → Journal → ℕ → Bool
rebooted_since boot j id = is_rebooted boot (find_command id j.commands)

-- The update of `Journal::complete` on the row of the command.
unfoldable pub set_result :
    AgentCommandResult → List CommandRow → Result JournalError (List CommandRow)
set_result result [] = err storage
set_result result (r ∷ rs) =
    let rest = set_result result rs in
    if r.command_id == result.command_id
    then elim r.result [
      | none ↦ ok (record r { result = some result } ∷ rs)
      | some earlier ↦ err storage
    ]
    else elim rest [ ok rs' ↦ ok (r ∷ rs') | err e ↦ err e ]

unfoldable pub complete : Journal → AgentCommandResult → Result JournalError Journal
complete j result = elim (set_result result j.commands) [
  | ok rows ↦ ok (record j { commands = rows })
  | err e ↦ err e
]

-- `Journal::placement_environment`.
unfoldable pub find_environment : ℕ → ℕ → List Environment → Option Environment
find_environment placement generation [] = none
find_environment placement generation (e ∷ es) =
    if e.placement_id == placement && e.generation == generation
    then some e
    else find_environment placement generation es

-- An id or a placement and generation that is taken makes the insertion fail.
unfoldable pub is_taken : Environment → List Environment → Bool
is_taken new_one [] = false
is_taken new_one (e ∷ es) =
    (e.id == new_one.id
      || (e.placement_id == new_one.placement_id && e.generation == new_one.generation))
    || is_taken new_one es

unfoldable pub record_environment : Journal → Environment → Result JournalError Journal
record_environment j e =
    if is_taken e j.environments
    then err storage
    else ok (record j { environments = e ∷ j.environments })

abbrev pub may_bind : Option LocalResourceIdentity → LocalResourceIdentity → Bool
may_bind none identity = true
may_bind (some bound) identity = eqb LocalResourceIdentity-discrete bound identity

-- The update of `Journal::bind_local_identity`.
unfoldable pub set_identity :
    ℕ → LocalResourceIdentity → List Environment → Result JournalError (List Environment)
set_identity id identity [] = err storage
set_identity id identity (e ∷ es) =
    let rest = set_identity id identity es in
    if e.id == id
    then (if may_bind e.local_identity identity
        then ok (record e { local_identity = some identity } ∷ es)
        else err storage)
    else elim rest [ ok es' ↦ ok (e ∷ es') | err x ↦ err x ]

unfoldable pub bind_local_identity :
    Journal → ℕ → LocalResourceIdentity → Result JournalError Journal
bind_local_identity j id identity = elim (set_identity id identity j.environments) [
  | ok es ↦ ok (record j { environments = es })
  | err x ↦ err x
]
