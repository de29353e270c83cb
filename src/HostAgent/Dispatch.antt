-- ===== src/HostAgent/Dispatch.antt =====
-- `Dispatcher::dispatch_with` of crates/gridops-host-agent/src/dispatch.rs. The world of a call says
-- what the checks of the envelope come to, what the runtime helper answers, which fresh id is drawn,
-- in which boot the host is and where the agent stops, if it does. Every request to the helper is
-- logged beside its command.
use gridops.Prelude.{
  ℕ, Bool, true, false, not, ◌&&◌, Option, none, some, List, [], ◌∷◌, Result, ok, err, eqb, ◌==◌,
  if◌then◌else◌,
}
use gridops.Domain.Kinds.{RuntimeKind-discrete, docker, ExecutionOs-discrete, linux}
use gridops.HostAgent.Journal.{
  LocalResourceIdentity, LocalResourceIdentity-discrete, docker_object, PreparedWorkload-discrete,
  fix_sandbox, PrepareEnvironment, AgentOperation, prepare_environment, start_runner, inspect_host,
  drain_host, inspect, drain, stop, cleanup, execute_sandbox, sandbox_file, sandbox_artifact,
  CommandScope, host_scope, placement_scope, AgentCommandEnvelope, SuccessEvidence, prepared,
  runner_started, rebooted_since, FailureCode, cancelled, configuration, deadline, permission,
  unsupported, CommandOutcome, succeeded, failed, local_state_unknown, AgentCommandResult,
  Environment, Journal, JournalError, new, interrupted, completed, receive, complete,
  find_environment, record_environment, bind_local_identity, Receipt,
}

pub data DispatchError : Type 0 where
  invalid_command internal stopped : DispatchError
  journal_failed : JournalError → DispatchError

pub data HelperResponse : Type 0 where
  helper_succeeded : SuccessEvidence → HelperResponse
  helper_failed : FailureCode → Bool → HelperResponse

pub data StartRemains : Type 0 where
  remaining_runner : LocalResourceIdentity → StartRemains
  nothing_remains remains_unknown : StartRemains

-- Where the agent's process ends, if it does during the call.
pub data Stop : Type 0 where
  never after_receipt during_work before_complete : Stop

pub record World : Type 0 where
  pub bound : Bool  -- `validate_binding` passes
  pub in_time : Bool  -- `validate_against` passes
  pub response : HelperResponse
  pub remains : StartRemains
  pub boot_id : ℕ
  pub fresh_id : ℕ
  pub evidence_fits : Bool  -- `AgentCommandResult::validate_against` passes
  pub stops : Stop

-- The methods of `Helper`: a command is carried out, or the helper is asked what remains of a start
-- that was cut short, and told whether the host has booted since.
pub data HelperMethod : Type 0 where
  call : HelperMethod
  interrupted_start : Bool → HelperMethod

-- `HelperRequest`, the method it goes to and the command that it is made for.
pub record HelperCall : Type 0 where
  pub method : HelperMethod
  pub command_id : ℕ
  pub environment : Option Environment
  pub docker_socket : Bool
  pub operation : AgentOperation

abbrev pub refused : FailureCode → CommandOutcome
refused code = failed code false

abbrev pub cut_short : CommandOutcome
cut_short = failed cancelled true

abbrev pub outcome_of : HelperResponse → CommandOutcome
outcome_of (helper_succeeded evidence) = succeeded evidence
outcome_of (helper_failed code retryable) = failed code retryable

abbrev pub owns : Option LocalResourceIdentity → LocalResourceIdentity → Bool
owns none expected = false
owns (some identity) expected = eqb LocalResourceIdentity-discrete identity expected

abbrev pub is_docker : LocalResourceIdentity → Bool
is_docker (docker_object id) = true
is_docker _ = false

unfoldable pub is_owned_fix_sandbox : Environment → LocalResourceIdentity → Bool
is_owned_fix_sandbox e expected =
    eqb PreparedWorkload-discrete e.workload fix_sandbox
    && eqb RuntimeKind-discrete e.runtime_kind docker
    && eqb ExecutionOs-discrete e.execution_os linux
    && is_docker expected
    && owns e.local_identity expected

-- What `execute` decides before it calls the helper.
pub data Plan : Type 0 where
  refuse : CommandOutcome → Plan
  call_helper : Option Environment → Plan
  prepare_new : Environment → Plan

abbrev pub owned_plan : (Environment → Bool) → Option Environment → Plan
owned_plan may none = refuse (refused permission)
owned_plan may (some e) = if may e then call_helper (some e) else refuse (refused permission)

abbrev pub is_some : Option Environment → Bool
is_some none = false
is_some (some e) = true

-- `Dispatcher::prepare` up to the helper.
abbrev pub new_environment : ℕ → ℕ → ℕ → PrepareEnvironment → Environment
new_environment id placement generation p = record {
  id = id;
  placement_id = placement;
  generation = generation;
  workload = p.workload;
  runtime_kind = p.runtime_kind;
  execution_os = p.execution_os;
  docker_socket = p.requires_docker_socket;
  local_identity = none;
}

-- The `match` of `execute` on an operation of a placement.
unfoldable pub placement_plan : Bool → ℕ → ℕ → ℕ → Option Environment → AgentOperation → Plan
placement_plan trusted id placement generation owned (prepare_environment p) =
    if p.requires_docker_socket && not trusted
    then refuse (refused permission)
    else if p.requires_interactive
    then refuse (refused unsupported)
    else if is_some owned
    then refuse (refused configuration)
    else prepare_new (new_environment id placement generation p)
placement_plan trusted id placement generation owned (start_runner s) =
    owned_plan (λ e. e.id == s.prepared_environment_id) owned
placement_plan trusted id placement generation owned (inspect expected) =
    owned_plan (λ e. owns e.local_identity expected) owned
placement_plan trusted id placement generation owned (drain expected) =
    owned_plan (λ e. owns e.local_identity expected) owned
placement_plan trusted id placement generation owned (stop expected) =
    owned_plan (λ e. owns e.local_identity expected) owned
placement_plan trusted id placement generation owned (cleanup expected) =
    owned_plan (λ e. owns e.local_identity expected) owned
placement_plan trusted id placement generation owned (execute_sandbox expected) =
    owned_plan (λ e. is_owned_fix_sandbox e expected) owned
placement_plan trusted id placement generation owned (sandbox_file expected) =
    owned_plan (λ e. is_owned_fix_sandbox e expected) owned
placement_plan trusted id placement generation owned (sandbox_artifact expected) =
    owned_plan (λ e. is_owned_fix_sandbox e expected) owned
placement_plan trusted id placement generation owned _ = refuse (refused unsupported)

abbrev pub host_plan : AgentOperation → Plan
host_plan inspect_host = call_helper none
host_plan drain_host = call_helper none
host_plan _ = refuse (refused unsupported)

abbrev pub plan_in : Bool → ℕ → Journal → CommandScope → AgentOperation → Plan
plan_in trusted id j host_scope operation = host_plan operation
plan_in trusted id j (placement_scope placement generation) operation =
    placement_plan trusted id placement generation
      (find_environment placement generation j.environments) operation

unfoldable pub plan : Bool → ℕ → Journal → AgentCommandEnvelope → Plan
plan trusted id j e = plan_in trusted id j e.scope e.operation

-- The journaling after the helper's answer; an error of the journal ends the call.
abbrev pub Worked : Type 0
Worked = Journal × Result JournalError CommandOutcome

abbrev pub saved : Journal → CommandOutcome → Result JournalError Journal → Worked
saved j outcome (ok j') = (j', ok outcome)
saved j outcome (err e) = (j, err e)

abbrev pub after_call : Journal → Option Environment → HelperResponse → Worked
after_call j (some e) (helper_succeeded (runner_started environment profile revision identity)) =
    saved j (succeeded (runner_started environment profile revision identity))
      (bind_local_identity j e.id identity)
after_call j owned response = (j, ok (outcome_of response))

abbrev pub after_prepare : Journal → Environment → HelperResponse → Worked
after_prepare j e (helper_succeeded (prepared id)) =
    if id == e.id
    then saved j (succeeded (prepared id)) (record_environment j e)
    else (j, ok local_state_unknown)
after_prepare j e (helper_succeeded evidence) = (j, ok local_state_unknown)
after_prepare j e (helper_failed code retryable) = (j, ok (failed code retryable))

-- `Dispatcher::request`.
abbrev pub may_use_socket : Bool → Option Environment → Bool
may_use_socket trusted none = false
may_use_socket trusted (some e) = trusted && e.docker_socket

abbrev pub request : HelperMethod → Bool → AgentCommandEnvelope → Option Environment → HelperCall
request method trusted e owned = record {
  method = method;
  command_id = e.command_id;
  environment = owned;
  docker_socket = may_use_socket trusted owned;
  operation = e.operation;
}

-- The journal and the outcome of a recovery, and the requests that it makes to the helper.
abbrev pub Recovered : Type 0
Recovered = Worked × List HelperCall

-- `StartRemains`, for a start in its own environment.
abbrev pub after_remains : Journal → Environment → ℕ → ℕ → StartRemains → Worked
after_remains j e profile revision (remaining_runner identity) =
    saved j (succeeded (runner_started e.id profile revision identity))
      (bind_local_identity j e.id identity)
after_remains j e profile revision nothing_remains = (j, ok cut_short)
after_remains j e profile revision remains_unknown = (j, ok local_state_unknown)

-- A start in its own environment: the identity that is journaled, or else what the helper finds.
abbrev pub start_remains :
    Bool
    → World
    → Journal
    → AgentCommandEnvelope
    → Environment
    → ℕ
    → ℕ
    → Option LocalResourceIdentity
    → Recovered
start_remains trusted w j c e profile revision (some identity) =
    ((j, ok (succeeded (runner_started e.id profile revision identity))), [])
start_remains trusted w j c e profile revision none = (
  after_remains j e profile revision w.remains,
  request (interrupted_start (rebooted_since w.boot_id j c.command_id)) trusted c (some e) ∷ [],
)

abbrev pub recover_placement :
    Bool → World → Journal → AgentCommandEnvelope → AgentOperation → Option Environment → Recovered
recover_placement trusted w j c (prepare_environment p) (some e) =
    ((j, ok (succeeded (prepared e.id))), [])
recover_placement trusted w j c (prepare_environment p) none = ((j, ok cut_short), [])
recover_placement trusted w j c (start_runner s) (some e) =
    if e.id == s.prepared_environment_id
    then start_remains trusted w j c e s.execution_profile_id s.profile_revision e.local_identity
    else ((j, ok (refused permission)), [])
recover_placement trusted w j c (start_runner s) none = ((j, ok (refused permission)), [])
recover_placement trusted w j c operation owned = ((j, ok local_state_unknown), [])

abbrev pub recover_in : Bool → World → Journal → AgentCommandEnvelope → CommandScope → Recovered
recover_in trusted w j c host_scope = ((j, ok local_state_unknown), [])
recover_in trusted w j c (placement_scope placement generation) =
    recover_placement trusted w j c c.operation
      (find_environment placement generation j.environments)

-- `Dispatcher::recover`.
unfoldable pub recover : Bool → World → Journal → AgentCommandEnvelope → Recovered
recover trusted w j c = recover_in trusted w j c c.scope

-- The journal left, the requests made to the helper, and the answer.
abbrev pub Dispatched : Type 0
Dispatched = Journal × List HelperCall × Result DispatchError AgentCommandResult

abbrev pub result_of : World → AgentCommandEnvelope → CommandOutcome → AgentCommandResult
result_of w e outcome = record {
  command_id = e.command_id;
  request_hash = e.request_hash;
  outcome = if w.evidence_fits then outcome else local_state_unknown;
}

abbrev pub answer :
    Journal → List HelperCall → AgentCommandResult → Result JournalError Journal → Dispatched
answer j calls result (ok j') = (j', calls, ok result)
answer j calls result (err e) = (j, calls, err internal)

-- The agent may stop before the result is journaled.
abbrev pub settle : Stop → Journal → List HelperCall → AgentCommandResult → Dispatched
settle before_complete j calls result = (j, calls, err stopped)
settle _ j calls result = answer j calls result (complete j result)

-- From the outcome on.
unfoldable pub finish : World → AgentCommandEnvelope → List HelperCall → Worked → Dispatched
finish w e calls (j, err x) = (j, calls, err internal)
finish w e calls (j, ok outcome) = settle w.stops j calls (result_of w e outcome)

-- The agent may stop while the helper works.
abbrev pub unless_stopped : Stop → Journal → List HelperCall → Dispatched → Dispatched
unless_stopped during_work j calls done = (j, calls, err stopped)
unless_stopped _ j calls done = done

abbrev pub carry_out : Bool → World → Journal → AgentCommandEnvelope → Plan → Dispatched
carry_out trusted w j e (refuse outcome) = finish w e [] (j, ok outcome)
carry_out trusted w j e (call_helper owned) =
    let calls = request call trusted e owned ∷ [] in
    unless_stopped w.stops j calls (finish w e calls (after_call j owned w.response))
carry_out trusted w j e (prepare_new environment) =
    let calls = request call trusted e (some environment) ∷ [] in
    unless_stopped w.stops j calls (finish w e calls (after_prepare j environment w.response))

unfoldable pub execute : Bool → World → Journal → AgentCommandEnvelope → Dispatched
execute trusted w j e = carry_out trusted w j e (plan trusted w.fresh_id j e)

-- The `match` on the receipt.
unfoldable pub act_on : Bool → World → Journal → AgentCommandEnvelope → Receipt → Dispatched
act_on trusted w j e (completed result) = (j, [], ok result)
act_on trusted w j e interrupted =
    let (done, calls) = recover trusted w j e in
    unless_stopped w.stops j calls (finish w e calls done)
act_on trusted w j e new =
    if w.in_time then execute trusted w j e else finish w e [] (j, ok (refused deadline))

-- The agent may stop right after the receipt.
abbrev pub act_unless_stopped :
    Stop → Bool → World → Journal → AgentCommandEnvelope → Result JournalError Receipt → Dispatched
act_unless_stopped at trusted w j e (err x) = (j, [], err (journal_failed x))
act_unless_stopped after_receipt trusted w j e (ok r) = (j, [], err stopped)
act_unless_stopped _ trusted w j e (ok r) = act_on trusted w j e r

unfoldable pub dispatch_with : Bool → World → Journal → AgentCommandEnvelope → Dispatched
dispatch_with trusted w j e =
    if not w.bound
    then (j, [], err invalid_command)
    else act_unless_stopped w.stops trusted w ((receive w.boot_id j e).0) e
        ((receive w.boot_id j e).1)
