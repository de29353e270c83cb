-- ===== src/Examples/HostAgent.antt =====
-- A prepare and a start on one host, crates/gridops-host-agent/src/dispatch.rs.
use mathlib.Core.List.{Memᴰ}
use gridops.Prelude.{◌≤◌, ◌≡◌, refl, true, false, none, some, [], ◌∷◌, ok}
use gridops.Domain.Kinds.{docker, linux}
use gridops.HostAgent.Journal.{
  LocalResourceIdentity, docker_object, LocalResourceIdentity-discrete, ci_runner,
  prepare_environment, placement_scope, AgentCommandEnvelope, prepared, succeeded,
  AgentCommandResult, Environment, Journal, find_command, receive, set_result, complete,
  find_environment, is_taken, record_environment, stop,
}
use gridops.HostAgent.Dispatch.{
  World, HelperMethod, helper_succeeded, nothing_remains, never, during_work, placement_plan, plan,
  call_helper, finish, execute, act_on, request, dispatch_with,
}
use gridops.HostAgent.Once.{calls_of, calls_of-once}
use gridops.HostAgent.Quiet.{calls_for}
use gridops.HostAgent.Owned.{IsScopeOf, Reaches, plan-Reaches}
use gridops.HostAgent.Redelivered.{dispatch_with-again}

abbrev preparing : AgentCommandEnvelope
preparing = record {
  command_id = 1;
  request_hash = 77;
  scope = placement_scope 5 1;
  operation = prepare_environment (record {
    workload = ci_runner;
    runtime_kind = docker;
    execution_os = linux;
    requires_interactive = false;
    requires_docker_socket = false;
  });
}

abbrev prepared_world : World
prepared_world = record {
  bound = true;
  in_time = true;
  response = helper_succeeded (prepared 30);
  remains = nothing_remains;
  boot_id = 70;
  fresh_id = 30;
  evidence_fits = true;
  stops = never;
}

abbrev empty_journal : Journal
empty_journal = record { commands = []; environments = [] }

abbrev environment : Environment
environment = record {
  id = 30;
  placement_id = 5;
  generation = 1;
  workload = ci_runner;
  runtime_kind = docker;
  execution_os = linux;
  docker_socket = false;
  local_identity = none;
}

abbrev prepared_result : AgentCommandResult
prepared_result = record { command_id = 1; request_hash = 77; outcome = succeeded (prepared 30) }

abbrev prepared_journal : Journal
prepared_journal = record {
  commands =
      record { command_id = 1; request_hash = 77; result = some prepared_result; boot_id = some 70 }
      ∷ [];
  environments = environment ∷ [];
}

prepare_runs : dispatch_with false prepared_world empty_journal preparing ≡ (
  prepared_journal,
  request HelperMethod.call false preparing (some environment) ∷ [],
  ok prepared_result,
)
unfolding dispatch_with receive find_command act_on execute plan placement_plan find_environment
    is_taken record_environment finish complete set_result
prepare_runs = refl

-- The answer was lost, and the server sends the command again after it is due.
abbrev late_world : World
late_world = record prepared_world { in_time = false; fresh_id = 31 }

dispatch_with-again_example :
    dispatch_with true late_world prepared_journal preparing
    ≡ (prepared_journal, [], ok prepared_result)
dispatch_with-again_example =
    dispatch_with-again false true prepared_world late_world empty_journal prepared_journal
      preparing (request HelperMethod.call false preparing (some environment) ∷ []) prepared_result
      prepare_runs refl refl

abbrev container : LocalResourceIdentity
container = docker_object "runner-5"

abbrev started_environment : Environment
started_environment = record environment { local_identity = some container }

abbrev started_journal : Journal
started_journal = record prepared_journal { environments = started_environment ∷ [] }

abbrev stopping : AgentCommandEnvelope
stopping = record {
  command_id = 3;
  request_hash = 79;
  scope = placement_scope 5 1;
  operation = stop container;
}

stop_allowed : plan false 40 started_journal stopping ≡ call_helper (some started_environment)
unfolding plan placement_plan find_environment LocalResourceIdentity-discrete
stop_allowed = refl

plan-Reaches_example :
    Memᴰ started_environment started_journal.environments
    × IsScopeOf (placement_scope 5 1) started_environment
    × Reaches (stop container) started_environment
plan-Reaches_example =
    plan-Reaches false 40 started_journal stopping started_environment stop_allowed

-- The agent stops while it prepares, and the command comes again twice.
calls_of-once_example :
    calls_for 1 (
      calls_of false empty_journal (
        (record prepared_world { stops = during_work }, preparing)
        ∷ (prepared_world, preparing)
        ∷ (late_world, preparing)
        ∷ []))
    ≤ 1
calls_of-once_example = calls_of-once 1 false empty_journal (
    (record prepared_world { stops = during_work }, preparing)
    ∷ (prepared_world, preparing)
    ∷ (late_world, preparing)
    ∷ [])
