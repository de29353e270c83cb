-- ===== src/HostAgent/Owned.antt =====
-- Which resources `execute` of crates/gridops-host-agent/src/dispatch.rs lets a command reach.
use mathlib.Core.List.{Memᴰ}
use gridops.Prelude.{
  ◌==◌, ◌&&◌, Bool-cases, inl, inr, sym, ℕ, ◌≡◌, Bool, true, Option, some, List, [], ◌∷◌, arith,
}
use gridops.Domain.Kinds.{docker, linux}
use gridops.HostAgent.Journal.{
  LocalResourceIdentity, AgentOperation, prepare_environment, start_runner, inspect_host,
  drain_host, upgrade_agent, inspect, drain, stop, cleanup, execute_sandbox, sandbox_file,
  sandbox_artifact, CommandScope, host_scope, placement_scope, AgentCommandEnvelope, Environment,
  Journal, find_environment, fix_sandbox,
}
use gridops.HostAgent.Dispatch.{
  is_docker, is_owned_fix_sandbox, call_helper, placement_plan, host_plan, plan_in, plan,
}

-- The resource of the environment is the one that the command expects, and a sandbox operation
-- reaches only the Docker container of a fix sandbox on Linux.
abbrev pub IsSandbox : Environment → LocalResourceIdentity → Type 0
IsSandbox e expected =
    (e.workload ≡ fix_sandbox)
    × (e.runtime_kind ≡ docker)
    × (e.execution_os ≡ linux)
    × (is_docker expected ≡ true)
    × (e.local_identity ≡ some expected)

abbrev pub Reaches : AgentOperation → Environment → Type 0
Reaches (prepare_environment p) e = ⊥
Reaches (start_runner s) e = e.id ≡ s.prepared_environment_id
Reaches inspect_host e = ⊥
Reaches drain_host e = ⊥
Reaches upgrade_agent e = ⊥
Reaches (inspect expected) e = e.local_identity ≡ some expected
Reaches (drain expected) e = e.local_identity ≡ some expected
Reaches (stop expected) e = e.local_identity ≡ some expected
Reaches (cleanup expected) e = e.local_identity ≡ some expected
Reaches (execute_sandbox expected) e = IsSandbox e expected
Reaches (sandbox_file expected) e = IsSandbox e expected
Reaches (sandbox_artifact expected) e = IsSandbox e expected

placement_plan-Reaches :
    (trusted : Bool) (id placement generation : ℕ) (owned : Option Environment) (o : AgentOperation)
    (e : Environment)
    → placement_plan trusted id placement generation owned o ≡ call_helper (some e)
    → (owned ≡ some e) × Reaches o e
unfolding placement_plan is_owned_fix_sandbox
placement_plan-Reaches trusted id placement generation owned (prepare_environment p) e h =
    ground arith
placement_plan-Reaches trusted id placement generation owned (start_runner s) e h = ground arith
placement_plan-Reaches trusted id placement generation owned inspect_host e h = ground arith
placement_plan-Reaches trusted id placement generation owned drain_host e h = ground arith
placement_plan-Reaches trusted id placement generation owned upgrade_agent e h = ground arith
placement_plan-Reaches trusted id placement generation owned (inspect x) e h = ground arith
placement_plan-Reaches trusted id placement generation owned (drain x) e h = ground arith
placement_plan-Reaches trusted id placement generation owned (stop x) e h = ground arith
placement_plan-Reaches trusted id placement generation owned (cleanup x) e h = ground arith
placement_plan-Reaches trusted id placement generation owned (execute_sandbox x) e h = ground arith
placement_plan-Reaches trusted id placement generation owned (sandbox_file x) e h = ground arith
placement_plan-Reaches trusted id placement generation owned (sandbox_artifact x) e h = ground arith

find_environment-owned :
    (placement generation : ℕ) (es : List Environment) (e : Environment)
    → find_environment placement generation es ≡ some e
    → Memᴰ e es × (e.placement_id ≡ placement) × (e.generation ≡ generation)
unfolding find_environment
find_environment-owned placement generation [] e h = absurd (cc h)
find_environment-owned placement generation (x ∷ xs) e h =
    elim (Bool-cases (x.placement_id == placement && x.generation == generation)) [
      | inl here ↦
          let same : x ≡ e = ground arith in (Memᴰ.head (sym same), ground arith, ground arith)
      | inr other ↦
          let (listed, place, age) =
            find_environment-owned placement generation xs e (rw other at h) in
          (Memᴰ.tail listed, place, age)
    ]

-- The scope that the environment of a call belongs to.
abbrev pub IsScopeOf : CommandScope → Environment → Type 0
IsScopeOf host_scope e = ⊥
IsScopeOf (placement_scope placement generation) e =
    (e.placement_id ≡ placement) × (e.generation ≡ generation)

host_plan-Reaches : (o : AgentOperation) (e : Environment) → host_plan o ≡ call_helper (some e) → ⊥
host_plan-Reaches (prepare_environment p) e h = ground arith
host_plan-Reaches (start_runner s) e h = ground arith
host_plan-Reaches inspect_host e h = ground arith
host_plan-Reaches drain_host e h = ground arith
host_plan-Reaches upgrade_agent e h = ground arith
host_plan-Reaches (inspect x) e h = ground arith
host_plan-Reaches (drain x) e h = ground arith
host_plan-Reaches (stop x) e h = ground arith
host_plan-Reaches (cleanup x) e h = ground arith
host_plan-Reaches (execute_sandbox x) e h = ground arith
host_plan-Reaches (sandbox_file x) e h = ground arith
host_plan-Reaches (sandbox_artifact x) e h = ground arith

plan_in-Reaches :
    (trusted : Bool) (id : ℕ) (j : Journal) (scope : CommandScope) (o : AgentOperation)
    (e : Environment)
    → plan_in trusted id j scope o ≡ call_helper (some e)
    → Memᴰ e j.environments × IsScopeOf scope e × Reaches o e
plan_in-Reaches trusted id j host_scope o e h = absurd (host_plan-Reaches o e h)
plan_in-Reaches trusted id j (placement_scope placement generation) o e h =
    let owned = find_environment placement generation j.environments in
    let (found, reaches) = placement_plan-Reaches trusted id placement generation owned o e h in
    let (listed, place, age) = find_environment-owned placement generation j.environments e found in
    (listed, (place, age), reaches)

-- A command reaches an environment only if the environment is in the journal, is of the command's own
-- placement and generation, and holds the very resource that the command names: a start names the
-- prepared environment, an inspection, drain, stop and cleanup its local resource, and a sandbox
-- operation the Docker container of a fix sandbox on Linux.
pub plan-Reaches :
    (trusted : Bool) (id : ℕ) (j : Journal) (c : AgentCommandEnvelope) (e : Environment)
    → plan trusted id j c ≡ call_helper (some e)
    → Memᴰ e j.environments × IsScopeOf c.scope e × Reaches c.operation e
unfolding plan
plan-Reaches trusted id j c e h = plan_in-Reaches trusted id j c.scope c.operation e h
