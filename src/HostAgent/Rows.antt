-- ===== src/HostAgent/Rows.antt =====
-- What the work on a command in crates/gridops-host-agent/src/dispatch.rs leaves alone.
use gridops.Prelude.{
  Bool, true, false, List, [], ◌∷◌, ℕ, ◌≡◌, refl, inl, inr, Bool-cases, Option, none, some, Result,
  ok, err, ◌==◌, arith,
}
use gridops.HostAgent.Journal.{
  AgentCommandEnvelope, CommandScope, host_scope, placement_scope, AgentOperation,
  prepare_environment, start_runner, inspect_host, drain_host, upgrade_agent, inspect, drain, stop,
  cleanup, execute_sandbox, sandbox_file, sandbox_artifact, find_environment, CommandOutcome,
  LocalResourceIdentity, Environment, Journal, JournalError, record_environment,
  bind_local_identity, prepared, runner_started, other_evidence,
}
use gridops.HostAgent.Dispatch.{
  HelperResponse, helper_succeeded, helper_failed, saved, after_call, after_prepare, after_remains,
  start_remains, HelperMethod, call, interrupted_start, HelperCall, World, Recovered, recover,
  recover_placement, recover_in, StartRemains, remaining_runner, nothing_remains, remains_unknown,
}

abbrev pub is_work : HelperMethod → Bool
is_work call = true
is_work (interrupted_start rebooted) = false

-- None of the requests asks for a command to be carried out.
abbrev pub AreQuestions : List HelperCall → Type 0
AreQuestions [] = Unit {0}
AreQuestions (c ∷ cs) = (is_work c.method ≡ false) × AreQuestions cs

-- Work changes no command's row.
pub bind-commands :
    (j j' : Journal) (id : ℕ) (identity : LocalResourceIdentity)
    → bind_local_identity j id identity ≡ ok j'
    → j'.commands ≡ j.commands
unfolding bind_local_identity
bind-commands j j' id identity e = ground arith

pub record-commands :
    (j j' : Journal) (environment : Environment)
    → record_environment j environment ≡ ok j'
    → j'.commands ≡ j.commands
unfolding record_environment
record-commands j j' environment e = ground arith

pub saved-commands :
    (j : Journal) (outcome : CommandOutcome) (r : Result JournalError Journal)
    → ((j' : Journal) → r ≡ ok j' → j'.commands ≡ j.commands)
    → (saved j outcome r).0.commands ≡ j.commands
saved-commands j outcome (ok j') h = h j' refl
saved-commands j outcome (err e) h = refl

pub after_call-commands :
    (j : Journal) (owned : Option Environment) (r : HelperResponse)
    → (after_call j owned r).0.commands ≡ j.commands
after_call-commands j none r = refl
after_call-commands j (some e) (helper_failed code retryable) = refl
after_call-commands j (some e) (helper_succeeded (prepared id)) = refl
after_call-commands j (some e) (helper_succeeded (other_evidence n)) = refl
after_call-commands j (some e) (helper_succeeded (runner_started i p v identity)) =
    saved-commands j _ (bind_local_identity j e.id identity)
      (λ j' b. bind-commands j j' e.id identity b)

pub after_prepare-commands :
    (j : Journal) (e : Environment) (r : HelperResponse)
    → (after_prepare j e r).0.commands ≡ j.commands
after_prepare-commands j e (helper_failed code retryable) = refl
after_prepare-commands j e (helper_succeeded (other_evidence n)) = refl
after_prepare-commands j e (helper_succeeded (runner_started i p v identity)) = refl
after_prepare-commands j e (helper_succeeded (prepared id)) = elim (Bool-cases (id == e.id)) [
  | inl same ↦
      rw same (saved-commands j _ (record_environment j e) (λ j' b. record-commands j j' e b))
  | inr other ↦ rw other refl
]

pub after_remains-commands :
    (j : Journal) (e : Environment) (profile revision : ℕ) (r : StartRemains)
    → (after_remains j e profile revision r).0.commands ≡ j.commands
after_remains-commands j e profile revision (remaining_runner identity) =
    saved-commands j _ (bind_local_identity j e.id identity)
      (λ j' b. bind-commands j j' e.id identity b)
after_remains-commands j e profile revision nothing_remains = refl
after_remains-commands j e profile revision remains_unknown = refl

-- What a recovery does: it changes no command's row, and makes only requests of what remains of a
-- start.
pub record IsRecovery (j : Journal) (r : Recovered) : Type 0 where
  pub rows : r.0.0.commands ≡ j.commands
  pub asks : AreQuestions r.1

still : (j : Journal) (outcome : CommandOutcome) → IsRecovery j ((j, ok outcome), [])
still j outcome = record { rows = refl; asks = tt }

start_remains-IsRecovery :
    (trusted : Bool) (w : World) (j : Journal) (c : AgentCommandEnvelope) (e : Environment)
    (profile revision : ℕ) (identity : Option LocalResourceIdentity)
    → IsRecovery j (start_remains trusted w j c e profile revision identity)
start_remains-IsRecovery trusted w j c e profile revision (some identity) = still j _
start_remains-IsRecovery trusted w j c e profile revision none = record {
  rows = after_remains-commands j e profile revision w.remains;
  asks = (refl, tt);
}

recover_placement-IsRecovery :
    (trusted : Bool) (w : World) (j : Journal) (c : AgentCommandEnvelope) (o : AgentOperation)
    (owned : Option Environment)
    → IsRecovery j (recover_placement trusted w j c o owned)
recover_placement-IsRecovery trusted w j c (prepare_environment p) none = still j _
recover_placement-IsRecovery trusted w j c (prepare_environment p) (some e) = still j _
recover_placement-IsRecovery trusted w j c (start_runner s) none = still j _
recover_placement-IsRecovery trusted w j c (start_runner s) (some e) =
    elim (Bool-cases (e.id == s.prepared_environment_id)) [
      | inl same ↦ rw same (
          start_remains-IsRecovery trusted w j c e s.execution_profile_id s.profile_revision
            e.local_identity)
      | inr other ↦ rw other (still j _)
    ]
recover_placement-IsRecovery trusted w j c inspect_host owned = still j _
recover_placement-IsRecovery trusted w j c drain_host owned = still j _
recover_placement-IsRecovery trusted w j c upgrade_agent owned = still j _
recover_placement-IsRecovery trusted w j c (inspect x) owned = still j _
recover_placement-IsRecovery trusted w j c (drain x) owned = still j _
recover_placement-IsRecovery trusted w j c (stop x) owned = still j _
recover_placement-IsRecovery trusted w j c (cleanup x) owned = still j _
recover_placement-IsRecovery trusted w j c (execute_sandbox x) owned = still j _
recover_placement-IsRecovery trusted w j c (sandbox_file x) owned = still j _
recover_placement-IsRecovery trusted w j c (sandbox_artifact x) owned = still j _

recover_in-IsRecovery :
    (trusted : Bool) (w : World) (j : Journal) (c : AgentCommandEnvelope) (scope : CommandScope)
    → IsRecovery j (recover_in trusted w j c scope)
recover_in-IsRecovery trusted w j c host_scope = still j _
recover_in-IsRecovery trusted w j c (placement_scope p g) =
    recover_placement-IsRecovery trusted w j c c.operation (find_environment p g j.environments)

pub recover-IsRecovery :
    (trusted : Bool) (w : World) (j : Journal) (c : AgentCommandEnvelope)
    → IsRecovery j (recover trusted w j c)
unfolding recover
recover-IsRecovery trusted w j c = recover_in-IsRecovery trusted w j c c.scope
