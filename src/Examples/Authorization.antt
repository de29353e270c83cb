-- ===== src/Examples/Authorization.antt =====
-- A grant and its proofs, crates/gridops-core/src/fleet/authorization.rs.
use gridops.Prelude.{
  ◌≡◌, ◌↔◌, refl, true, false, none, some, [], ◌∷◌, ok, ℕ_discrete, String_discrete,
}
use gridops.Prelude.Int.{pos}
use gridops.Domain.Kinds.{docker, linux}
use gridops.Domain.Target.{CiTarget, CiTarget-discrete, github_repository}
use gridops.Authorization.{
  GrantSnapshot, SessionGrantSnapshot, AuthorizationProof, OwnedFixPlacement, ExecuteSandboxProof,
  authenticated_user, schedule, interactive_session, execute_sandbox, Capability-discrete,
  Option_target-discrete, is_ready, contains, validate, authorize, authorize_interactive,
  authorize_sandbox, recheck,
}
use gridops.Authorization.Laws.{Covers, validate_iff, authorize_iff, recheck_iff_authorize}
use gridops.Authorization.Sessions.{
  Interactive, interactive_proof, authorize_interactive_iff, recheck_interactive_iff,
  authorize_sandbox_iff,
}

abbrev repository : CiTarget
repository = github_repository (record { get = 11 }) (record { get = 12 })

abbrev session : SessionGrantSnapshot
session = record {
  session_id = 40;
  host_id = 3;
  target = repository;
  revision = 2;
  target_grant_revision = 5;
  ready = true;
  authorized = true;
}

abbrev grant : GrantSnapshot
grant = record {
  principal = authenticated_user "ana";
  host_id = 3;
  target = some repository;
  capabilities = schedule ∷ interactive_session ∷ execute_sandbox ∷ [];
  revision = 5;
  expires_at_millis = pos 9000;
  revoked = false;
  session = some session;
}

abbrev scheduling : AuthorizationProof
scheduling = record {
  principal = authenticated_user "ana";
  host_id = 3;
  target = some repository;
  capability = schedule;
  revision = 5;
  expires_at_millis = pos 9000;
  session = none;
}

passes_schedule : validate grant 3 (some repository) schedule (pos 8000) ≡ ok tt
unfolding validate contains Capability-discrete Option_target-discrete CiTarget-discrete ℕ_discrete
    String_discrete
passes_schedule = refl

covered : Covers grant 3 (some repository) schedule (pos 8000)
covered = (validate_iff grant 3 (some repository) schedule (pos 8000)).0 passes_schedule

scheduled : authorize grant 3 (some repository) schedule (pos 8000) ≡ ok scheduling
scheduled =
    (authorize_iff grant 3 (some repository) schedule (pos 8000) scheduling).1 (covered, refl)

recheck_iff_authorize_example : recheck grant scheduling (pos 8000) ≡ ok tt
recheck_iff_authorize_example = (recheck_iff_authorize grant scheduling (pos 8000) refl).1 scheduled

passes_interactive_session :
    validate grant 3 (some repository) interactive_session (pos 8000) ≡ ok tt
unfolding validate contains Capability-discrete Option_target-discrete CiTarget-discrete ℕ_discrete
    String_discrete
passes_interactive_session = refl

covered_session : Covers grant 3 (some repository) interactive_session (pos 8000)
covered_session =
    (validate_iff grant 3 (some repository) interactive_session (pos 8000)).0
      passes_interactive_session

interactive : Interactive grant 3 repository session (pos 8000)
unfolding is_ready
interactive = record {
  ready = refl;
  current = refl;
  same_host = refl;
  same_target = refl;
  covered = covered_session;
}

minted :
    authorize_interactive grant 3 repository session (pos 8000)
    ≡ ok (interactive_proof grant 3 repository session)
minted =
    (authorize_interactive_iff grant 3 repository session (pos 8000)
        (interactive_proof grant 3 repository session)).1
      (interactive, refl)

authorize_interactive_iff_example :
    authorize_interactive grant 3 repository session (pos 8000)
    ≡ ok (interactive_proof grant 3 repository session)
authorize_interactive_iff_example =
    (authorize_interactive_iff grant 3 repository session (pos 8000)
        (interactive_proof grant 3 repository session)).1
      (interactive, refl)

recheck_interactive_iff_example :
    (recheck grant (interactive_proof grant 3 repository session).proof (pos 8500) ≡ ok tt) ↔ (
      authorize_interactive grant 3 repository session (pos 8500)
      ≡ ok (interactive_proof grant 3 repository session))
recheck_interactive_iff_example =
    recheck_interactive_iff grant grant 3 repository session (pos 8000) (pos 8500)
      (interactive_proof grant 3 repository session) minted

abbrev sandbox : OwnedFixPlacement
sandbox = record {
  host_id = 3;
  workload_id = 20;
  placement_id = 21;
  generation = 1;
  host_epoch = 1;
  target = repository;
  runtime = docker;
  execution_os = linux;
}

abbrev sandbox_proof : ExecuteSandboxProof
sandbox_proof = record {
  proof = record scheduling { capability = execute_sandbox };
  placement = sandbox;
}

passes_execute_sandbox : validate grant 3 (some repository) execute_sandbox (pos 8000) ≡ ok tt
unfolding validate contains Capability-discrete Option_target-discrete CiTarget-discrete ℕ_discrete
    String_discrete
passes_execute_sandbox = refl

covered_sandbox : Covers grant 3 (some repository) execute_sandbox (pos 8000)
covered_sandbox =
    (validate_iff grant 3 (some repository) execute_sandbox (pos 8000)).0 passes_execute_sandbox

authorize_sandbox_iff_example : authorize_sandbox grant sandbox (pos 8000) ≡ ok sandbox_proof
authorize_sandbox_iff_example =
    (authorize_sandbox_iff grant sandbox (pos 8000) sandbox_proof).1
      (refl, refl, covered_sandbox, refl, refl, refl, refl, refl, refl, refl, refl)
