-- ===== src/Authorization.antt =====
-- crates/gridops-core/src/fleet/authorization.rs: grant snapshots, the proofs they mint, and the
-- recheck of a proof. Identifiers are numbers; times are milliseconds in i64.
pub mod Laws
pub mod Sessions
use gridops.Prelude.{
  ℕ, String, String_discrete, ℕ_discrete, Bool, true, false, not, ◌&&◌, ◌||◌, Option, none, some,
  List, [], ◌∷◌, Result, ok, err, ◌>>=◌, ◌>>◌, fail_if, eqb, ◌==◌, if◌then◌else◌,
}
use gridops.Prelude.Int.{ℤ, ℤ-discrete, ltb_ℤ}
use gridops.Domain.Kinds.{
  RuntimeKind, RuntimeKind-discrete, docker, ExecutionOs, ExecutionOs-discrete, linux,
}
use gridops.Domain.Target.{CiTarget, CiTarget-discrete}

pub data Principal : Type 0 where
  authenticated_user : String → Principal
  reconciler autoscaler fix_agent : Principal

unfoldable pub Principal-discrete : Discrete Principal
unfolding String_discrete
Principal-discrete = hlevel String_discrete

pub data Capability : Type 0 where
  read_host read_workload enroll_host schedule drain_host maintain_host retire_host : Capability
  revoke_host native_execution interactive_session docker_socket execute_sandbox : Capability

unfoldable pub Capability-discrete : Discrete Capability
Capability-discrete = hlevel

pub record SessionGrantSnapshot : Type 0 where
  pub session_id : ℕ
  pub host_id : ℕ
  pub target : CiTarget
  pub revision : ℕ
  pub target_grant_revision : ℕ
  pub ready : Bool
  pub authorized : Bool

unfoldable pub Option_target-discrete : Discrete (Option CiTarget)
unfolding CiTarget-discrete
Option_target-discrete = hlevel CiTarget-discrete

unfoldable pub SessionGrantSnapshot-discrete : Discrete SessionGrantSnapshot
unfolding CiTarget-discrete ℕ_discrete
SessionGrantSnapshot-discrete = hlevel (CiTarget-discrete, ℕ_discrete)

unfoldable pub is_ready : SessionGrantSnapshot → Bool
is_ready s = s.ready && s.authorized

-- The `BTreeSet` of capabilities is read by membership alone.
pub record GrantSnapshot : Type 0 where
  pub principal : Principal
  pub host_id : ℕ
  pub target : Option CiTarget
  pub capabilities : List Capability
  pub revision : ℕ
  pub expires_at_millis : ℤ
  pub revoked : Bool
  pub session : Option SessionGrantSnapshot

pub data AuthorizationError : Type 0 where
  grant_revoked expired wrong_host target_mismatch missing_capability : AuthorizationError
  stale_proof session_unavailable session_mismatch unsupported_sandbox : AuthorizationError

pub record AuthorizationProof : Type 0 where
  pub principal : Principal
  pub host_id : ℕ
  pub target : Option CiTarget
  pub capability : Capability
  pub revision : ℕ
  pub expires_at_millis : ℤ
  pub session : Option SessionGrantSnapshot

pub record InteractiveSessionProof : Type 0 where
  pub proof : AuthorizationProof
  pub session_id : ℕ

pub record OwnedFixPlacement : Type 0 where
  pub host_id : ℕ
  pub workload_id : ℕ
  pub placement_id : ℕ
  pub generation : ℕ
  pub host_epoch : ℕ
  pub target : CiTarget
  pub runtime : RuntimeKind
  pub execution_os : ExecutionOs

pub record ExecuteSandboxProof : Type 0 where
  pub proof : AuthorizationProof
  pub placement : OwnedFixPlacement

unfoldable pub contains : List Capability → Capability → Bool
unfolding Capability-discrete
contains [] c = false
contains (x ∷ xs) c = eqb Capability-discrete x c || contains xs c

unfoldable pub validate :
    GrantSnapshot → ℕ → Option CiTarget → Capability → ℤ → Result AuthorizationError (Unit {0})
validate g host target capability now = do
  fail_if g.revoked grant_revoked
  fail_if (not (ltb_ℤ now g.expires_at_millis)) expired
  fail_if (not (g.host_id == host)) wrong_host
  fail_if (not (eqb Option_target-discrete g.target target)) target_mismatch
  fail_if (not (contains g.capabilities capability)) missing_capability

unfoldable pub authorize :
    GrantSnapshot
    → ℕ
    → Option CiTarget
    → Capability
    → ℤ
    → Result AuthorizationError AuthorizationProof
authorize g host target capability now = do
  validate g host target capability now
  ok (record {
    principal = g.principal;
    host_id = host;
    target = target;
    capability = capability;
    revision = g.revision;
    expires_at_millis = g.expires_at_millis;
    session = none;
  })

-- `NativeExecutionProof` and `DockerSocketProof` wrap the proof.
unfoldable pub authorize_native :
    GrantSnapshot → ℕ → CiTarget → ℤ → Result AuthorizationError AuthorizationProof
authorize_native g host target now = authorize g host (some target) native_execution now

unfoldable pub authorize_docker_socket :
    GrantSnapshot → ℕ → CiTarget → ℤ → Result AuthorizationError AuthorizationProof
authorize_docker_socket g host target now = authorize g host (some target) docker_socket now

abbrev same_session : Option SessionGrantSnapshot → SessionGrantSnapshot → Bool
same_session none s = false
same_session (some t) s = eqb SessionGrantSnapshot-discrete t s

unfoldable pub authorize_interactive :
    GrantSnapshot
    → ℕ
    → CiTarget
    → SessionGrantSnapshot
    → ℤ
    → Result AuthorizationError InteractiveSessionProof
authorize_interactive g host target session now = do
  fail_if (not (is_ready session)) session_unavailable
  fail_if
      (not (same_session g.session session)
        || not (session.host_id == host)
        || not (eqb CiTarget-discrete session.target target))
      session_mismatch
  proof ← authorize g host (some target) interactive_session now
  ok (record { proof = record proof { session = some session }; session_id = session.session_id })

unfoldable pub authorize_sandbox :
    GrantSnapshot → OwnedFixPlacement → ℤ → Result AuthorizationError ExecuteSandboxProof
authorize_sandbox g p now = do
  fail_if
      (not (eqb RuntimeKind-discrete p.runtime docker)
        || not (eqb ExecutionOs-discrete p.execution_os linux))
      unsupported_sandbox
  fail_if (not (p.host_id == g.host_id)) wrong_host
  fail_if (not (eqb Option_target-discrete g.target (some p.target))) target_mismatch
  proof ← authorize g p.host_id (some p.target) execute_sandbox now
  ok (record { proof = proof; placement = p })

-- The `if let Some(expected)` of `recheck`.
recheck_session :
    Option SessionGrantSnapshot
    → AuthorizationProof
    → Option SessionGrantSnapshot
    → Result AuthorizationError (Unit {0})
recheck_session none p current = ok tt
recheck_session (some expected) p none = err session_mismatch
recheck_session (some expected) p (some session) =
    fail_if
      (not (is_ready session)
        || not (eqb SessionGrantSnapshot-discrete session expected)
        || not (session.host_id == p.host_id)
        || not (eqb Option_target-discrete (some session.target) p.target))
      session_mismatch

unfoldable pub recheck :
    GrantSnapshot → AuthorizationProof → ℤ → Result AuthorizationError (Unit {0})
unfolding recheck_session
recheck g p now = do
  validate g p.host_id p.target p.capability now
  fail_if
      (not (eqb Principal-discrete p.principal g.principal)
        || not (p.revision == g.revision)
        || not (eqb ℤ-discrete p.expires_at_millis g.expires_at_millis))
      stale_proof
  recheck_session p.session p g.session
