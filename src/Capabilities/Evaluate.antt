-- ===== src/Capabilities/Evaluate.antt =====
-- `BackendCapabilities::evaluate` of crates/gridops-core/src/fleet/capabilities.rs.
use gridops.Prelude.{
  ℕ, String, String_discrete, Bool, true, false, not, ◌&&◌, ◌||◌, Option, none, some, List, [], ◌∷◌,
  Result, ok, err, ◌>>=◌, ◌>>◌, fail_if, ok_or, eqb, ltb, leb, ◌==◌, if◌then◌else◌, i64_max,
}
use gridops.Prelude.Int.{ℤ, pos, negsuc, ◌-ℤ◌}
use gridops.Domain.Kinds.{
  RuntimeKind, RuntimeKind-discrete, docker, tart_vm, native_process, ExecutionOs,
  ExecutionOs-discrete, linux, macos, windows, Architecture, Architecture-discrete, x64, arm64,
}
use gridops.Domain.Request.{ResourceRequest}
use gridops.Capabilities.Report.{
  SupportedRunner, SupportedRunner-discrete, RunnerMode-discrete, ephemeral, persistent,
  EnvironmentReadiness, EnvironmentCapability, ready, preparable, CpuMemoryEnforcement,
  no_enforcement, DiskEnforcement, no_disk_enforcement, InteractiveCapability,
  requires_authorized_helper, DockerSocketCapability, requires_explicit_grant, CapabilityReport,
  is_bitbucket, member,
}

pub record ExecutionRequirement : Type 0 where
  pub runtime_kind : RuntimeKind
  pub execution_os : ExecutionOs
  pub architecture : Architecture
  pub runner : SupportedRunner
  pub environment : String
  pub resources : ResourceRequest
  pub requires_interactive : Bool
  pub requires_docker_socket : Bool

pub record BackendIdentity : Type 0 where
  pub host_id : ℕ
  pub backend_id : ℕ
  pub runtime_kind : RuntimeKind
  pub execution_os : ExecutionOs
  pub architecture : Architecture

pub record CurrentProbe : Type 0 where
  pub host_id : ℕ
  pub backend_id : ℕ
  pub received_at : ℤ
  pub host_epoch : ℕ
  pub authority_session_id : ℕ
  pub boot_id : String
  pub control_plane_incarnation : ℕ

pub record CurrentAuthority : Type 0 where
  pub host_id : ℕ
  pub host_epoch : ℕ
  pub authority_session_id : ℕ
  pub boot_id : String
  pub control_plane_incarnation : ℕ

pub data CapabilityRejection : Type 0 where
  identity_mismatch authority_mismatch stale_probe incompatible_runtime : CapabilityRejection
  incompatible_os incompatible_architecture unsupported_mode image_unavailable : CapabilityRejection
  resource_unsupported interactive_unsupported docker_socket_unsupported : CapabilityRejection

unfoldable pub reason_code : CapabilityRejection → String
reason_code identity_mismatch = "capability_unverified"
reason_code authority_mismatch = "stale_inventory"
reason_code stale_probe = "stale_health"
reason_code incompatible_runtime = "incompatible_runtime"
reason_code incompatible_os = "incompatible_os"
reason_code incompatible_architecture = "incompatible_architecture"
reason_code unsupported_mode = "unsupported_mode"
reason_code image_unavailable = "image_unavailable"
reason_code resource_unsupported = "resource_unsupported"
reason_code interactive_unsupported = "session_unavailable"
reason_code docker_socket_unsupported = "capability_unverified"

unfoldable pub static_compatibility : ExecutionRequirement → Result CapabilityRejection (Unit {0})
static_compatibility q = do
  fail_if
      (eqb RuntimeKind-discrete q.runtime_kind docker
        && not (eqb ExecutionOs-discrete q.execution_os linux))
      incompatible_os
  let tart = eqb RuntimeKind-discrete q.runtime_kind tart_vm
  fail_if (tart && not (eqb ExecutionOs-discrete q.execution_os macos)) incompatible_os
  fail_if (tart && not (eqb Architecture-discrete q.architecture arm64)) incompatible_architecture
  fail_if
      (tart
        && (not (is_bitbucket q.runner.target_kind)
            && not (eqb RunnerMode-discrete q.runner.mode ephemeral)))
      unsupported_mode
  let bitbucket = is_bitbucket q.runner.target_kind
  fail_if (bitbucket && not (eqb RunnerMode-discrete q.runner.mode persistent)) unsupported_mode
  fail_if
      (bitbucket
        && (eqb ExecutionOs-discrete q.execution_os windows
            && (not (eqb Architecture-discrete q.architecture x64)
                || not (eqb RuntimeKind-discrete q.runtime_kind native_process))))
      incompatible_architecture

-- `i64::checked_sub`.
unfoldable pub checked_sub_ℤ : ℤ → ℤ → Option ℤ
checked_sub_ℤ a b = elim (a -ℤ b) [
  | pos n ↦ if leb n i64_max then some (pos n) else none
  | negsuc n ↦ if leb n i64_max then some (negsuc n) else none
]

-- `(0..45_000).contains(&age)`.
unfoldable pub is_recent : ℤ → Bool
is_recent (pos n) = ltb n 45000
is_recent (negsuc n) = false

abbrev pub is_usable : EnvironmentReadiness → Bool
is_usable ready = true
is_usable preparable = true
is_usable _ = false

-- The first listed environment with this reference that is ready or can be prepared.
unfoldable pub find_environment : String → List EnvironmentCapability → Option EnvironmentReadiness
find_environment reference [] = none
find_environment reference (e ∷ es) =
    if eqb String_discrete e.reference reference && is_usable e.readiness
    then some e.readiness
    else find_environment reference es

abbrev pub environment_readiness :
    Option EnvironmentReadiness → Bool → Result CapabilityRejection EnvironmentReadiness
environment_readiness (some r) any_image = ok r
environment_readiness none true = ok preparable
environment_readiness none false = err image_unavailable

abbrev pub enforces : CpuMemoryEnforcement → Bool
enforces no_enforcement = false
enforces _ = true

abbrev pub enforces_disk : DiskEnforcement → Bool
enforces_disk no_disk_enforcement = false
enforces_disk _ = true

abbrev pub has_helper : InteractiveCapability → Bool
has_helper requires_authorized_helper = true
has_helper _ = false

abbrev pub has_socket : DockerSocketCapability → Bool
has_socket requires_explicit_grant = true
has_socket _ = false

-- The tests on the backend's identity and on the probe, up to the probe's age.
unfoldable pub check_probe :
    CapabilityReport
    → BackendIdentity
    → Option CurrentProbe
    → CurrentAuthority
    → ℤ
    → Result CapabilityRejection (Unit {0})
check_probe report identity probe authority now = do
  fail_if
      (not (
        eqb RuntimeKind-discrete report.runtime_kind identity.runtime_kind
        && eqb ExecutionOs-discrete report.execution_os identity.execution_os
        && eqb Architecture-discrete report.architecture identity.architecture))
      identity_mismatch
  p ← ok_or probe stale_probe
  fail_if
      (not (p.host_id == identity.host_id)
        || not (p.backend_id == identity.backend_id)
        || not (authority.host_id == identity.host_id)
        || not (p.host_epoch == authority.host_epoch)
        || not (p.authority_session_id == authority.authority_session_id)
        || not (eqb String_discrete p.boot_id authority.boot_id)
        || not (p.control_plane_incarnation == authority.control_plane_incarnation))
      authority_mismatch
  age ← ok_or (checked_sub_ℤ now p.received_at) stale_probe
  fail_if (not (is_recent age)) stale_probe

-- The platform and the runner that the requirement asks for.
unfoldable pub check_platform :
    CapabilityReport → ExecutionRequirement → Result CapabilityRejection (Unit {0})
check_platform report q = do
  fail_if (not (eqb RuntimeKind-discrete report.runtime_kind q.runtime_kind)) incompatible_runtime
  fail_if (not (eqb ExecutionOs-discrete report.execution_os q.execution_os)) incompatible_os
  fail_if (not (eqb Architecture-discrete report.architecture q.architecture))
      incompatible_architecture
  static_compatibility q
  fail_if (not (member SupportedRunner-discrete q.runner report.supported_runners)) unsupported_mode

-- The accounting and the privileges that it asks for.
unfoldable pub check_powers :
    CapabilityReport → ExecutionRequirement → Result CapabilityRejection (Unit {0})
check_powers report q = do
  fail_if
      ((ltb 0 q.resources.cpu_millis && not (enforces report.resources.cpu))
        || (ltb 0 q.resources.memory_mib && not (enforces report.resources.memory))
        || (ltb 0 q.resources.disk_bytes && not (enforces_disk report.resources.disk)))
      resource_unsupported
  fail_if (q.requires_interactive && not (has_helper report.interactive)) interactive_unsupported
  fail_if (q.requires_docker_socket && not (has_socket report.docker_socket))
      docker_socket_unsupported

unfoldable pub evaluate :
    CapabilityReport
    → BackendIdentity
    → ExecutionRequirement
    → Option CurrentProbe
    → CurrentAuthority
    → ℤ
    → Result CapabilityRejection EnvironmentReadiness
evaluate report identity q probe authority now = do
  check_probe report identity probe authority now
  check_platform report q
  readiness ←
      environment_readiness (find_environment q.environment report.environments) report.any_image
  check_powers report q
  ok readiness
