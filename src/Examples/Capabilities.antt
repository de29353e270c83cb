-- ===== src/Examples/Capabilities.antt =====
-- A Docker backend and a requirement for it, crates/gridops-core/src/fleet/capabilities.rs.
use gridops.Prelude.{
  true, ◌⊎◌, ◌≤◌, ◌≡◌, ◌≢◌, refl, false, none, some, [], ◌∷◌, map, ok, arith, String_discrete,
}
use gridops.Prelude.Int.{pos, ◌-ℤ◌}
use gridops.Domain.Kinds.{
  docker, linux, x64, RuntimeKind-discrete, ExecutionOs-discrete, Architecture-discrete,
}
use gridops.Capabilities.Report.{
  CapabilityReport, SupportedRunner, SupportedRunner-discrete, RunnerMode-discrete,
  EnvironmentCapability, github_repository_kind, ephemeral, ready, hard_limit, estimate,
  no_interactive, no_docker_socket, try_from, is_bitbucket,
}
use gridops.Capabilities.Evaluate.{
  ExecutionRequirement, BackendIdentity, CurrentProbe, CurrentAuthority, static_compatibility,
  evaluate, check_probe, check_platform, check_powers, find_environment, checked_sub_ℤ, is_recent,
}
use gridops.Capabilities.Static.{IsSupported, static_compatibility_iff}
use gridops.Capabilities.Compatible.{
  IsWireTime, IsCurrent, IsPlatform, IsPowered, evaluate_iff, evaluate_unprobed,
}
use gridops.Capabilities.Report.{preparable}
use gridops.Capabilities.Usable.{IsFirstUsable, NoneUsable}
use gridops.Capabilities.Decoded.{AreDistinct, try_from-report_iff}

abbrev runner : SupportedRunner
runner = record { target_kind = github_repository_kind; mode = ephemeral }

abbrev image : EnvironmentCapability
image = record { reference = "ubuntu"; readiness = ready; version = none }

abbrev report : CapabilityReport
report = record {
  schema_version = 1;
  runtime_kind = docker;
  execution_os = linux;
  architecture = x64;
  supported_runners = runner ∷ [];
  environments = image ∷ [];
  any_image = false;
  resources = record { cpu = hard_limit; memory = hard_limit; disk = estimate };
  interactive = no_interactive;
  docker_socket = no_docker_socket;
}

abbrev identity : BackendIdentity
identity = record {
  host_id = 1;
  backend_id = 2;
  runtime_kind = docker;
  execution_os = linux;
  architecture = x64;
}

abbrev requirement : ExecutionRequirement
requirement = record {
  runtime_kind = docker;
  execution_os = linux;
  architecture = x64;
  runner = runner;
  environment = "ubuntu";
  resources = record { cpu_millis = 1000; memory_mib = 512; disk_bytes = 0 };
  requires_interactive = false;
  requires_docker_socket = false;
}

abbrev probe : CurrentProbe
probe = record {
  host_id = 1;
  backend_id = 2;
  received_at = pos 100000;
  host_epoch = 4;
  authority_session_id = 5;
  boot_id = "boot";
  control_plane_incarnation = 6;
}

abbrev authority : CurrentAuthority
authority = record {
  host_id = 1;
  host_epoch = 4;
  authority_session_id = 5;
  boot_id = "boot";
  control_plane_incarnation = 6;
}

compatible : evaluate report identity requirement (some probe) authority (pos 120000) ≡ ok ready
unfolding evaluate check_probe check_platform check_powers find_environment static_compatibility
    checked_sub_ℤ is_recent is_bitbucket ◌-ℤ◌ RuntimeKind-discrete ExecutionOs-discrete
    Architecture-discrete SupportedRunner-discrete RunnerMode-discrete String_discrete
compatible = refl

now-IsWireTime : IsWireTime (pos 120000)
now-IsWireTime = ground arith

probe-IsWireTime : IsWireTime (pos 100000)
probe-IsWireTime = ground arith

evaluate_iff_example :
    IsCurrent report identity probe authority (pos 120000)
    × IsPlatform report requirement
    × (IsFirstUsable "ubuntu" (image ∷ []) ready
        ⊎ (NoneUsable "ubuntu" (image ∷ []) × (false ≡ true) × (ready ≡ preparable)))
    × IsPowered report requirement
evaluate_iff_example =
    (evaluate_iff report identity requirement probe authority (pos 120000) ready now-IsWireTime
        probe-IsWireTime).0
      compatible

evaluate_unprobed_example :
    evaluate report identity requirement none authority (pos 120000) ≢ ok ready
evaluate_unprobed_example =
    evaluate_unprobed report identity requirement authority (pos 120000) ready

supported : static_compatibility requirement ≡ ok tt
unfolding static_compatibility is_bitbucket RuntimeKind-discrete ExecutionOs-discrete
    Architecture-discrete RunnerMode-discrete
supported = refl

static_compatibility_iff_example : IsSupported requirement
static_compatibility_iff_example = (static_compatibility_iff requirement).0 supported

decoded : try_from report ≡ ok report
unfolding try_from SupportedRunner-discrete String_discrete
decoded = refl

try_from-report_iff_example :
    (report ≡ report)
    × (1 ≤ 32)
    × (1 ≤ 128)
    × AreDistinct SupportedRunner-discrete (runner ∷ [])
    × AreDistinct String_discrete (map (λ e. e.reference) (image ∷ []))
try_from-report_iff_example = (try_from-report_iff report report).0 decoded
