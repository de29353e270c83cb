-- ===== src/Capabilities/Report.antt =====
-- The report of crates/gridops-core/src/fleet/capabilities.rs and the checks that decoding makes.
use gridops.Prelude.{
  ℕ, String, String_discrete, Bool, true, false, not, ◌||◌, Option, List, [], ◌∷◌, map, Result, ok,
  ◌>>◌, fail_if, eqb, ltb, ◌==◌, length, if◌then◌else◌,
}
use gridops.Protocol.Primitives.{ContractError, payload_too_large, invalid_text}
use gridops.Domain.Kinds.{RuntimeKind, ExecutionOs, Architecture}
use gridops.Domain.Target.{
  CiTarget, github_repository, github_organization, bitbucket_workspace, bitbucket_repository,
}

pub data TargetKind : Type 0 where
  github_repository_kind github_organization_kind : TargetKind
  bitbucket_workspace_kind bitbucket_repository_kind : TargetKind

unfoldable pub target_kind_of : CiTarget → TargetKind
target_kind_of (github_repository i r) = github_repository_kind
target_kind_of (github_organization i o) = github_organization_kind
target_kind_of (bitbucket_workspace c w) = bitbucket_workspace_kind
target_kind_of (bitbucket_repository c w r) = bitbucket_repository_kind

unfoldable pub is_bitbucket : TargetKind → Bool
is_bitbucket bitbucket_workspace_kind = true
is_bitbucket bitbucket_repository_kind = true
is_bitbucket _ = false

pub data RunnerMode : Type 0 where
  ephemeral persistent : RunnerMode

pub record SupportedRunner : Type 0 where
  pub target_kind : TargetKind
  pub mode : RunnerMode

unfoldable pub SupportedRunner-discrete : Discrete SupportedRunner
SupportedRunner-discrete = hlevel

unfoldable pub RunnerMode-discrete : Discrete RunnerMode
RunnerMode-discrete = hlevel

pub data EnvironmentReadiness : Type 0 where
  ready preparable unavailable unknown : EnvironmentReadiness

-- `ImageReference` and `UpstreamText` are checked texts.
pub record EnvironmentCapability : Type 0 where
  pub reference : String
  pub readiness : EnvironmentReadiness
  pub version : Option String

pub data CpuMemoryEnforcement : Type 0 where
  reservation hard_limit no_enforcement : CpuMemoryEnforcement

pub data DiskEnforcement : Type 0 where
  estimate quota no_disk_enforcement : DiskEnforcement

pub record ResourceEnforcement : Type 0 where
  pub cpu : CpuMemoryEnforcement
  pub memory : CpuMemoryEnforcement
  pub disk : DiskEnforcement

pub data InteractiveCapability : Type 0 where
  no_interactive requires_authorized_helper : InteractiveCapability

pub data DockerSocketCapability : Type 0 where
  no_docker_socket requires_explicit_grant : DockerSocketCapability

pub record CapabilityReport : Type 0 where
  pub schema_version : ℕ
  pub runtime_kind : RuntimeKind
  pub execution_os : ExecutionOs
  pub architecture : Architecture
  pub supported_runners : List SupportedRunner
  pub environments : List EnvironmentCapability
  pub any_image : Bool
  pub resources : ResourceEnforcement
  pub interactive : InteractiveCapability
  pub docker_socket : DockerSocketCapability

module _ {ℓ} {A : Type ℓ} (d : Discrete A) where
  abbrev pub member : A → List A → Bool
  member a [] = false
  member a (x ∷ xs) = eqb d x a || member a xs

  -- Collecting into a `HashSet`: each value once, whatever the order.
  abbrev pub distinct : List A → List A
  distinct [] = []
  distinct (x ∷ xs) = let rest = distinct xs in if member x rest then rest else x ∷ rest

-- `TryFrom<CapabilityReport>`.
unfoldable pub try_from : CapabilityReport → Result ContractError CapabilityReport
try_from report = do
  fail_if (ltb 32 (length report.supported_runners) || ltb 128 (length report.environments))
      payload_too_large
  fail_if
      (not (
          length (distinct SupportedRunner-discrete report.supported_runners)
          == length report.supported_runners)
        || not (
            length (distinct String_discrete (map (λ e. e.reference) report.environments))
            == length report.environments))
      invalid_text
  ok report
