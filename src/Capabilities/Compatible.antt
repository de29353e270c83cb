-- ===== src/Capabilities/Compatible.antt =====
-- When `evaluate` of crates/gridops-core/src/fleet/capabilities.rs finds a backend compatible.
use mathlib.Core.List.{Memᴰ}
use gridops.Prelude.{
  ◌≤◌, ◌<◌, ◌≡◌, ◌↔◌, ◌⊎◌, inl, inr, refl, true, Option, Option-cases, Bool-cases, String_discrete,
  eqb, ◌&&◌, none, ◌≢◌, String, some, List, [], ◌∷◌, ok, arith,
}
use gridops.Prelude.Int.{ℤ, pos, ◌+ℤ◌, pos_part, neg_part, ◌≤ℤ◌, ◌<ℤ◌, ◌-ℤ◌}
use gridops.Capabilities.Report.{
  SupportedRunner-discrete, EnvironmentReadiness, EnvironmentCapability, preparable,
  CapabilityReport, member,
}
use gridops.Capabilities.Evaluate.{
  ExecutionRequirement, BackendIdentity, CurrentProbe, CurrentAuthority, static_compatibility,
  checked_sub_ℤ, is_recent, is_usable, find_environment, environment_readiness, enforces,
  enforces_disk, has_helper, has_socket, check_probe, check_platform, check_powers, evaluate,
}
use gridops.Capabilities.Usable.{IsFirstUsable, NoneUsable, image_iff}
use gridops.Capabilities.Static.{IsSupported, static_compatibility_iff}

-- The milliseconds that a wire timestamp can stand for: the years 0 to 9999.
abbrev pub IsWireTime : ℤ → Type 0
IsWireTime t = (pos_part t ≤ 253402300799999) × (neg_part t ≤ 62167219200000)

-- The probe and the authority are about this backend, its session and its boot, and the probe is
-- less than 45 seconds old and not from the future.
pub record IsCurrent (report : CapabilityReport) (identity : BackendIdentity) (p : CurrentProbe)
    (authority : CurrentAuthority) (now : ℤ) : Type 0 where
  pub runtime : report.runtime_kind ≡ identity.runtime_kind
  pub os : report.execution_os ≡ identity.execution_os
  pub architecture : report.architecture ≡ identity.architecture
  pub probe_host : p.host_id ≡ identity.host_id
  pub probe_backend : p.backend_id ≡ identity.backend_id
  pub authority_host : authority.host_id ≡ identity.host_id
  pub epoch : p.host_epoch ≡ authority.host_epoch
  pub session : p.authority_session_id ≡ authority.authority_session_id
  pub boot : p.boot_id ≡ authority.boot_id
  pub incarnation : p.control_plane_incarnation ≡ authority.control_plane_incarnation
  pub received : p.received_at ≤ℤ now
  pub recent : now <ℤ p.received_at +ℤ pos 45000

probe_age :
    (now received : ℤ)
    → IsWireTime now
    → IsWireTime received
    → (checked_sub_ℤ now received ≡ some (now -ℤ received))
      × ((is_recent (now -ℤ received) ≡ true)
          ↔ ((received ≤ℤ now) × (now <ℤ received +ℤ pos 45000)))
unfolding ◌-ℤ◌ ◌+ℤ◌ checked_sub_ℤ is_recent
probe_age now received a b = (ground arith, (λ e. ground arith, λ e. ground arith))

check_probe_iff :
    (report : CapabilityReport) (identity : BackendIdentity) (p : CurrentProbe)
    (authority : CurrentAuthority) (now : ℤ)
    → IsWireTime now
    → IsWireTime p.received_at
    → (check_probe report identity (some p) authority now ≡ ok tt)
      ↔ IsCurrent report identity p authority now
unfolding check_probe
check_probe_iff report identity p authority now a b =
    let (age, fresh) = probe_age now p.received_at a b in
    (λ e. ground (arith, age, fresh.0), λ v. ground (arith, age, fresh.1))

-- The requirement is for the platform that the report describes, within the static ceilings, and
-- for a kind of runner that it lists.
pub record IsPlatform (report : CapabilityReport) (q : ExecutionRequirement) : Type 0 where
  pub same_runtime : report.runtime_kind ≡ q.runtime_kind
  pub same_os : report.execution_os ≡ q.execution_os
  pub same_architecture : report.architecture ≡ q.architecture
  pub supported : IsSupported q
  pub runner_listed : member SupportedRunner-discrete q.runner report.supported_runners ≡ true

-- Each power that the requirement needs is one that the report offers.
pub record IsPowered (report : CapabilityReport) (q : ExecutionRequirement) : Type 0 where
  pub cpu_enforced : 0 < q.resources.cpu_millis → enforces report.resources.cpu ≡ true
  pub memory_enforced : 0 < q.resources.memory_mib → enforces report.resources.memory ≡ true
  pub disk_enforced : 0 < q.resources.disk_bytes → enforces_disk report.resources.disk ≡ true
  pub interactive_offered : q.requires_interactive ≡ true → has_helper report.interactive ≡ true
  pub socket_offered : q.requires_docker_socket ≡ true → has_socket report.docker_socket ≡ true

check_platform_iff :
    (report : CapabilityReport) (q : ExecutionRequirement)
    → (check_platform report q ≡ ok tt) ↔ IsPlatform report q
unfolding check_platform
check_platform_iff report q = (
  λ e.
      let supported : static_compatibility q ≡ ok tt = ground arith in
      record {
        same_runtime = ground arith;
        same_os = ground arith;
        same_architecture = ground arith;
        supported = (static_compatibility_iff q).0 supported;
        runner_listed = ground arith;
      },
  λ v. let supported = (static_compatibility_iff q).1 v.supported in ground (arith, supported),
)

check_powers_iff :
    (report : CapabilityReport) (q : ExecutionRequirement)
    → (check_powers report q ≡ ok tt) ↔ IsPowered report q
unfolding check_powers
check_powers_iff report q = (λ e. ground arith, λ v. ground arith)

-- Where the clock and the probe's time are times that the wire can carry, a backend is found
-- compatible exactly when its probe is current, the platform is the one asked for, the image can be
-- run, and the powers asked for are offered. The image can be run when a listed environment with
-- its reference is ready or preparable, and the first such gives the readiness returned; or when
-- there is none, the backend runs any image, and `preparable` is returned.
pub evaluate_iff :
    (report : CapabilityReport) (identity : BackendIdentity) (q : ExecutionRequirement)
    (p : CurrentProbe) (authority : CurrentAuthority) (now : ℤ) (r : EnvironmentReadiness)
    → IsWireTime now
    → IsWireTime p.received_at
    → (evaluate report identity q (some p) authority now ≡ ok r) ↔ (
        IsCurrent report identity p authority now
        × IsPlatform report q
        × (IsFirstUsable q.environment report.environments r
            ⊎ (NoneUsable q.environment report.environments
                × (report.any_image ≡ true)
                × (r ≡ preparable)))
        × IsPowered report q)
unfolding evaluate
evaluate_iff report identity q p authority now r a b =
    let probed = check_probe_iff report identity p authority now a b in
    let platform = check_platform_iff report q in
    let powers = check_powers_iff report q in
    let image = image_iff q.environment report.environments report.any_image r in
    (
      λ e.
          let parts : (check_probe report identity (some p) authority now ≡ ok tt)
              × (check_platform report q ≡ ok tt)
              × (environment_readiness (find_environment q.environment report.environments)
                    report.any_image
                  ≡ ok r)
              × (check_powers report q ≡ ok tt) =
            ground arith in
          (probed.0 parts.0, platform.0 parts.1, image.0 parts.2, powers.0 parts.3),
      λ v. ground (arith, probed.1 v.0, platform.1 v.1, image.1 v.2, powers.1 v.3),
    )

-- Without a probe no backend is compatible.
pub evaluate_unprobed :
    (report : CapabilityReport) (identity : BackendIdentity) (q : ExecutionRequirement)
    (authority : CurrentAuthority) (now : ℤ) (r : EnvironmentReadiness)
    → evaluate report identity q none authority now ≢ ok r
unfolding evaluate check_probe
evaluate_unprobed report identity q authority now r e = ground arith

-- The readiness found is `ready` or `preparable`, and comes from a listed environment with the
-- image that is asked for unless the backend runs any image.
find_environment-Listed :
    (image : String) (es : List EnvironmentCapability) (r : EnvironmentReadiness)
    → find_environment image es ≡ some r
    → (is_usable r ≡ true)
      × ((e : EnvironmentCapability) × Memᴰ e es × (e.reference ≡ image) × (e.readiness ≡ r))
unfolding find_environment
find_environment-Listed image [] r h = ground arith
find_environment-Listed image (e ∷ es) r h =
    elim (Bool-cases (eqb String_discrete e.reference image && is_usable e.readiness)) [
      | inl hit ↦
          let here : (is_usable r ≡ true) × (e.reference ≡ image) × (e.readiness ≡ r) =
            ground arith in
          (here.0, (e, Memᴰ.head refl, here.1, here.2))
      | inr miss ↦
          let (usable, found) = find_environment-Listed image es r (ground arith) in
          (usable, (found.0, Memᴰ.tail found.1, found.2, found.3))
    ]

-- A compatible backend either lists the image that is asked for as ready or preparable, and that
-- is the readiness returned, or it runs any image and the readiness is `preparable`.
pub evaluate_image :
    (report : CapabilityReport) (identity : BackendIdentity) (q : ExecutionRequirement)
    (p : Option CurrentProbe) (authority : CurrentAuthority) (now : ℤ) (r : EnvironmentReadiness)
    → evaluate report identity q p authority now ≡ ok r
    → (is_usable r ≡ true)
      × (((e : EnvironmentCapability) × Memᴰ e report.environments
            × (e.reference ≡ q.environment)
            × (e.readiness ≡ r))
          ⊎ ((report.any_image ≡ true) × (r ≡ preparable)))
unfolding evaluate
evaluate_image report identity q p authority now r h =
    elim (Option-cases (find_environment q.environment report.environments)) [
      | inl missing ↦
          let any : (report.any_image ≡ true) × (r ≡ preparable) = ground arith in
          (ground arith, inr any)
      | inr (s, found) ↦
          let listed = find_environment-Listed q.environment report.environments s found in
          let same : s ≡ r = ground arith in (rw same at listed.0, inl (rw same at listed.1))
    ]
