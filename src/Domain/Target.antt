-- ===== src/Domain/Target.antt =====
-- `ExternalId` and `CiTarget` of crates/gridops-core/src/fleet/domain.rs. A UUID is a number
-- below 2^128 whose nil value is 0; identifiers of upstream systems are numbers or texts.
use gridops.Prelude.{
  ℕ, String, String_discrete, ℕ_discrete, Bool, true, false, not, ◌||◌, Result, ok, err, ltb, ◌==◌,
  if◌then◌else◌, i64_max,
}

pub record ExternalIdError : Type 0 where
  pub value : ℕ
  pub max : ℕ

pub record ExternalId : Type 0 where
  pub get : ℕ

unfoldable pub try_from : ℕ → Result ExternalIdError ExternalId
try_from value =
    if value == 0 || ltb i64_max value
    then err (record { value = value; max = i64_max })
    else ok (record { get = value })

pub data NilFleetUuid : Type 0 where
  nil : NilFleetUuid

pub record NonNilTargetUuid : Type 0 where
  pub as_uuid : ℕ

unfoldable pub non_nil : ℕ → Result NilFleetUuid NonNilTargetUuid
non_nil value = if value == 0 then err nil else ok (record { as_uuid = value })

pub data CiTarget : Type 0 where
  github_repository : ExternalId → ExternalId → CiTarget
  github_organization : ExternalId → ExternalId → CiTarget
  bitbucket_workspace : String → NonNilTargetUuid → CiTarget
  bitbucket_repository : String → NonNilTargetUuid → NonNilTargetUuid → CiTarget

unfoldable pub CiTarget-discrete : Discrete CiTarget
unfolding ℕ_discrete String_discrete
CiTarget-discrete = hlevel (ℕ_discrete, String_discrete)

unfoldable pub is_github : CiTarget → Bool
is_github (github_repository i r) = true
is_github (github_organization i o) = true
is_github _ = false

unfoldable pub is_bitbucket : CiTarget → Bool
unfolding is_github
is_bitbucket t = not (is_github t)
