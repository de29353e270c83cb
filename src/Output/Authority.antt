-- ===== src/Output/Authority.antt =====
-- Who may write a placement's output: `authorize_output` of
-- crates/gridops-core/src/fleet/registry/output.rs and `ensure_authenticated_generation` of
-- crates/gridops-core/src/fleet/registry/mod.rs. Tables are lists of rows, a nullable column is an
-- option, and the columns are those that the two queries read.
pub mod Laws
use gridops.Prelude.{
  ℕ, ◌+◌, suc, String, Bool, true, false, not, ◌&&◌, ◌||◌, Option, none, some, List, [], ◌∷◌,
  Result, ok, err, ◌>>=◌, ◌>>◌, fail_if, ok_or, eqb, ◌==◌, if◌then◌else◌,
}
use gridops.Prelude.Int.{ℤ, ltb_ℤ}
use gridops.Domain.Host.{
  EnrollmentState, EnrollmentState-discrete, revoked, HostIntent, HostIntent-discrete, retired,
}

pub data RegistryError : Type 0 where
  forbidden not_found invalid_credential io_failure database : RegistryError
  invalid_request : String → RegistryError

-- `fleet_hosts`.
pub record HostRow : Type 0 where
  pub id : ℕ
  pub epoch : ℕ
  pub agent_session_id : Option ℕ
  pub authority_expires_at : Option ℤ
  pub enrollment_state : EnrollmentState
  pub lifecycle_state : HostIntent

-- `host_credentials`.
pub record Credential : Type 0 where
  pub id : ℕ
  pub host_id : ℕ
  pub generation : ℕ
  pub host_epoch : ℕ
  pub revoked_at : Option ℤ
  pub overlap_expires_at : Option ℤ

-- `workload_placements`.
pub record PlacementRow : Type 0 where
  pub id : ℕ
  pub host_id : ℕ
  pub host_epoch : ℕ
  pub runner_id : Option ℕ

pub record Registry : Type 0 where
  pub hosts : List HostRow
  pub credentials : List Credential
  pub placements : List PlacementRow
  pub runners : List ℕ

pub record AuthenticatedHost : Type 0 where
  pub host_id : ℕ
  pub credential_id : ℕ
  pub generation : ℕ
  pub epoch : ℕ

abbrev pub is_null : Option ℤ → Bool
is_null none = true
is_null (some t) = false

-- `x > ?` in SQL: false when the column is null.
abbrev pub later_than : Option ℤ → ℤ → Bool
later_than none now = false
later_than (some t) now = ltb_ℤ now t

abbrev pub holds : Option ℕ → ℕ → Bool
holds none x = false
holds (some y) x = y == x

-- The WHERE clause on one joined pair of rows.
unfoldable pub is_current : AuthenticatedHost → ℤ → Credential → HostRow → Bool
is_current a now c h =
    (h.id == c.host_id && c.id == a.credential_id && c.host_id == a.host_id)
    && (c.generation == a.generation && c.host_epoch == a.epoch && h.epoch == a.epoch)
    && (is_null c.revoked_at
        && (is_null c.overlap_expires_at || later_than c.overlap_expires_at now))
    && (not (eqb EnrollmentState-discrete h.enrollment_state revoked)
        && not (eqb HostIntent-discrete h.lifecycle_state retired))

unfoldable pub count_hosts : AuthenticatedHost → ℤ → Credential → List HostRow → ℕ
count_hosts a now c [] = 0
count_hosts a now c (h ∷ hs) =
    let rest = count_hosts a now c hs in if is_current a now c h then suc rest else rest

unfoldable pub count_current : AuthenticatedHost → ℤ → List HostRow → List Credential → ℕ
count_current a now hs [] = 0
count_current a now hs (c ∷ cs) = count_hosts a now c hs + count_current a now hs cs

unfoldable pub ensure_authenticated_generation :
    Registry → AuthenticatedHost → ℤ → Result RegistryError (Unit {0})
ensure_authenticated_generation r a now =
    if count_current a now r.hosts r.credentials == 1 then ok tt else err invalid_credential

-- `agent_session_id=? AND authority_expires_at>?` of the host's row; a null or no row is false.
unfoldable pub has_authority : ℕ → ℤ → ℕ → List HostRow → Bool
has_authority session now id [] = false
has_authority session now id (h ∷ hs) =
    if h.id == id
    then holds h.agent_session_id session && later_than h.authority_expires_at now
    else has_authority session now id hs

unfoldable pub is_runner : ℕ → List ℕ → Bool
is_runner id [] = false
is_runner id (r ∷ rs) = r == id || is_runner id rs

abbrev pub joined : Option ℕ → List ℕ → Option ℕ
joined none runners = none
joined (some r) runners = if is_runner r runners then some r else none

unfoldable pub find_runner : ℕ → ℕ → ℕ → List ℕ → List PlacementRow → Option ℕ
find_runner id host epoch runners [] = none
find_runner id host epoch runners (p ∷ ps) =
    if p.id == id && p.host_id == host && p.host_epoch == epoch
    then joined p.runner_id runners
    else find_runner id host epoch runners ps

unfoldable pub authorize_output : Registry → AuthenticatedHost → ℕ → ℕ → ℤ → Result RegistryError ℕ
authorize_output r a session placement now = do
  ensure_authenticated_generation r a now
  fail_if (not (has_authority session now a.host_id r.hosts)) forbidden
  ok_or (find_runner placement a.host_id a.epoch r.runners r.placements) not_found
