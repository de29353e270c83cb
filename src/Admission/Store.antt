-- ===== src/Admission/Store.antt =====
-- The two tables that capacity checks of crates/gridops-core/src/fleet/admission.rs read, in the
-- order in which a query meets their rows. Identifiers are numbers, SQL integers are i64.
use gridops.Prelude.{ℕ, String, Bool, ◌&&◌, Option, none, some, List, [], ◌∷◌, ◌==◌, if◌then◌else◌}
use gridops.Prelude.Int.{ℤ, pos, negsuc}

-- The errors that these parts of admission raise.
pub data FleetError : Type 0 where
  invariant : String → FleetError
  not_found : FleetError

-- `DomainRow`.
pub record DomainRow : Type 0 where
  pub id : ℕ
  pub parent_domain_id : Option ℕ
  pub cpu_millis : ℤ
  pub memory_mib : ℤ
  pub disk_bytes : ℤ
  pub revision : ℤ

-- A row of `capacity_allocations`, with `state != 'released'` as `live`.
pub record Allocation : Type 0 where
  pub placement_id : ℕ
  pub host_id : ℕ
  pub domain_id : ℕ
  pub policy_revision : ℤ
  pub cpu_millis : ℤ
  pub memory_mib : ℤ
  pub disk_bytes : ℤ
  pub live : Bool

-- `host_resource_domains` with the `host_id` of each row, and `capacity_allocations`.
pub record Store : Type 0 where
  pub domains : List (ℕ × DomainRow)
  pub allocations : List Allocation

-- The fields of `Candidate` that the capacity checks read.
pub record Candidate : Type 0 where
  pub host_id : ℕ
  pub domain_id : ℕ
  pub cpu_millis : ℤ
  pub memory_mib : ℤ
  pub disk_bytes : ℤ

-- `SELECT .. FROM host_resource_domains WHERE id=? AND host_id=?`, one row at most.
unfoldable pub find_domain : ℕ → ℕ → List (ℕ × DomainRow) → Option DomainRow
find_domain id host [] = none
find_domain id host ((h, d) ∷ rest) =
    if d.id == id && h == host then some d else find_domain id host rest

-- `SELECT .. FROM capacity_allocations WHERE domain_id=? AND host_id=? AND state != 'released'`.
unfoldable pub live_allocations : ℕ → ℕ → List Allocation → List Allocation
live_allocations id host [] = []
live_allocations id host (a ∷ rest) =
    let others = live_allocations id host rest in
    if a.domain_id == id && a.host_id == host && a.live then a ∷ others else others

-- `u64::try_from` on an i64.
abbrev pub to_u64 : ℤ → Option ℕ
to_u64 (pos n) = some n
to_u64 (negsuc n) = none
