-- ===== src/Admission/Fit.antt =====
-- `domains_fit` and the allocations of `insert_admission` in
-- crates/gridops-core/src/fleet/admission.rs.
pub mod Sums
pub mod Sound
pub mod Within
use gridops.Prelude.{
  ℕ, String, Bool, true, false, not, ◌&&◌, Option, none, some, List, [], ◌∷◌, ◌++◌, map, Result, ok,
  err, ◌>>=◌, ok_or, map_err, leb, ◌==◌, if◌then◌else◌,
}
use gridops.Prelude.Int.{ℤ}
use gridops.Domain.Amount.{ResourceAmount, zero_amount, checked_add, checked_sub}
use gridops.Domain.Amount
use gridops.Admission.Store.{
  FleetError, invariant, DomainRow, Allocation, Store, Candidate, live_allocations, to_u64,
}
use gridops.Admission.Path.{domain_path}

-- Three i64 columns as an amount; `negative` and `bounds` are the messages of the two failures.
unfoldable pub amount_of :
    String → String → String → String → ℤ → ℤ → ℤ → Result FleetError ResourceAmount
amount_of negative_cpu negative_memory negative_disk bounds cpu memory disk = do
  c ← ok_or (to_u64 cpu) (invariant negative_cpu)
  m ← ok_or (to_u64 memory) (invariant negative_memory)
  d ← ok_or (to_u64 disk) (invariant negative_disk)
  map_err (λ _. invariant bounds) (Amount.new c m d)

unfoldable pub request_of : Candidate → Result FleetError ResourceAmount
request_of c =
    amount_of "negative CPU" "negative memory" "negative disk"
      "profile resource exceeds integer bounds" c.cpu_millis c.memory_mib c.disk_bytes

unfoldable pub allocated : Allocation → Result FleetError ResourceAmount
allocated a =
    amount_of "negative allocation" "negative allocation" "negative allocation"
      "allocation exceeds integer bounds" a.cpu_millis a.memory_mib a.disk_bytes

unfoldable pub budget_of : DomainRow → Result FleetError ResourceAmount
budget_of d =
    amount_of "negative budget" "negative budget" "negative budget" "budget exceeds integer bounds"
      d.cpu_millis d.memory_mib d.disk_bytes

-- The loop that adds the live allocations of a domain up.
unfoldable pub aggregate : ResourceAmount → List Allocation → Result FleetError ResourceAmount
aggregate total [] = ok total
aggregate total (a ∷ rest) = do
  amount ← allocated a
  total' ← map_err (λ _. invariant "allocation aggregate overflow") (checked_add total amount)
  aggregate total' rest

-- `ResourceAmountExt::fits_request`.
unfoldable pub fits_request : ResourceAmount → ResourceAmount → Bool
fits_request a r =
    leb r.cpu_millis a.cpu_millis && leb r.memory_mib a.memory_mib && leb r.disk_bytes a.disk_bytes

abbrev pub exhausted : Option ℕ → String
exhausted none = "physical_resource_exhausted"
exhausted (some parent) = "child_resource_exhausted"

-- `let Ok(remaining) = .. else` and the test after it.
unfoldable pub room_for :
    DomainRow → ResourceAmount → ResourceAmount → ResourceAmount → Option String
room_for d capacity used request = elim (checked_sub capacity used) [
  | err e ↦ some (exhausted d.parent_domain_id)
  | ok remaining ↦
      if not (fits_request remaining request) then some (exhausted d.parent_domain_id) else none
]

-- One round of the `for` loop over the path; a reason ends the loop.
unfoldable pub domain_fits :
    Store → ℕ → ResourceAmount → DomainRow → Result FleetError (Option String)
domain_fits st host request d = do
  used ← aggregate zero_amount (live_allocations d.id host st.allocations)
  capacity ← budget_of d
  ok (room_for d capacity used request)

unfoldable pub path_fits :
    Store → ℕ → ResourceAmount → List DomainRow → Result FleetError (Option String)
path_fits st host request [] = ok none
path_fits st host request (d ∷ ds) = do
  reason ← domain_fits st host request d
  elim reason [ some r ↦ ok (some r) | none ↦ path_fits st host request ds ]

unfoldable pub domains_fit : Store → Candidate → Result FleetError (Option String)
domains_fit st c = do
  path ← domain_path st c.domain_id c.host_id
  request ← request_of c
  path_fits st c.host_id request path

-- The `INSERT INTO capacity_allocations` of one domain; `state` starts as 'reserved'.
abbrev pub allocation_in : Candidate → ℕ → DomainRow → Allocation
allocation_in c placement d = record {
  placement_id = placement;
  host_id = c.host_id;
  domain_id = d.id;
  policy_revision = d.revision;
  cpu_millis = c.cpu_millis;
  memory_mib = c.memory_mib;
  disk_bytes = c.disk_bytes;
  live = true;
}

-- The loop of `insert_admission` over the path.
unfoldable pub insert_allocations : Store → Candidate → ℕ → Result FleetError Store
insert_allocations st c placement = do
  path ← domain_path st c.domain_id c.host_id
  ok (record st { allocations = st.allocations ++ map (allocation_in c placement) path })

-- What the loop over candidates does with one candidate: the capacity check, then the insertion.
unfoldable pub admit : Store → Candidate → ℕ → Result FleetError (Store × Option String)
admit st c placement = do
  reason ← domains_fit st c
  elim reason [
    | some r ↦ ok (st, some r)
    | none ↦ do st' ← insert_allocations st c placement; ok (st', none)
  ]

-- `UPDATE capacity_allocations SET state='released' .. WHERE placement_id=?` of
-- crates/gridops-core/src/fleet/placement.rs.
unfoldable pub release_allocations : ℕ → List Allocation → List Allocation
release_allocations placement [] = []
release_allocations placement (a ∷ rest) =
    (if a.placement_id == placement then record a { live = false } else a)
    ∷ release_allocations placement rest
