-- ===== src/Examples/Admission.antt =====
-- A host with a root domain and a child, crates/gridops-core/src/fleet/admission.rs.
use gridops.Prelude.{◌≤◌, ◌≡◌, refl, true, none, some, [], ◌∷◌, List, ok, arith}
use gridops.Prelude.Int.{pos}
use gridops.Domain.Amount.{ResourceAmount}
use gridops.Domain.Amount as Amount
use gridops.Admission.Store.{DomainRow, Allocation, Store, Candidate, find_domain, live_allocations}
use gridops.Admission.Path.{walk, domain_path, max_resource_domain_depth}
use gridops.Admission.Path.Chain.{IsChain, domain_path_iff}
use gridops.Admission.Fit.{
  amount_of, request_of, allocated, budget_of, aggregate, fits_request, room_for, domain_fits,
  path_fits, domains_fit, insert_allocations, admit,
}
use gridops.Admission.Fit.Sums.{sum_by}
use gridops.Admission.Fit.Sound.{All, HasRoom, domains_fit-HasRoom}
use gridops.Admission.Fit.Within.{
  IsSolvent, Event, admitting, releasing, run, admit-IsSolvent, run-IsSolvent,
}

abbrev root : DomainRow
root = record {
  id = 1;
  parent_domain_id = none;
  cpu_millis = pos 8000;
  memory_mib = pos 8192;
  disk_bytes = pos 1000;
  revision = pos 1;
}

abbrev child : DomainRow
child = record {
  id = 2;
  parent_domain_id = some 1;
  cpu_millis = pos 4000;
  memory_mib = pos 4096;
  disk_bytes = pos 500;
  revision = pos 1;
}

abbrev host_store : Store
host_store = record { domains = (9, root) ∷ (9, child) ∷ []; allocations = [] }

abbrev job : Candidate
job = record {
  host_id = 9;
  domain_id = 2;
  cpu_millis = pos 3000;
  memory_mib = pos 1024;
  disk_bytes = pos 100;
}

path_found : domain_path host_store 2 9 ≡ ok (child ∷ root ∷ [])
unfolding domain_path walk find_domain
path_found = refl

domain_path_iff_example :
    IsChain host_store 9 (some 2) (child ∷ root ∷ []) × (2 ≤ max_resource_domain_depth)
domain_path_iff_example = (domain_path_iff host_store 2 9 (child ∷ root ∷ [])).0 path_found

fits : domains_fit host_store job ≡ ok none
unfolding domains_fit path_fits domain_fits room_for fits_request aggregate budget_of allocated
    request_of amount_of domain_path walk find_domain live_allocations Amount.new Amount.checked_sub
    Amount.checked_add
fits = refl

domains_fit-HasRoom_example : All (HasRoom host_store job) (child ∷ root ∷ [])
domains_fit-HasRoom_example = domains_fit-HasRoom host_store job (child ∷ root ∷ []) path_found fits

abbrev capacity : ResourceAmount
capacity = record { cpu_millis = 4000; memory_mib = 4096; disk_bytes = 500 }

abbrev in_use : ResourceAmount
in_use = record { cpu_millis = 3000; memory_mib = 1024; disk_bytes = 100 }

abbrev asked : ResourceAmount
asked = record { cpu_millis = 1000; memory_mib = 1024; disk_bytes = 100 }

capacity-IsValid : Amount.IsValid capacity
capacity-IsValid = ground arith

solvent : IsSolvent host_store
unfolding sum_by live_allocations
solvent id host d row = record {
  cpu_within = omega arith;
  memory_within = omega arith;
  disk_within = omega arith;
}

abbrev row_of : DomainRow → Allocation
row_of d = record {
  placement_id = 70;
  host_id = 9;
  domain_id = d.id;
  policy_revision = d.revision;
  cpu_millis = pos 3000;
  memory_mib = pos 1024;
  disk_bytes = pos 100;
  live = true;
}

abbrev admitted : Store
admitted = record host_store { allocations = row_of child ∷ row_of root ∷ [] }

admission : admit host_store job 70 ≡ ok (admitted, none)
unfolding admit insert_allocations domains_fit path_fits domain_fits room_for fits_request aggregate
    budget_of allocated request_of amount_of domain_path walk find_domain live_allocations
    Amount.new Amount.checked_sub Amount.checked_add
admission = refl

admit-IsSolvent_example : IsSolvent admitted
admit-IsSolvent_example = admit-IsSolvent host_store admitted job 70 none solvent admission

abbrev busy_day : List Event
busy_day = admitting job 70 ∷ admitting job 71 ∷ releasing 70 ∷ admitting job 72 ∷ []

run-IsSolvent_example : IsSolvent (run host_store busy_day)
run-IsSolvent_example = run-IsSolvent host_store busy_day solvent
