-- ===== src/Examples/Domain.antt =====
-- Requests, hosts, placements and allocations of crates/gridops-core/src/fleet/domain.rs.
use gridops.Prelude.{◌≡◌, ◌↔◌, refl, inl, true, List, [], ◌∷◌, ok, arith}
use gridops.Domain.Request.{ResourceRequest, max_cpu_millis, max_memory_mib, max_disk_bytes}
use gridops.Domain.Request as Request
use gridops.Domain.Amount.{ResourceAmount, from_request, checked_sub, fits}
use gridops.Domain.Amount as Amount
use gridops.Domain.Amount.Laws.{fits_iff}
use gridops.Domain.Host.{
  HostLifecycle, approved, revoked, active, retired, fresh, offline, pending_host,
  transition_enrollment, transition_intent, transition_freshness, EnrollmentState-discrete,
  HostIntent-discrete,
}
use gridops.Domain.Host.Invariant.{IsConsistent}
use gridops.Domain.Host.History.{Call, enroll, intend, observe, run, run-IsConsistent, run_retired}
use gridops.Domain.Placement.{
  starting, running, preparing, registering, reserved, cleaned, uncertain,
  draining as placement_draining, stopped,
}
use gridops.Domain.Placement as Placement
use gridops.Domain.Placement.Paths.{
  drive, IsOver, Accepted, cleanup_route, drive-IsOver, cleanup_reachable,
}
use gridops.Domain.Allocation.{
  released, committed, releasing, release, ProvenLocalAbsence, DelayedStartExclusion,
}
use gridops.Domain.Allocation as Allocation
use gridops.Domain.Allocation.Release.{
  Proves, Proven, move, free, release_iff, released_needs_proofs,
}
use gridops.Domain.Allocation.Release as Release

abbrev small_request : ResourceRequest
small_request = record { cpu_millis = 2000; memory_mib = 4096; disk_bytes = 1000 }

abbrev large_request : ResourceRequest
large_request = record { cpu_millis = 3999000; memory_mib = 1024; disk_bytes = 0 }

small-IsValid : Request.IsValid small_request
small-IsValid = ground arith

large-IsValid : Request.IsValid large_request
large-IsValid = ground arith

abbrev total : ResourceAmount
total = record { cpu_millis = 8000; memory_mib = 16384; disk_bytes = 5000 }

abbrev used : ResourceAmount
used = record { cpu_millis = 3000; memory_mib = 4096; disk_bytes = 2000 }

abbrev rest : ResourceAmount
rest = record { cpu_millis = 5000; memory_mib = 12288; disk_bytes = 3000 }

total-IsValid : Amount.IsValid total
total-IsValid = ground arith

used-IsValid : Amount.IsValid used
used-IsValid = ground arith

rest-IsValid : Amount.IsValid rest
rest-IsValid = ground arith

sum : Amount.checked_add rest used ≡ ok total
unfolding Amount.checked_add Amount.new
sum = refl

fits_iff_example : (fits total small_request ≡ true) ↔ (
    (taken left : ResourceAmount) × (from_request small_request ≡ ok taken)
    × (checked_sub total taken ≡ ok left))
fits_iff_example = fits_iff total small_request total-IsValid small-IsValid

abbrev working_host : HostLifecycle
working_host = record { enrollment_state = approved; intent = active; freshness_state = fresh }

abbrev retired_host : HostLifecycle
retired_host = record { enrollment_state = approved; intent = retired; freshness_state = offline }

working-IsConsistent : IsConsistent working_host
working-IsConsistent = record { active_approved = λ a. refl }

abbrev enrolling : List Call
enrolling = enroll approved ∷ intend active ∷ observe fresh ∷ []

run-IsConsistent_example : IsConsistent (run working_host (enroll revoked ∷ intend active ∷ []))
run-IsConsistent_example =
    run-IsConsistent working_host (enroll revoked ∷ intend active ∷ []) working-IsConsistent

run_retired_example : (run retired_host enrolling).intent ≡ retired
run_retired_example = run_retired retired_host enrolling refl

enrolled : (run pending_host enrolling).intent ≡ active
unfolding run pending_host transition_enrollment transition_intent transition_freshness
    EnrollmentState-discrete HostIntent-discrete
enrolled = refl

drive-IsOver_example : IsOver (drive cleaned (running ∷ starting ∷ []))
drive-IsOver_example = drive-IsOver cleaned (running ∷ starting ∷ []) (inl refl)

started : drive reserved (preparing ∷ registering ∷ starting ∷ running ∷ []) ≡ running
unfolding drive Placement.transition
started = refl

cleanup_reachable_example :
    Accepted running (cleanup_route running) × (drive running (cleanup_route running) ≡ cleaned)
cleanup_reachable_example = cleanup_reachable running

abbrev absence : ProvenLocalAbsence
absence = record { placement_id = 7; observed_generation = 2; observed_epoch = 1 }

abbrev exclusion : DelayedStartExclusion
exclusion = record { placement_id = 7; generation = 2; host_epoch = 1 }

proofs : Proves 7 2 1 absence exclusion
proofs = ground arith

freed : Release.run 7 2 1 committed (move releasing ∷ free absence exclusion ∷ []) ≡ released
unfolding Release.run Allocation.transition release
freed = refl

released_needs_proofs_example : Proven 7 2 1 (move releasing ∷ free absence exclusion ∷ [])
released_needs_proofs_example =
    released_needs_proofs 7 2 1 committed (move releasing ∷ free absence exclusion ∷ [])
      (λ e. ground arith) freed
