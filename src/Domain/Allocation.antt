-- ===== src/Domain/Allocation.antt =====
-- `AllocationState` of crates/gridops-core/src/fleet/domain.rs and its `release`, which asks for two
-- proofs about the local host.
pub mod Release
use gridops.Prelude.{ℕ, Bool, true, false, not, ◌||◌, String, Result, ok, err, ◌==◌, if◌then◌else◌}
use gridops.Domain.Transition.{LifecycleTransitionError, transition_if, allocation}

pub data AllocationState : Type 0 where
  reserved committed releasing uncertain released : AllocationState

pub AllocationState-discrete : Discrete AllocationState
AllocationState-discrete = hlevel

abbrev show_allocation : AllocationState → String
show_allocation reserved = "Reserved"
show_allocation committed = "Committed"
show_allocation releasing = "Releasing"
show_allocation uncertain = "Uncertain"
show_allocation released = "Released"

legal : AllocationState → AllocationState → Bool
legal reserved reserved = true
legal reserved committed = true
legal reserved uncertain = true
legal committed committed = true
legal committed releasing = true
legal committed uncertain = true
legal releasing releasing = true
legal releasing uncertain = true
legal uncertain uncertain = true
legal uncertain releasing = true
legal released released = true
legal _ _ = false

unfoldable pub transition :
    AllocationState → AllocationState → Result LifecycleTransitionError AllocationState
unfolding legal
transition s next = transition_if allocation show_allocation (legal s next) s next

pub data AllocationReleaseError : Type 0 where
  release_refused : AllocationReleaseError

pub record ProvenLocalAbsence : Type 0 where
  pub placement_id : ℕ
  pub observed_generation : ℕ
  pub observed_epoch : ℕ

pub record DelayedStartExclusion : Type 0 where
  pub placement_id : ℕ
  pub generation : ℕ
  pub host_epoch : ℕ

-- The `match self` at the end of `release`.
release_state : AllocationState → Result AllocationReleaseError AllocationState
release_state released = err release_refused
release_state _ = ok released

unfoldable pub release :
    AllocationState
    → ℕ
    → ℕ
    → ℕ
    → ProvenLocalAbsence
    → DelayedStartExclusion
    → Result AllocationReleaseError AllocationState
unfolding release_state
release s placement generation epoch absence delayed =
    if not (absence.placement_id == placement)
      || not (delayed.placement_id == placement)
      || not (absence.observed_generation == generation)
      || not (delayed.generation == generation)
      || not (absence.observed_epoch == epoch)
      || not (delayed.host_epoch == epoch)
    then err release_refused
    else release_state s
