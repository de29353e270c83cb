-- ===== src/Domain/Allocation/Release.antt =====
-- When crates/gridops-core/src/fleet/domain.rs frees an allocation.
use gridops.Prelude.{ℕ, ◌≡◌, ◌≢◌, ◌↔◌, ◌⊎◌, inl, inr, Result, ok, err, List, [], ◌∷◌, arith}
use gridops.Domain.Transition.{LifecycleTransitionError}
use gridops.Domain.Allocation.{
  AllocationState, AllocationState-discrete, released, transition, release, ProvenLocalAbsence,
  DelayedStartExclusion, AllocationReleaseError,
}

-- Both proofs speak of this placement, generation and epoch.
pub record Proves (placement generation epoch : ℕ) (absence : ProvenLocalAbsence)
    (delayed : DelayedStartExclusion) : Type 0 where
  pub absence_placement : absence.placement_id ≡ placement
  pub absence_generation : absence.observed_generation ≡ generation
  pub absence_epoch : absence.observed_epoch ≡ epoch
  pub delayed_placement : delayed.placement_id ≡ placement
  pub delayed_generation : delayed.generation ≡ generation
  pub delayed_epoch : delayed.host_epoch ≡ epoch

-- A release succeeds exactly when the allocation still holds capacity and both proofs are about
-- its placement, generation and epoch; it then gives `released`.
pub release_iff :
    (s : AllocationState) (placement generation epoch : ℕ) (absence : ProvenLocalAbsence)
    (delayed : DelayedStartExclusion)
    → (release s placement generation epoch absence delayed ≡ ok released)
      ↔ ((s ≢ released) × Proves placement generation epoch absence delayed)
unfolding release
release_iff s placement generation epoch absence delayed =
    (λ e. (λ r. ground arith, ground arith), λ p. ground (arith, p.0))

pub data Call : Type 0 where
  move : AllocationState → Call
  free : ProvenLocalAbsence → DelayedStartExclusion → Call

abbrev after_move :
    AllocationState → Result LifecycleTransitionError AllocationState → AllocationState
after_move s (ok t) = t
after_move s (err e) = s

abbrev after_free :
    AllocationState → Result AllocationReleaseError AllocationState → AllocationState
after_free s (ok t) = t
after_free s (err e) = s

module _ (placement generation epoch : ℕ) where
  abbrev pub step : AllocationState → Call → AllocationState
  step s (move next) = after_move s (transition s next)
  step s (free a d) = after_free s (release s placement generation epoch a d)

  unfoldable pub run : AllocationState → List Call → AllocationState
  run s [] = s
  run s (c ∷ cs) = run (step s c) cs

  -- Some call of the history presents matching proofs.
  abbrev pub Proven : List Call → Type 0
  Proven [] = ⊥
  Proven (move next ∷ cs) = Proven cs
  Proven (free a d ∷ cs) = Proves placement generation epoch a d ⊎ Proven cs

  step_move : (s next : AllocationState) → step s (move next) ≡ released → s ≡ released
  unfolding transition
  step_move s next e = ground arith

  step_free :
      (s : AllocationState) (a : ProvenLocalAbsence) (d : DelayedStartExclusion)
      → step s (free a d) ≡ released
      → Proves placement generation epoch a d ⊎ (s ≡ released)
  unfolding release
  step_free s a d e = ground arith

  -- Capacity that was held is free after a history only if the history presented both proofs for
  -- this placement, generation and epoch: no sequence of plain transitions releases it.
  pub released_needs_proofs :
      (s : AllocationState) (cs : List Call) → s ≢ released → run s cs ≡ released → Proven cs
  unfolding run
  released_needs_proofs s [] held e = absurd (held e)
  released_needs_proofs s (move next ∷ cs) held e =
      released_needs_proofs (step s (move next)) cs (λ r. held (step_move s next r)) e
  released_needs_proofs s (free a d ∷ cs) held e =
      elim (AllocationState-discrete (step s (free a d)) released) [
        | yes freed ↦ elim (step_free s a d freed) [
          | inl proofs ↦ inl proofs
          | inr before ↦ absurd (held before)
        ]
        | no still ↦ inr (released_needs_proofs (step s (free a d)) cs still e)
      ]
