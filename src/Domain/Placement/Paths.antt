-- ===== src/Domain/Placement/Paths.antt =====
-- The paths of a placement through the transitions of crates/gridops-core/src/fleet/domain.rs.
use mathlib.Core.List.{Memᴰ}
use gridops.Prelude.{
  ◌≡◌, refl, sym, ◌⊎◌, inl, inr, Bool, true, false, Result, ok, err, List, [], ◌∷◌, arith,
}
use gridops.Domain.Transition.{LifecycleTransitionError}
use gridops.Domain.Placement.{
  PlacementState, reserved, preparing, registering, starting, running, draining, stopping, stopped,
  cleaned, retryable_failure, terminal_failure, uncertain, transition,
}

-- A refused transition leaves the placement where it was.
abbrev pub after : PlacementState → Result LifecycleTransitionError PlacementState → PlacementState
after s (ok t) = t
after s (err e) = s

unfoldable pub drive : PlacementState → List PlacementState → PlacementState
drive s [] = s
drive s (next ∷ rest) = drive (after s (transition s next)) rest

-- Each transition of the list is accepted where it is attempted.
abbrev pub Accepted : PlacementState → List PlacementState → Type 0
Accepted s [] = Unit {0}
Accepted s (next ∷ rest) = (transition s next ≡ ok next) × Accepted next rest

abbrev pub IsOver : PlacementState → Type 0
IsOver s = (s ≡ cleaned) ⊎ (s ≡ terminal_failure)

after-IsOver : (s next : PlacementState) → IsOver s → IsOver (after s (transition s next))
unfolding transition
after-IsOver s next o = ground arith

-- Once a placement is cleaned or has failed for good, no attempted transition brings it back.
pub drive-IsOver :
    (s : PlacementState) (rest : List PlacementState) → IsOver s → IsOver (drive s rest)
unfolding drive
drive-IsOver s [] o = o
drive-IsOver s (next ∷ rest) o =
    drive-IsOver (after s (transition s next)) rest (after-IsOver s next o)

-- No runner of it has been told to start.
abbrev pub is_unstarted : PlacementState → Bool
is_unstarted reserved = true
is_unstarted preparing = true
is_unstarted registering = true
is_unstarted retryable_failure = true
is_unstarted terminal_failure = true
is_unstarted cleaned = true
is_unstarted _ = false

after_unstarted :
    (s next : PlacementState)
    → is_unstarted s ≡ true
    → ((next ≡ starting) ⊎ (next ≡ uncertain)) ⊎ (is_unstarted (after s (transition s next)) ≡ true)
unfolding transition
after_unstarted s next u = ground arith

-- A placement that has not started runs only after its history attempts `starting`, or
-- `uncertain`, which is where a lost answer puts it.
pub running_needs_start :
    (s : PlacementState) (history : List PlacementState)
    → is_unstarted s ≡ true
    → drive s history ≡ running
    → Memᴰ starting history ⊎ Memᴰ uncertain history
unfolding drive
running_needs_start s [] u r = ground arith
running_needs_start s (next ∷ rest) u r = elim (after_unstarted s next u) [
  | inl (inl e) ↦ inl (Memᴰ.head (sym e))
  | inl (inr e) ↦ inr (Memᴰ.head (sym e))
  | inr still ↦ elim (running_needs_start (after s (transition s next)) rest still r) [
    | inl m ↦ inl (Memᴰ.tail m)
    | inr m ↦ inr (Memᴰ.tail m)
  ]
]

-- The shortest way to clean a placement up.
unfoldable pub cleanup_route : PlacementState → List PlacementState
cleanup_route reserved = preparing ∷ terminal_failure ∷ cleaned ∷ []
cleanup_route preparing = terminal_failure ∷ cleaned ∷ []
cleanup_route registering = terminal_failure ∷ cleaned ∷ []
cleanup_route starting = terminal_failure ∷ cleaned ∷ []
cleanup_route running = stopping ∷ cleaned ∷ []
cleanup_route draining = stopped ∷ cleaned ∷ []
cleanup_route stopping = cleaned ∷ []
cleanup_route stopped = cleaned ∷ []
cleanup_route cleaned = []
cleanup_route retryable_failure = terminal_failure ∷ cleaned ∷ []
cleanup_route terminal_failure = cleaned ∷ []
cleanup_route uncertain = cleaned ∷ []

-- From every state a placement can be cleaned up, by accepted transitions alone.
pub cleanup_reachable :
    (s : PlacementState) → Accepted s (cleanup_route s) × (drive s (cleanup_route s) ≡ cleaned)
unfolding cleanup_route drive transition
cleanup_reachable cleaned = (tt, refl)
cleanup_reachable s = ground arith
