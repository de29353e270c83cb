-- ===== src/Domain/Placement.antt =====
-- `PlacementState` and `PlacementOwnership` of crates/gridops-core/src/fleet/domain.rs.
pub mod Paths
use gridops.Prelude.{ℕ, Bool, true, false, String, Result}
use gridops.Domain.Transition.{LifecycleTransitionError, transition_if, placement}

pub data PlacementState : Type 0 where
  reserved preparing registering starting running draining stopping stopped cleaned : PlacementState
  retryable_failure terminal_failure uncertain : PlacementState

abbrev show_placement : PlacementState → String
show_placement reserved = "Reserved"
show_placement preparing = "Preparing"
show_placement registering = "Registering"
show_placement starting = "Starting"
show_placement running = "Running"
show_placement draining = "Draining"
show_placement stopping = "Stopping"
show_placement stopped = "Stopped"
show_placement cleaned = "Cleaned"
show_placement retryable_failure = "RetryableFailure"
show_placement terminal_failure = "TerminalFailure"
show_placement uncertain = "Uncertain"

legal : PlacementState → PlacementState → Bool
legal reserved reserved = true
legal reserved preparing = true
legal reserved retryable_failure = true
legal reserved uncertain = true
legal preparing preparing = true
legal preparing registering = true
legal preparing retryable_failure = true
legal preparing terminal_failure = true
legal preparing uncertain = true
legal registering registering = true
legal registering starting = true
legal registering retryable_failure = true
legal registering terminal_failure = true
legal registering uncertain = true
legal starting starting = true
legal starting running = true
legal starting retryable_failure = true
legal starting terminal_failure = true
legal starting uncertain = true
legal running running = true
legal running draining = true
legal running stopping = true
legal running uncertain = true
legal draining draining = true
legal draining stopping = true
legal draining stopped = true
legal draining uncertain = true
legal stopping stopping = true
legal stopping stopped = true
legal stopping cleaned = true
legal stopping retryable_failure = true
legal stopping uncertain = true
legal stopped stopped = true
legal stopped cleaned = true
legal stopped uncertain = true
legal cleaned cleaned = true
legal retryable_failure retryable_failure = true
legal retryable_failure reserved = true
legal retryable_failure terminal_failure = true
legal retryable_failure uncertain = true
legal terminal_failure terminal_failure = true
legal terminal_failure cleaned = true
legal uncertain uncertain = true
legal uncertain retryable_failure = true
legal uncertain terminal_failure = true
legal uncertain running = true
legal uncertain stopped = true
legal uncertain cleaned = true
legal _ _ = false

unfoldable pub transition :
    PlacementState → PlacementState → Result LifecycleTransitionError PlacementState
unfolding legal
transition s next = transition_if placement show_placement (legal s next) s next

pub record PlacementOwnership : Type 0 where
  pub host_id : ℕ
  pub backend_id : ℕ
  pub original_epoch : ℕ
  pub generation : ℕ

unfoldable pub recovered : PlacementOwnership → ℕ → ℕ → PlacementOwnership
recovered o new_epoch new_generation = record {
  host_id = o.host_id;
  backend_id = o.backend_id;
  original_epoch = new_epoch;
  generation = new_generation;
}
