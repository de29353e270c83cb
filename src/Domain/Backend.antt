-- ===== src/Domain/Backend.antt =====
-- `BackendReadiness` of crates/gridops-core/src/fleet/domain.rs.
use gridops.Prelude.{Bool, true, false, String, Result}
use gridops.Domain.Transition.{LifecycleTransitionError, transition_if, backend_readiness}

pub data BackendReadiness : Type 0 where
  ready reconciling unavailable unsupported unknown : BackendReadiness

abbrev show_readiness : BackendReadiness → String
show_readiness ready = "Ready"
show_readiness reconciling = "Reconciling"
show_readiness unavailable = "Unavailable"
show_readiness unsupported = "Unsupported"
show_readiness unknown = "Unknown"

legal : BackendReadiness → BackendReadiness → Bool
legal ready ready = true
legal ready reconciling = true
legal ready unavailable = true
legal ready unknown = true
legal reconciling _ = true
legal unavailable unavailable = true
legal unavailable ready = true
legal unavailable reconciling = true
legal unavailable unknown = true
legal unsupported unsupported = true
legal unsupported reconciling = true
legal unsupported unknown = true
legal unknown _ = true
legal _ _ = false

unfoldable pub transition :
    BackendReadiness → BackendReadiness → Result LifecycleTransitionError BackendReadiness
unfolding legal
transition s next = transition_if backend_readiness show_readiness (legal s next) s next
