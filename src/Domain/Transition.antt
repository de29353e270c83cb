-- ===== src/Domain/Transition.antt =====
-- The error that every refused transition of crates/gridops-core/src/fleet/domain.rs reports: the
-- axis and the two states, in their debug spelling.
use gridops.Prelude.{Bool, String, Result, ok, err, if◌then◌else◌}

pub data LifecycleAxis : Type 0 where
  enrollment host_intent freshness backend_readiness placement allocation : LifecycleAxis

pub record LifecycleTransitionError : Type 0 where
  pub axis : LifecycleAxis
  pub from : String
  pub to : String

-- `if legal { Ok(next) } else { Err(..) }`, with the debug formatter of the states.
abbrev pub transition_if :
    {S : Type 0} → LifecycleAxis → (S → String) → Bool → S → S → Result LifecycleTransitionError S
transition_if axis show legal from to =
    if legal then ok to else err (record { axis = axis; from = show from; to = show to })
