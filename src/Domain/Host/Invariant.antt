-- ===== src/Domain/Host/Invariant.antt =====
-- What every `HostLifecycle` of crates/gridops-core/src/fleet/domain.rs keeps.
use gridops.Prelude.{◌≡◌, ◌≢◌, ◌↔◌, ◌⊎◌, ok, arith}
use gridops.Domain.Host.{
  HostLifecycle, EnrollmentState, HostIntent, Freshness, approved, active, retired, try_from,
  transition_enrollment, transition_intent, transition_freshness,
}

-- Only an approved host is active.
pub record IsConsistent (h : HostLifecycle) : Type 0 where
  pub active_approved : h.intent ≡ active → h.enrollment_state ≡ approved

-- The raw values that deserialization accepts are exactly the consistent ones, unchanged.
pub try_from-host_iff :
    (h : HostLifecycle)
    → IsConsistent h ↔ (try_from h.enrollment_state h.intent h.freshness_state ≡ ok h)
unfolding try_from
try_from-host_iff h = (λ c. ground arith, λ e. record { active_approved = λ a. ground arith })

-- A transition is accepted or changes nothing, on each of the three axes.
pub refused_unchanged :
    (h : HostLifecycle) (e : EnrollmentState) (i : HostIntent) (f : Freshness)
    → (((transition_enrollment h e).1 ≡ ok tt) ⊎ ((transition_enrollment h e).0 ≡ h))
      × (((transition_intent h i).1 ≡ ok tt) ⊎ ((transition_intent h i).0 ≡ h))
      × (((transition_freshness h f).1 ≡ ok tt) ⊎ ((transition_freshness h f).0 ≡ h))
unfolding transition_enrollment transition_intent transition_freshness
refused_unchanged h e i f = (ground arith, ground arith, ground arith)

pub enrollment-IsConsistent :
    (h : HostLifecycle) (e : EnrollmentState)
    → IsConsistent h
    → IsConsistent (transition_enrollment h e).0
unfolding transition_enrollment
enrollment-IsConsistent h e c = ground arith

pub intent-IsConsistent :
    (h : HostLifecycle) (i : HostIntent) → IsConsistent h → IsConsistent (transition_intent h i).0
unfolding transition_intent
intent-IsConsistent h i c = ground arith

pub freshness-IsConsistent :
    (h : HostLifecycle) (f : Freshness) → IsConsistent h → IsConsistent (transition_freshness h f).0
unfolding transition_freshness
freshness-IsConsistent h f c = ground arith

-- An accepted change of intent needs an approved host when it activates, and a host that is not
-- retired unless it stays so; nothing else is refused.
pub transition_intent_iff :
    (h : HostLifecycle) (i : HostIntent)
    → ((transition_intent h i).1 ≡ ok tt)
      ↔ (((i ≢ active) ⊎ (h.enrollment_state ≡ approved)) × ((h.intent ≢ retired) ⊎ (i ≡ retired)))
unfolding transition_intent
transition_intent_iff h i = (λ e. ground arith, λ allowed. ground arith)
