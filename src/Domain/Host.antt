-- ===== src/Domain/Host.antt =====
-- `HostLifecycle` of crates/gridops-core/src/fleet/domain.rs: enrollment, operator intent and
-- freshness of one host. A method on `&mut self` returns the new value and its result.
pub mod Invariant
pub mod History
use gridops.Prelude.{
  Bool, true, false, not, ◌&&◌, ◌||◌, String, Result, ok, err, eqb, if◌then◌else◌,
}
use gridops.Domain.Transition.{
  LifecycleAxis, LifecycleTransitionError, enrollment, host_intent, freshness,
}

pub data EnrollmentState : Type 0 where
  pending approved revoked : EnrollmentState

unfoldable pub EnrollmentState-discrete : Discrete EnrollmentState
EnrollmentState-discrete = hlevel

pub data HostIntent : Type 0 where
  active paused draining maintenance retired : HostIntent

unfoldable pub HostIntent-discrete : Discrete HostIntent
HostIntent-discrete = hlevel

pub data Freshness : Type 0 where
  fresh stale offline unknown : Freshness

pub record HostLifecycle : Type 0 where
  pub enrollment_state : EnrollmentState
  pub intent : HostIntent
  pub freshness_state : Freshness

abbrev show_enrollment : EnrollmentState → String
show_enrollment pending = "Pending"
show_enrollment approved = "Approved"
show_enrollment revoked = "Revoked"

abbrev show_intent : HostIntent → String
show_intent active = "Active"
show_intent paused = "Paused"
show_intent draining = "Draining"
show_intent maintenance = "Maintenance"
show_intent retired = "Retired"

abbrev show_freshness : Freshness → String
show_freshness fresh = "Fresh"
show_freshness stale = "Stale"
show_freshness offline = "Offline"
show_freshness unknown = "Unknown"

unfoldable pub pending_host : HostLifecycle
pending_host = record { enrollment_state = pending; intent = paused; freshness_state = unknown }

pub data LifecycleValidationError : Type 0 where
  invalid_combination : LifecycleValidationError

-- `TryFrom<RawHostLifecycle>`; the raw value has the same three fields.
unfoldable pub try_from :
    EnrollmentState → HostIntent → Freshness → Result LifecycleValidationError HostLifecycle
unfolding EnrollmentState-discrete HostIntent-discrete
try_from e i f =
    if eqb HostIntent-discrete i active && not (eqb EnrollmentState-discrete e approved)
    then err invalid_combination
    else ok (record { enrollment_state = e; intent = i; freshness_state = f })

legal_enrollment : EnrollmentState → EnrollmentState → Bool
legal_enrollment pending _ = true
legal_enrollment approved approved = true
legal_enrollment approved revoked = true
legal_enrollment revoked revoked = true
legal_enrollment revoked pending = true
legal_enrollment _ _ = false

unfoldable pub transition_enrollment :
    HostLifecycle → EnrollmentState → HostLifecycle × Result LifecycleTransitionError (Unit {0})
unfolding legal_enrollment EnrollmentState-discrete HostIntent-discrete
transition_enrollment h next =
    if not (legal_enrollment h.enrollment_state next)
    then (h, err refusal)
    else if eqb EnrollmentState-discrete next revoked && eqb HostIntent-discrete h.intent active
    then (h, err refusal)
    else (record h { enrollment_state = next }, ok tt)
  where
    refusal : LifecycleTransitionError
    refusal = record {
      axis = enrollment;
      from = show_enrollment h.enrollment_state;
      to = show_enrollment next;
    }

legal_intent : HostIntent → HostIntent → Bool
legal_intent active _ = true
legal_intent paused _ = true
legal_intent draining _ = true
legal_intent maintenance _ = true
legal_intent retired retired = true
legal_intent _ _ = false

unfoldable pub transition_intent :
    HostLifecycle → HostIntent → HostLifecycle × Result LifecycleTransitionError (Unit {0})
unfolding legal_intent EnrollmentState-discrete HostIntent-discrete
transition_intent h next =
    if eqb HostIntent-discrete next active
      && not (eqb EnrollmentState-discrete h.enrollment_state approved)
    then (h, err refusal)
    else if not (legal_intent h.intent next)
    then (h, err refusal)
    else (record h { intent = next }, ok tt)
  where
    refusal : LifecycleTransitionError
    refusal = record { axis = host_intent; from = show_intent h.intent; to = show_intent next }

legal_freshness : Freshness → Freshness → Bool
legal_freshness unknown _ = true
legal_freshness fresh fresh = true
legal_freshness fresh stale = true
legal_freshness fresh offline = true
legal_freshness stale stale = true
legal_freshness stale fresh = true
legal_freshness stale offline = true
legal_freshness offline offline = true
legal_freshness offline fresh = true
legal_freshness offline unknown = true
legal_freshness _ _ = false

unfoldable pub transition_freshness :
    HostLifecycle → Freshness → HostLifecycle × Result LifecycleTransitionError (Unit {0})
unfolding legal_freshness
transition_freshness h next =
    if not (legal_freshness h.freshness_state next)
    then (h, err refusal)
    else (record h { freshness_state = next }, ok tt)
  where
    refusal : LifecycleTransitionError
    refusal = record {
      axis = freshness;
      from = show_freshness h.freshness_state;
      to = show_freshness next;
    }
