-- ===== src/Domain/Host/History.antt =====
-- Histories of one host: any sequence of attempted transitions of
-- crates/gridops-core/src/fleet/domain.rs, refused ones included.
use mathlib.Core.List.{Memᴰ}
use gridops.Prelude.{◌≡◌, ◌≢◌, refl, sym, ◌⊎◌, inl, inr, List, [], ◌∷◌, arith}
use gridops.Domain.Host.{
  HostLifecycle, EnrollmentState, HostIntent, Freshness, approved, active, retired, pending_host,
  transition_enrollment, transition_intent, transition_freshness,
}
use gridops.Domain.Host.Invariant.{
  IsConsistent, enrollment-IsConsistent, intent-IsConsistent, freshness-IsConsistent,
}

pub data Call : Type 0 where
  enroll : EnrollmentState → Call
  intend : HostIntent → Call
  observe : Freshness → Call

abbrev pub step : HostLifecycle → Call → HostLifecycle
step h (enroll e) = (transition_enrollment h e).0
step h (intend i) = (transition_intent h i).0
step h (observe f) = (transition_freshness h f).0

unfoldable pub run : HostLifecycle → List Call → HostLifecycle
run h [] = h
run h (c ∷ cs) = run (step h c) cs

step-IsConsistent : (h : HostLifecycle) (c : Call) → IsConsistent h → IsConsistent (step h c)
step-IsConsistent h (enroll e) v = enrollment-IsConsistent h e v
step-IsConsistent h (intend i) v = intent-IsConsistent h i v
step-IsConsistent h (observe f) v = freshness-IsConsistent h f v

-- Only an approved host is ever active: every sequence of attempted transitions keeps a consistent
-- host consistent.
pub run-IsConsistent :
    (h : HostLifecycle) (cs : List Call) → IsConsistent h → IsConsistent (run h cs)
unfolding run
run-IsConsistent h [] v = v
run-IsConsistent h (c ∷ cs) v = run-IsConsistent (step h c) cs (step-IsConsistent h c v)

step_retired : (h : HostLifecycle) (c : Call) → h.intent ≡ retired → (step h c).intent ≡ retired
unfolding transition_enrollment transition_intent transition_freshness
step_retired h (enroll e) r = ground arith
step_retired h (intend i) r = ground arith
step_retired h (observe f) r = ground arith

-- Retirement is final: whatever is attempted afterwards, the host stays retired.
pub run_retired :
    (h : HostLifecycle) (cs : List Call) → h.intent ≡ retired → (run h cs).intent ≡ retired
unfolding run
run_retired h [] r = r
run_retired h (c ∷ cs) r = run_retired (step h c) cs (step_retired h c r)

step_activates :
    (h : HostLifecycle) (c : Call)
    → (step h c).intent ≡ active
    → (c ≡ intend active) ⊎ (h.intent ≡ active)
unfolding transition_enrollment transition_intent transition_freshness
step_activates h (enroll e) a = ground arith
step_activates h (intend i) a = ground arith
step_activates h (observe f) a = ground arith

step_approves :
    (h : HostLifecycle) (c : Call)
    → (step h c).enrollment_state ≡ approved
    → (c ≡ enroll approved) ⊎ (h.enrollment_state ≡ approved)
unfolding transition_enrollment transition_intent transition_freshness
step_approves h (enroll e) a = ground arith
step_approves h (intend i) a = ground arith
step_approves h (observe f) a = ground arith

run_activates :
    (h : HostLifecycle) (cs : List Call)
    → (run h cs).intent ≡ active
    → Memᴰ (intend active) cs ⊎ (h.intent ≡ active)
unfolding run
run_activates h [] a = inr a
run_activates h (c ∷ cs) a = elim (run_activates (step h c) cs a) [
  | inl later ↦ inl (Memᴰ.tail later)
  | inr now ↦ elim (step_activates h c now) [
    | inl this ↦ inl (Memᴰ.head (sym this))
    | inr before ↦ inr before
  ]
]

run_approves :
    (h : HostLifecycle) (cs : List Call)
    → (run h cs).enrollment_state ≡ approved
    → Memᴰ (enroll approved) cs ⊎ (h.enrollment_state ≡ approved)
unfolding run
run_approves h [] a = inr a
run_approves h (c ∷ cs) a = elim (run_approves (step h c) cs a) [
  | inl later ↦ inl (Memᴰ.tail later)
  | inr now ↦ elim (step_approves h c now) [
    | inl this ↦ inl (Memᴰ.head (sym this))
    | inr before ↦ inr before
  ]
]

not_pending :
    {h : HostLifecycle} → h ≡ pending_host → (h.intent ≢ active) × (h.enrollment_state ≢ approved)
unfolding pending_host
not_pending e = (λ a. ground arith, λ a. ground arith)

-- A host that a history from enrollment leaves active is approved, and the history holds both an
-- approval and an activation: no other call makes a host eligible for work.
pub active_approved :
    (cs : List Call)
    → (run pending_host cs).intent ≡ active
    → ((run pending_host cs).enrollment_state ≡ approved)
      × Memᴰ (enroll approved) cs
      × Memᴰ (intend active) cs
active_approved cs a =
    let consistent = run-IsConsistent pending_host cs pending-IsConsistent in
    let enrolled = consistent.active_approved a in
    (
      enrolled,
      was_approved (run_approves pending_host cs enrolled),
      was_activated (run_activates pending_host cs a),
    )
  where
    fresh : (pending_host.intent ≢ active) × (pending_host.enrollment_state ≢ approved)
    fresh = not_pending refl

    was_approved :
        Memᴰ (enroll approved) cs ⊎ (pending_host.enrollment_state ≡ approved)
        → Memᴰ (enroll approved) cs
    was_approved (inl m) = m
    was_approved (inr e) = absurd (fresh.1 e)

    was_activated :
        Memᴰ (intend active) cs ⊎ (pending_host.intent ≡ active) → Memᴰ (intend active) cs
    was_activated (inl m) = m
    was_activated (inr e) = absurd (fresh.0 e)

    pending-IsConsistent : IsConsistent pending_host
    pending-IsConsistent = record { active_approved = λ e. absurd (fresh.0 e) }
