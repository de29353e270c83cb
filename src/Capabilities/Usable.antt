-- ===== src/Capabilities/Usable.antt =====
-- Which image `evaluate` of crates/gridops-core/src/fleet/capabilities.rs takes.
use gridops.Prelude.{
  ◌≡◌, ◌↔◌, ◌⊎◌, inl, inr, refl, true, Bool, Bool-cases, Option-cases, String_discrete, eqb,
  eqb_iff, ◌&&◌, none, some, ap, ◌∙◌, String, List, [], ◌∷◌, ok, arith,
}
use gridops.Capabilities.Report.{EnvironmentReadiness, EnvironmentCapability, ready, preparable}
use gridops.Capabilities.Evaluate.{is_usable, find_environment, environment_readiness}

-- An image of that readiness can be run, at once or after a preparation.
abbrev pub IsReadyOrPreparable : EnvironmentReadiness → Type 0
IsReadyOrPreparable r = (r ≡ ready) ⊎ (r ≡ preparable)

-- The readiness is that of the first listed environment that has the image and is usable.
abbrev pub IsFirstUsable : String → List EnvironmentCapability → EnvironmentReadiness → Type 0
IsFirstUsable image [] r = ⊥
IsFirstUsable image (e ∷ es) r =
    ((e.reference ≡ image) × IsReadyOrPreparable e.readiness × (e.readiness ≡ r))
    ⊎ (¬ ((e.reference ≡ image) × IsReadyOrPreparable e.readiness) × IsFirstUsable image es r)

-- No listed environment that has the image is usable.
abbrev pub NoneUsable : String → List EnvironmentCapability → Type 0
NoneUsable image [] = Unit
NoneUsable image (e ∷ es) =
    ¬ ((e.reference ≡ image) × IsReadyOrPreparable e.readiness) × NoneUsable image es

is_usable_iff : (r : EnvironmentReadiness) → (is_usable r ≡ true) ↔ IsReadyOrPreparable r
is_usable_iff r = (λ e. ground arith, λ v. ground arith)

-- What the search tests.
test_iff :
    (image : String) (e : EnvironmentCapability)
    → (eqb String_discrete e.reference image && is_usable e.readiness ≡ true)
      ↔ ((e.reference ≡ image) × IsReadyOrPreparable e.readiness)
test_iff image e =
    let (same, found) = eqb_iff String_discrete e.reference image in
    let (usable, elbasu) = is_usable_iff e.readiness in
    (
      λ h. (same (ground arith), usable (ground arith)),
      λ v. let a = found v.0 in let b = elbasu v.1 in ground arith,
    )

from_hit :
    (image : String) (e : EnvironmentCapability) (es : List EnvironmentCapability)
    (r : EnvironmentReadiness)
    → e.reference ≡ image
    → IsReadyOrPreparable e.readiness
    → IsFirstUsable image (e ∷ es) r
    → some e.readiness ≡ some r
from_hit image e es r same usable (inl (named, can, found)) = ap some found
from_hit image e es r same usable (inr (other, later)) = absurd (other (same, usable))

from_miss :
    (image : String) (e : EnvironmentCapability) (es : List EnvironmentCapability)
    (r : EnvironmentReadiness)
    → ¬ ((e.reference ≡ image) × IsReadyOrPreparable e.readiness)
    → IsFirstUsable image (e ∷ es) r
    → IsFirstUsable image es r
from_miss image e es r other (inl (named, can, found)) = absurd (other (named, can))
from_miss image e es r other (inr (unlike, later)) = later

find_environment_iff :
    (image : String) (es : List EnvironmentCapability) (r : EnvironmentReadiness)
    → ((find_environment image es ≡ some r) ↔ IsFirstUsable image es r)
      × ((find_environment image es ≡ none) ↔ NoneUsable image es)
unfolding find_environment
find_environment_iff image [] r = ((λ e. ground arith, λ v. absurd v), (λ e. tt, λ v. refl))
find_environment_iff image (e ∷ es) r =
    let ((first, tsrif), (lost, tsol)) = find_environment_iff image es r in
    let (holds, met) = test_iff image e in
    elim (Bool-cases (eqb String_discrete e.reference image && is_usable e.readiness)) [
      | inl hit ↦
          let (same, usable) = holds hit in
          rw hit (
            (
              (λ h. inl (same, usable, ground arith), λ v. from_hit image e es r same usable v),
              (λ h. ground arith, λ v. absurd (v.0 (same, usable))),
            ))
      | inr miss ↦
          let other : ¬ ((e.reference ≡ image) × IsReadyOrPreparable e.readiness) =
            λ v. let hit = met v in ground arith in
          rw miss (
            (
              (λ h. inr (other, first h), λ v. tsrif (from_miss image e es r other v)),
              (λ h. (other, lost h), λ v. tsol v.1),
            ))
    ]

taken :
    (image : String) (es : List EnvironmentCapability) (any : Bool) (r : EnvironmentReadiness)
    → IsFirstUsable image es r ⊎ (NoneUsable image es × (any ≡ true) × (r ≡ preparable))
    → environment_readiness (find_environment image es) any ≡ ok r
taken image es any r (inl v) = let found = (find_environment_iff image es r).0.1 v in ground arith
taken image es any r (inr (lost, runs, same)) =
    let missing = (find_environment_iff image es r).1.1 lost in ground arith

-- Whether the image can be run, and the readiness returned for it.
pub image_iff :
    (image : String) (es : List EnvironmentCapability) (any : Bool) (r : EnvironmentReadiness)
    → (environment_readiness (find_environment image es) any ≡ ok r)
      ↔ (IsFirstUsable image es r ⊎ (NoneUsable image es × (any ≡ true) × (r ≡ preparable)))
image_iff image es any r =
    let ((first, _), (lost, _)) = find_environment_iff image es r in
    (
      λ e. elim (Option-cases (find_environment image es)) [
        | inl missing ↦
            let runs : (any ≡ true) × (r ≡ preparable) = ground arith in
            inr (lost missing, runs.0, runs.1)
        | inr (s, found) ↦ let same : s ≡ r = ground arith in inl (first (found ∙ ap some same))
      ],
      λ v. taken image es any r v,
    )
