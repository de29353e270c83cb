-- ===== src/Capabilities/Decoded.antt =====
-- Which reports crates/gridops-core/src/fleet/capabilities.rs decodes.
use gridops.Prelude.{
  ◌≤◌, ◌≡◌, ◌↔◌, false, refl, ap, sym, ◌∙◌, length-map, String, List, [], ◌∷◌, map, ok, arith,
  String_discrete, length,
}
use gridops.Capabilities.Report.{
  SupportedRunner-discrete, CapabilityReport, try_from, member, distinct,
}

module _ {ℓ} {A : Type ℓ} (d : Discrete A) where
  -- No value stands twice in the list.
  abbrev pub AreDistinct : List A → Type 0
  AreDistinct [] = Unit {0}
  AreDistinct (x ∷ xs) = (member d x xs ≡ false) × AreDistinct xs

  length-distinct-le : (xs : List A) → length (distinct d xs) ≤ length xs
  length-distinct-le [] = omega arith
  length-distinct-le (x ∷ xs) = ground (arith, length-distinct-le xs)

  member-distinct : (y : A) (xs : List A) → member d y (distinct d xs) ≡ member d y xs
  member-distinct y [] = refl
  member-distinct y (x ∷ xs) =
      ground (arith, member-distinct y xs, member-distinct x xs, ap (λ z. member d z xs))

  AreDistinct-of_length : (xs : List A) → length (distinct d xs) ≡ length xs → AreDistinct xs
  AreDistinct-of_length [] e = tt
  AreDistinct-of_length (x ∷ xs) e =
      ground (arith, length-distinct-le xs, member-distinct x xs, AreDistinct-of_length xs)

  length-distinct : (xs : List A) → AreDistinct xs → length (distinct d xs) ≡ length xs
  length-distinct [] v = refl
  length-distinct (x ∷ xs) v = ground (arith, length-distinct xs v.1, member-distinct x xs)

abbrev references : CapabilityReport → List String
references report = map (λ e. e.reference) report.environments

-- The four numbers that decoding compares.
abbrev IsSized : CapabilityReport → Type 0
IsSized report =
    (length report.supported_runners ≤ 32)
    × (length report.environments ≤ 128)
    × (length (distinct SupportedRunner-discrete report.supported_runners)
        ≡ length report.supported_runners)
    × (length (distinct String_discrete (references report)) ≡ length report.environments)

try_from-IsSized : (report : CapabilityReport) → (try_from report ≡ ok report) ↔ IsSized report
unfolding try_from
try_from-IsSized report = (λ e. ground arith, λ v. ground arith)

report_kept : (report decoded : CapabilityReport) → try_from report ≡ ok decoded → decoded ≡ report
unfolding try_from
report_kept report decoded e = ground arith

-- What decodes from a report is the report itself, and it decodes exactly when it has at most 32
-- runners and 128 environments, and no runner and no image reference is listed twice: any other one
-- fails.
pub try_from-report_iff :
    (report decoded : CapabilityReport)
    → (try_from report ≡ ok decoded) ↔ (
        (decoded ≡ report)
        × (length report.supported_runners ≤ 32)
        × (length report.environments ≤ 128)
        × AreDistinct SupportedRunner-discrete report.supported_runners
        × AreDistinct String_discrete (map (λ e. e.reference) report.environments))
try_from-report_iff report decoded = (
  λ e.
      let same = report_kept report decoded e in
      let sized = (try_from-IsSized report).0 (rw same at e) in
      (
        same,
        sized.0,
        sized.1,
        AreDistinct-of_length SupportedRunner-discrete report.supported_runners sized.2,
        AreDistinct-of_length String_discrete (references report) (sized.3 ∙ sym mapped),
      ),
  λ (same, runners, environments, once, unique).
      (try_from-IsSized report).1 (
        runners,
        environments,
        length-distinct SupportedRunner-discrete report.supported_runners once,
        length-distinct String_discrete (references report) unique ∙ mapped,
      )
      ∙ ap ok (sym same),
)
  where
    mapped : length (references report) ≡ length report.environments
    mapped = length-map report.environments (λ e. e.reference)
