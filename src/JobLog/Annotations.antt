-- ===== src/JobLog/Annotations.antt =====
-- The annotations of `structure_job_log` in crates/gridops-core/src/job_log.rs, and the whole of it.
use gridops.Prelude.{
  ℕ, ◌+◌, Bool, false, not, ◌&&◌, ◌||◌, Option, none, some, List, [], ◌∷◌, ◌++◌, map, eqb, leb,
  length, if◌then◌else◌,
}
use gridops.Prelude.Int.{ℤ, ℤ-discrete}
use gridops.Prelude.Text.{codes}
use gridops.JobLog.Lines.{Level, Level-discrete, error, warning, same_text, find, is_some}
use gridops.JobLog.Order.{CleanLogLine}
use gridops.JobLog.Cleaning.{clean_job_lines}
use gridops.JobLog.Steps.{WorkflowStep, LogStep, is_failure, arrange}

pub record LogAnnotation : Type 0 where
  pub level : Level
  pub message : List ℕ
  pub step_number : ℤ
  pub step_name : List ℕ

-- The key of an annotation: its level, its step and its text.
pub record Key : Type 0 where
  pub level : Level
  pub number : ℤ
  pub text : List ℕ

abbrev pub key_of : LogStep → CleanLogLine → Key
key_of s l = record { level = l.level; number = s.number; text = l.text }

abbrev pub same_key : Key → Key → Bool
same_key a b =
    eqb Level-discrete a.level b.level
    && (eqb ℤ-discrete a.number b.number && same_text a.text b.text)

unfoldable pub has_key : Key → List Key → Bool
has_key k [] = false
has_key k (x ∷ xs) = same_key x k || has_key k xs

abbrev pub is_notable : Level → Bool
is_notable level = eqb Level-discrete level error || eqb Level-discrete level warning

abbrev pub annotation_of : LogStep → CleanLogLine → LogAnnotation
annotation_of s l = record {
  level = l.level;
  message = l.text;
  step_number = s.number;
  step_name = s.name;
}

-- The loop over the lines of a step, with the annotations and the keys so far.
abbrev pub noted :
    LogStep → CleanLogLine → List LogAnnotation × List Key → List LogAnnotation × List Key
noted s l (annotations, keys) =
    if is_notable l.level && not (has_key (key_of s l) keys)
    then (annotations ++ (annotation_of s l ∷ []), key_of s l ∷ keys)
    else (annotations, keys)

unfoldable pub annotate_lines :
    LogStep → List CleanLogLine → List LogAnnotation × List Key → List LogAnnotation × List Key
annotate_lines s [] so_far = so_far
annotate_lines s (l ∷ ls) so_far = annotate_lines s ls (noted s l so_far)

abbrev pub is_error_of : ℤ → LogAnnotation → Bool
is_error_of number a = eqb ℤ-discrete a.step_number number && eqb Level-discrete a.level error

unfoldable pub has_error : ℤ → List LogAnnotation → Bool
has_error number [] = false
has_error number (a ∷ rest) = is_error_of number a || has_error number rest

unfoldable pub to_ascii_lowercase : ℕ → ℕ
to_ascii_lowercase c = if leb b'A' c && leb c b'Z' then c + 32 else c

-- `iter().rev().find(..)`: the last line that speaks of an error.
abbrev pub or_line : Bool → List ℕ → Option (List ℕ) → Option (List ℕ)
or_line speaks text (some later) = some later
or_line speaks text none = if speaks then some text else none

unfoldable pub last_error_text : List CleanLogLine → Option (List ℕ)
last_error_text [] = none
last_error_text (l ∷ ls) =
    or_line (is_some (find (codes "error") (map to_ascii_lowercase l.text))) l.text
      (last_error_text ls)

abbrev pub or_default : Option (List ℕ) → List ℕ
or_default none = codes "Step concluded with failure."
or_default (some text) = text

abbrev pub failure_of : LogStep → LogAnnotation
failure_of s = record {
  level = error;
  message = or_default (last_error_text s.lines);
  step_number = s.number;
  step_name = s.name;
}

-- A failed step that has no error yet gets one.
unfoldable pub annotate_step :
    LogStep → List LogAnnotation × List Key → List LogAnnotation × List Key
annotate_step s so_far =
    let (annotations, keys) = annotate_lines s s.lines so_far in
    if is_failure s.conclusion && not (has_error s.number annotations)
    then (annotations ++ (failure_of s ∷ []), keys)
    else (annotations, keys)

unfoldable pub annotate_steps :
    List LogStep → List LogAnnotation × List Key → List LogAnnotation × List Key
annotate_steps [] so_far = so_far
annotate_steps (s ∷ ss) so_far = annotate_steps ss (annotate_step s so_far)

unfoldable pub line_count : List LogStep → ℕ
line_count [] = 0
line_count (s ∷ ss) = length s.lines + line_count ss

pub record ParsedJobLog : Type 0 where
  pub steps : List LogStep
  pub annotations : List LogAnnotation
  pub line_count : ℕ
  pub hidden_diagnostic_lines : ℕ

unfoldable pub annotated : ℕ → List LogStep → ParsedJobLog
annotated hidden steps = record {
  steps = steps;
  annotations = (annotate_steps steps ([], [])).0;
  line_count = line_count steps;
  hidden_diagnostic_lines = hidden;
}

-- `structure_job_log`; `none` would be an index out of range. The parser of dates is chrono's.
unfoldable pub structure_job_log :
    (List ℕ → Option ℤ) → List ℕ → List WorkflowStep → Bool → Option ParsedJobLog
structure_job_log parse_from_rfc3339 raw metadata is_local =
    let (lines, hidden) = clean_job_lines parse_from_rfc3339 raw is_local in
    elim (arrange metadata lines) [ none ↦ none | some steps ↦ some (annotated hidden steps) ]
