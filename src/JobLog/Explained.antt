-- ===== src/JobLog/Explained.antt =====
-- What the annotations of a log show, crates/gridops-core/src/job_log.rs.
use gridops.Prelude.{
  ℕ, ◌≡◌, refl, ◌∙◌, Bool, true, not, ◌&&◌, Bool-cases, inl, inr, Option, some, List, [], ◌∷◌, ◌++◌,
  eqb_iff, length, arith,
}
use gridops.Prelude.Int.{ℤ, ℤ-discrete}
use gridops.JobLog.Lines.{Level-discrete}
use gridops.JobLog.Order.{CleanLogLine, count_lines}
use gridops.JobLog.Cleaning.{clean_job_lines}
use gridops.JobLog.Steps.{WorkflowStep, LogStep, is_failure, initial_steps}
use gridops.JobLog.Counted.{heads, count_all}
use gridops.JobLog.Placed.{arrange-IsComplete}
use gridops.JobLog.Annotations.{
  LogAnnotation, Key, key_of, has_key, is_notable, annotation_of, noted, annotate_lines,
  is_error_of, has_error, failure_of, annotate_step, annotate_steps, line_count, ParsedJobLog,
  annotated, structure_job_log,
}
use gridops.JobLog.Shown.{
  Grows, shows, is_shown, same_text_refl, is_shown-last, has_error-last, noted-Grows,
  annotate_lines-Grows, failure-Grows, annotate_step-Grows, annotate_steps-Grows, IsKeyed,
  LinesAreShown,
}

-- Every failed step has an error, and every notable line of each step is shown.
abbrev pub AreExplained : List LogStep → List LogAnnotation → Type 0
AreExplained [] anns = Unit
AreExplained (s ∷ ss) anns =
    (is_failure s.conclusion ≡ true → has_error s.number anns ≡ true)
    × LinesAreShown s s.lines anns
    × AreExplained ss anns

own_shown : (s : LogStep) (l : CleanLogLine) → shows (key_of s l) (annotation_of s l) ≡ true
own_shown s l =
    let level = (eqb_iff Level-discrete l.level l.level).1 refl in
    let number = (eqb_iff ℤ-discrete s.number s.number).1 refl in
    rw level (rw number (same_text_refl l.text))

noted-shown :
    (s : LogStep) (l : CleanLogLine) (a : List LogAnnotation × List Key)
    → IsKeyed a
    → is_notable l.level ≡ true
    → is_shown (key_of s l) (noted s l a).0 ≡ true
noted-shown s l (anns, keys) w notable = elim (Bool-cases (has_key (key_of s l) keys)) [
  | inl known ↦ rw (notable, known) (w (key_of s l) known)
  | inr fresh ↦
      rw (notable, fresh) (is_shown-last (key_of s l) anns (annotation_of s l) (own_shown s l))
]

LinesAreShown-mono :
    (s : LogStep) (ls : List CleanLogLine) (a b : List LogAnnotation × List Key)
    → Grows a b
    → LinesAreShown s ls a.0
    → LinesAreShown s ls b.0
LinesAreShown-mono s [] a b g h = tt
LinesAreShown-mono s (l ∷ ls) a b g h =
    (λ n. g.shown (key_of s l) (h.0 n), LinesAreShown-mono s ls a b g h.1)

annotate_lines-shown :
    (s : LogStep) (ls : List CleanLogLine) (a : List LogAnnotation × List Key)
    → IsKeyed a
    → LinesAreShown s ls (annotate_lines s ls a).0
unfolding annotate_lines
annotate_lines-shown s [] a w = tt
annotate_lines-shown s (l ∷ ls) a w =
    let next = noted s l a in
    (
      λ n. (annotate_lines-Grows s ls next).shown (key_of s l) (noted-shown s l a w n),
      annotate_lines-shown s ls next ((noted-Grows s l a).keyed w),
    )

own_error : (s : LogStep) → is_error_of s.number (failure_of s) ≡ true
unfolding Level-discrete
own_error s = rw ((eqb_iff ℤ-discrete s.number s.number).1 refl) refl

-- A step's own round.
annotate_step-explains :
    (s : LogStep) (a : List LogAnnotation × List Key)
    → IsKeyed a
    → (is_failure s.conclusion ≡ true → has_error s.number (annotate_step s a).0 ≡ true)
      × LinesAreShown s s.lines (annotate_step s a).0
unfolding annotate_step
annotate_step-explains s a w =
    let (anns, keys) = annotate_lines s s.lines a in
    let shown = annotate_lines-shown s s.lines a w in
    elim (Bool-cases (is_failure s.conclusion && not (has_error s.number anns))) [
      | inl fails ↦ rw fails (
        λ f. has_error-last s.number anns (failure_of s) (own_error s),
        LinesAreShown-mono s s.lines (anns, keys) (anns ++ failure_of s ∷ [], keys)
            (failure-Grows s anns keys) shown,
      )
      | inr explained ↦ rw explained (λ f. ground arith, shown)
    ]

annotate_steps-explains :
    (ss : List LogStep) (a : List LogAnnotation × List Key)
    → IsKeyed a
    → AreExplained ss (annotate_steps ss a).0
unfolding annotate_steps
annotate_steps-explains [] a w = tt
annotate_steps-explains (s ∷ ss) a w =
    let next = annotate_step s a in
    let (fails, shown) = annotate_step-explains s a w in
    let later = annotate_steps-Grows ss next in
    (
      λ f. later.errors s.number (fails f),
      LinesAreShown-mono s s.lines next _ later shown,
      annotate_steps-explains ss next ((annotate_step-Grows s a).keyed w),
    )

count_every : (ls : List CleanLogLine) → count_lines (λ l. true) ls ≡ length ls
unfolding count_lines
count_every [] = refl
count_every (l ∷ ls) = omega (arith, count_every ls)

line_count-count_all : (ss : List LogStep) → line_count ss ≡ count_all (λ l. true) ss
unfolding line_count count_all
line_count-count_all [] = refl
line_count-count_all (s ∷ ss) = omega (arith, count_every s.lines, line_count-count_all ss)

-- A log is always structured, into the steps that the metadata name, or the one that stands for
-- none. Its steps hold its cleaned lines and no others, each as often as it was cleaned, and its
-- line count is their number; every step that failed has an error among the annotations; and every
-- error and every warning in a step is shown by an annotation of its level, step and text.
pub structure_job_log-AreExplained :
    (parse : List ℕ → Option ℤ) (raw : List ℕ) (metadata : List WorkflowStep) (is_local : Bool)
    → (log : ParsedJobLog) × (structure_job_log parse raw metadata is_local ≡ some log)
      × (heads log.steps ≡ heads (initial_steps metadata))
      × (log.line_count ≡ length (clean_job_lines parse raw is_local).0)
      × ((test : CleanLogLine → Bool)
          → count_all test log.steps ≡ count_lines test (clean_job_lines parse raw is_local).0)
      × (log.hidden_diagnostic_lines ≡ (clean_job_lines parse raw is_local).1)
      × AreExplained log.steps log.annotations
unfolding structure_job_log annotated has_key
structure_job_log-AreExplained parse raw metadata is_local =
    let (lines, hidden) = clean_job_lines parse raw is_local in
    let (steps, done, same, counted, ordered) = arrange-IsComplete metadata lines in
    (
      annotated hidden steps,
      rw (done, structure_job_log) refl,
      same,
      line_count-count_all steps ∙ counted (λ l. true) ∙ count_every lines,
      counted,
      refl,
      annotate_steps-explains steps ([], []) (λ k h. cc h),
    )
