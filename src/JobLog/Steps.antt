-- ===== src/JobLog/Steps.antt =====
-- The steps of `structure_job_log` in crates/gridops-core/src/job_log.rs: where its lines go.
use gridops.Prelude.{
  ℕ, zero, suc, Bool, true, false, not, ◌&&◌, Option, none, some, List, [], ◌∷◌, ◌++◌, map, eqb,
  if◌then◌else◌,
}
use gridops.Prelude.Int.{ℤ, pos, ltb_ℤ, ◌+ℤ◌}
use gridops.Prelude.Text.{codes}
use gridops.JobLog.Lines.{Level-discrete, error, same_text}
use gridops.JobLog.Order.{CleanLogLine, sort_lines}

-- `GitHubWorkflowStep`, with the times that `github_date_millis` reads in it; its status and the
-- texts of its times are passed on as they are.
pub record WorkflowStep : Type 0 where
  pub number : ℤ
  pub name : List ℕ
  pub conclusion : Option (List ℕ)
  pub started_at : Option ℤ
  pub completed_at : Option ℤ

-- `StructuredLogStep`.
pub record LogStep : Type 0 where
  pub number : ℤ
  pub name : List ℕ
  pub conclusion : Option (List ℕ)
  pub started_at : Option ℤ
  pub completed_at : Option ℤ
  pub lines : List CleanLogLine

abbrev pub empty_step : WorkflowStep → LogStep
empty_step s = record {
  number = s.number;
  name = s.name;
  conclusion = s.conclusion;
  started_at = s.started_at;
  completed_at = s.completed_at;
  lines = [];
}

abbrev pub job_output : LogStep
job_output = record {
  number = pos 1;
  name = codes "Job output";
  conclusion = none;
  started_at = none;
  completed_at = none;
  lines = [];
}

-- Without metadata there is one step.
unfoldable pub initial_steps : List WorkflowStep → List LogStep
initial_steps [] = job_output ∷ []
initial_steps (s ∷ ss) = map empty_step (s ∷ ss)

-- `filter(..).next_back()` over an enumeration: the last position that meets the test.
abbrev pub or_here : Bool → Option ℕ → Option ℕ
or_here here (some i) = some (suc i)
or_here here none = if here then some 0 else none

unfoldable pub last_where {ℓ} : {A : Type ℓ} → (A → Bool) → List A → Option ℕ
last_where test [] = none
last_where test (x ∷ xs) = or_here (test x) (last_where test xs)

-- `*start <= timestamp` of a step that has a start.
abbrev pub has_started : ℤ → LogStep → Bool
has_started t s = elim s.started_at [ none ↦ false | some start ↦ not (ltb_ℤ t start) ]

abbrev pub or_first : Option ℕ → ℕ
or_first none = 0
or_first (some i) = i

abbrev pub step_of : List LogStep → Option ℤ → ℕ
step_of steps none = 0
step_of steps (some t) = or_first (last_where (has_started t) steps)

-- `steps[index].lines.push(line)`; an index out of range would be a panic.
unfoldable pub push_line : ℕ → CleanLogLine → List LogStep → Option (List LogStep)
push_line i l [] = none
push_line zero l (s ∷ ss) = some (record s { lines = s.lines ++ (l ∷ []) } ∷ ss)
push_line (suc i) l (s ∷ ss) = elim (push_line i l ss) [ none ↦ none | some rest ↦ some (s ∷ rest) ]

-- The first `for` loop.
unfoldable pub place_lines : List CleanLogLine → List LogStep → Option (List LogStep)
place_lines [] steps = some steps
place_lines (l ∷ ls) steps = elim (push_line (step_of steps l.timestamp_millis) l steps) [
  | none ↦ none
  | some placed ↦ place_lines ls placed
]

abbrev pub is_failure : Option (List ℕ) → Bool
is_failure none = false
is_failure (some text) = same_text text (codes "failure")

-- A step that failed and ran at this time; its end is given a second more.
abbrev pub is_none_or : Option ℤ → (ℤ → Bool) → Bool
is_none_or none test = true
is_none_or (some t) test = test t

abbrev pub failed_at : ℤ → LogStep → Bool
failed_at t s =
    is_failure s.conclusion
    && (is_none_or s.started_at (λ start. not (ltb_ℤ t start))
        && is_none_or s.completed_at (λ end. not (ltb_ℤ (end +ℤ pos 1000) t)))

abbrev pub failed_index : List LogStep → Option ℤ → Option ℕ
failed_index steps none = none
failed_index steps (some t) = last_where (failed_at t) steps

-- Where an error of a step that did not fail is moved to. `all` are the steps before the loop.
abbrev pub target : List LogStep → CleanLogLine → Option ℕ
target all l =
    if eqb Level-discrete l.level error then failed_index all l.timestamp_millis else none

-- The lines that stay, and those that go with their target.
abbrev pub sorted_out :
    Option ℕ
    → CleanLogLine
    → List CleanLogLine × List (ℕ × CleanLogLine)
    → List CleanLogLine × List (ℕ × CleanLogLine)
sorted_out none l (retained, moved) = (l ∷ retained, moved)
sorted_out (some i) l (retained, moved) = (retained, (i, l) ∷ moved)

unfoldable pub split_errors :
    List LogStep → List CleanLogLine → List CleanLogLine × List (ℕ × CleanLogLine)
split_errors all [] = ([], [])
split_errors all (l ∷ ls) = sorted_out (target all l) l (split_errors all ls)

-- One round of the loop over the steps.
unfoldable pub take_errors : List LogStep → LogStep → LogStep × List (ℕ × CleanLogLine)
take_errors all s =
    if is_failure s.conclusion
    then (s, [])
    else (record s { lines = (split_errors all s.lines).0 }, (split_errors all s.lines).1)

unfoldable pub take_all_errors :
    List LogStep → List LogStep → List LogStep × List (ℕ × CleanLogLine)
take_all_errors all [] = ([], [])
take_all_errors all (s ∷ ss) =
    let (s', moved) = take_errors all s in
    let (ss', rest) = take_all_errors all ss in (s' ∷ ss', moved ++ rest)

-- The loop over the reassigned errors.
unfoldable pub push_all : List (ℕ × CleanLogLine) → List LogStep → Option (List LogStep)
push_all [] steps = some steps
push_all ((i, l) ∷ rest) steps = elim (push_line i l steps) [
  | none ↦ none
  | some pushed ↦ push_all rest pushed
]

unfoldable pub sort_steps : List LogStep → List LogStep
sort_steps [] = []
sort_steps (s ∷ ss) = record s { lines = sort_lines s.lines } ∷ sort_steps ss

-- The steps with all their lines, before the annotations.
unfoldable pub arrange : List WorkflowStep → List CleanLogLine → Option (List LogStep)
arrange metadata lines = elim (place_lines lines (initial_steps metadata)) [
  | none ↦ none
  | some placed ↦
      elim (push_all (take_all_errors placed placed).1 (take_all_errors placed placed).0) [
        | none ↦ none
        | some moved ↦ some (sort_steps moved)
      ]
]
