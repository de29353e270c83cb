-- ===== src/JobLog/Placed.antt =====
-- Where the lines of a log end up, crates/gridops-core/src/job_log.rs.
use gridops.Prelude.{◌<◌, ◌≡◌, refl, ap, ◌∙◌, Bool, some, List, [], ◌∷◌, map, length, arith}
use gridops.JobLog.Order.{
  CleanLogLine, count_lines, count_lines-sort, IsOrdered, sort_lines-IsOrdered,
}
use gridops.JobLog.Steps.{
  WorkflowStep, LogStep, empty_step, initial_steps, take_all_errors, sort_steps, arrange,
}
use gridops.JobLog.Counted.{
  head_of, heads, count_all, heads-length, place_lines-counted, push_all-counted,
  take_all_errors-counted,
}

abbrev pub AreOrdered : List LogStep → Type 0
AreOrdered [] = Unit
AreOrdered (s ∷ ss) = IsOrdered s.lines × AreOrdered ss

sort_steps-counted :
    (steps : List LogStep)
    → (heads (sort_steps steps) ≡ heads steps)
      × AreOrdered (sort_steps steps)
      × ((test : CleanLogLine → Bool) → count_all test (sort_steps steps) ≡ count_all test steps)
unfolding sort_steps count_all
sort_steps-counted [] = (refl, tt, λ test. refl)
sort_steps-counted (s ∷ ss) =
    let (same, ordered, counted) = sort_steps-counted ss in
    (
      ap (λ t. head_of s ∷ t) same,
      (sort_lines-IsOrdered s.lines, ordered),
      λ test. omega (arith, counted test, count_lines-sort test s.lines),
    )

initial-heads : (metadata : List WorkflowStep) → heads (map empty_step metadata) ≡ metadata
initial-heads [] = refl
initial-heads (m ∷ ms) = ap (λ t. m ∷ t) (initial-heads ms)

initial-empty :
    (test : CleanLogLine → Bool) (ms : List WorkflowStep) → count_all test (map empty_step ms) ≡ 0
unfolding count_all count_lines
initial-empty test [] = refl
initial-empty test (m ∷ ms) = omega (arith, initial-empty test ms)

initial_steps-counted :
    (metadata : List WorkflowStep)
    → (0 < length (initial_steps metadata))
      × ((test : CleanLogLine → Bool) → count_all test (initial_steps metadata) ≡ 0)
unfolding initial_steps count_all count_lines
initial_steps-counted [] = (omega arith, λ test. refl)
initial_steps-counted (m ∷ ms) = (omega arith, λ test. omega (arith, initial-empty test (m ∷ ms)))

-- No line is lost, doubled or put out of range: the arrangement always succeeds, has the steps of the
-- metadata (or the one step that stands for none) in their order, holds each kind of line exactly as
-- often as the log does, and has the lines of each step in the order of their times.
pub arrange-IsComplete :
    (metadata : List WorkflowStep) (lines : List CleanLogLine)
    → (steps : List LogStep) × (arrange metadata lines ≡ some steps)
      × (heads steps ≡ heads (initial_steps metadata))
      × ((test : CleanLogLine → Bool) → count_all test steps ≡ count_lines test lines)
      × AreOrdered steps
unfolding arrange
arrange-IsComplete metadata lines =
    let (long, none_yet) = initial_steps-counted metadata in
    let (placed, done, same, counted) = place_lines-counted lines (initial_steps metadata) long in
    let (ranged, same_taken, counted_taken) = take_all_errors-counted placed placed in
    let left = (take_all_errors placed placed).0 in
    let moved = (take_all_errors placed placed).1 in
    let size : length left ≡ length placed =
      omega (arith, heads-length left, heads-length placed, ap length same_taken) in
    let (pushed, done_pushed, same_pushed, counted_pushed) =
      push_all-counted moved left (rw size ranged) in
    let (same_sorted, ordered, counted_sorted) = sort_steps-counted pushed in
    (
      sort_steps pushed,
      rw (done, arrange) (rw (done_pushed, arrange) refl),
      same_sorted ∙ same_pushed ∙ same_taken ∙ same,
      λ test. omega (
        arith,
        none_yet test,
        counted test,
        counted_taken test,
        counted_pushed test,
        counted_sorted test,
      ),
      ordered,
    )
