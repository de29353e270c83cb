-- ===== src/Examples/JobLog.antt =====
-- A log of two steps, one of which failed, crates/gridops-core/src/job_log.rs.
use gridops.Prelude.{
  ℕ, ◌≡◌, refl, Bool, true, false, Option, none, some, List, [], ◌∷◌, ◌++◌, length, ◌==◌,
  if◌then◌else◌,
}
use gridops.Prelude.Int.{ℤ, pos}
use gridops.Prelude.Text.{codes}
use gridops.JobLog.Lines.{output, error, escape_char, is_ascii_alphabetic, strip_ansi_sequences}
use gridops.JobLog.Lines.Stripped.{contains, are_parameters, strip_ansi_sequences_lem}
use gridops.JobLog.Order.{CleanLogLine, count_lines}
use gridops.JobLog.Cleaning.{clean_job_lines}
use gridops.JobLog.Steps.{WorkflowStep, LogStep, initial_steps, arrange}
use gridops.JobLog.Counted.{heads, count_all}
use gridops.JobLog.Placed.{AreOrdered, arrange-IsComplete}
use gridops.JobLog.Annotations.{ParsedJobLog, structure_job_log}
use gridops.JobLog.Explained.{AreExplained, structure_job_log-AreExplained}

abbrev build : WorkflowStep
build = record {
  number = pos 1;
  name = codes "Build";
  conclusion = some (codes "success");
  started_at = some (pos 49);
  completed_at = some (pos 52);
}

abbrev check : WorkflowStep
check = record {
  number = pos 2;
  name = codes "Check";
  conclusion = some (codes "failure");
  started_at = some (pos 52);
  completed_at = some (pos 57);
}

abbrev line_at : ℕ → CleanLogLine
line_at t = record { timestamp_millis = some (pos t); text = codes "compiling"; level = output }

abbrev broken_line : CleanLogLine
broken_line = record {
  timestamp_millis = some (pos 55);
  text = codes "no such file";
  level = error;
}

abbrev two_lines : List CleanLogLine
two_lines = line_at 50 ∷ broken_line ∷ []

arrange-IsComplete_example :
    (steps : List LogStep) × (arrange (build ∷ check ∷ []) two_lines ≡ some steps)
    × (heads steps ≡ heads (initial_steps (build ∷ check ∷ [])))
    × ((test : CleanLogLine → Bool) → count_all test steps ≡ count_lines test two_lines)
    × AreOrdered steps
arrange-IsComplete_example = arrange-IsComplete (build ∷ check ∷ []) two_lines

-- A timestamp is a T and the character of its time.
abbrev parse_short : List ℕ → Option ℤ
parse_short (c ∷ t ∷ []) = if c == b'T' then some (pos t) else none
parse_short _ = none

abbrev raw_log : List ℕ
raw_log =
    codes "T1 make"
    ++ (b'\n' ∷ (codes "T6 ##[error]no such file" ++ (b'\n' ∷ codes "T7 [RUNNER 2] closed")))

structure_job_log-AreExplained_example :
    (log : ParsedJobLog) × (structure_job_log parse_short raw_log (build ∷ check ∷ []) false
      ≡ some log)
    × (heads log.steps ≡ heads (initial_steps (build ∷ check ∷ [])))
    × (log.line_count ≡ length (clean_job_lines parse_short raw_log false).0)
    × ((test : CleanLogLine → Bool)
        → count_all test log.steps ≡ count_lines test (clean_job_lines parse_short raw_log false).0)
    × (log.hidden_diagnostic_lines ≡ (clean_job_lines parse_short raw_log false).1)
    × AreExplained log.steps log.annotations
structure_job_log-AreExplained_example =
    structure_job_log-AreExplained parse_short raw_log (build ∷ check ∷ []) false

abbrev red_word : List ℕ
red_word = codes "word"

ends_sequence : is_ascii_alphabetic b'm' ≡ true
unfolding is_ascii_alphabetic
ends_sequence = refl

plain_parameters : are_parameters (codes "31") ≡ true
unfolding is_ascii_alphabetic
plain_parameters = refl

strip_ansi_sequences_lem_example :
    (contains escape_char (strip_ansi_sequences raw_log) ≡ false)
    × (strip_ansi_sequences (codes "a ") ≡ codes "a ")
    × (strip_ansi_sequences (codes "a " ++ (escape_char ∷ b'[' ∷ (codes "31" ++ (b'm' ∷ red_word))))
        ≡ codes "a " ++ strip_ansi_sequences red_word)
strip_ansi_sequences_lem_example =
    strip_ansi_sequences_lem raw_log (codes "a ") red_word (codes "31") b'm' refl plain_parameters
      ends_sequence
