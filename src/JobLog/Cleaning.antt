-- ===== src/JobLog/Cleaning.antt =====
-- `clean_job_lines` of crates/gridops-core/src/job_log.rs.
use gridops.Prelude.{
  ℕ, ◌+◌, Bool, true, false, not, ◌&&◌, ◌||◌, Option, none, some, List, [], ◌∷◌, ◌++◌, min, eqb,
  ◌==◌, take, if◌then◌else◌,
}
use gridops.Prelude.Int.{ℤ, ℤ-discrete}
use gridops.Prelude.Text.{codes}
use gridops.JobLog.Lines.{
  Level, Level-discrete, output, strip_ansi_sequences, trim_start_where, trim_end_where, trim_end,
  is_empty, is_blank, is_mark, starts_with, find, same_text, split_log_timestamp,
  classify_console_line,
}
use gridops.JobLog.Order.{CleanLogLine, sort_lines}

-- `raw.lines()`: the texts between line feeds, without a last one that is empty.
unfoldable pub split_lines : List ℕ → List ℕ → List (List ℕ)
split_lines part [] = if is_empty part then [] else part ∷ []
split_lines part (c ∷ cs) =
    let next = part ∷ split_lines [] cs in
    let more = split_lines (part ++ (c ∷ [])) cs in if c == b'\n' then next else more

abbrev pub same_time : Option ℤ → Option ℤ → Bool
same_time none none = true
same_time none (some t) = false
same_time (some s) none = false
same_time (some s) (some t) = eqb ℤ-discrete s t

-- The keys of two lines are the same text.
abbrev pub same_line : CleanLogLine → CleanLogLine → Bool
same_line a b =
    same_time a.timestamp_millis b.timestamp_millis
    && (eqb Level-discrete a.level b.level && same_text a.text b.text)

unfoldable pub has_line : CleanLogLine → List CleanLogLine → Bool
has_line l [] = false
has_line l (x ∷ xs) = same_line x l || has_line l xs

-- What one physical line comes to: a line, or how many diagnostic lines it hides.
pub record Cleaned : Type 0 where
  pub line : Option CleanLogLine
  pub hidden : ℕ

abbrev pub dropped : ℕ → Cleaned
dropped n = record { line = none; hidden = n }

abbrev pub earliest : Option ℕ → Option ℕ → Option ℕ
earliest none b = b
earliest (some a) none = some a
earliest (some a) (some b) = some (min a b)

-- The classified body; a command with no text is dropped without being counted.
abbrev pub classified : Option ℤ → ℕ → Option (Level × List ℕ) → Cleaned
classified timestamp hidden none = dropped (hidden + 1)
classified timestamp hidden (some (level, text)) =
    if is_empty text && not (eqb Level-discrete level output) then dropped hidden else record {
      line = some (record { timestamp_millis = timestamp; text = text; level = level });
      hidden = hidden;
    }

-- A diagnostic of the runner in the middle of the body cuts it off.
abbrev pub cut_body : Option ℤ → List ℕ → Option ℕ → Cleaned
cut_body timestamp body none = classified timestamp 0 (classify_console_line body)
cut_body timestamp body (some i) =
    classified timestamp 1 (classify_console_line (trim_end (take i body)))

unfoldable pub clean_body : Option ℤ → List ℕ → Cleaned
clean_body timestamp body =
    if starts_with body (codes "[RUNNER ") || starts_with body (codes "[WORKER ")
    then dropped 1
    else cut_body timestamp body
        (earliest (find (codes "[WORKER ") body) (find (codes "[RUNNER ") body))

-- A local log has a second timestamp, without which a line is a diagnostic.
abbrev pub local_body : List ℕ → Option ℤ × List ℕ → Cleaned
local_body body (none, rest) = dropped (if is_blank body then 0 else 1)
local_body body (some t, rest) = clean_body (some t) rest

module _ (parse_from_rfc3339 : List ℕ → Option ℤ) where
  unfoldable pub clean_line : Bool → List ℕ → Cleaned
  clean_line is_local physical_line =
      let (outer, rest) =
        split_log_timestamp parse_from_rfc3339
          (strip_ansi_sequences (trim_end_where (λ c. c == b'\r') physical_line)) in
      let body = trim_start_where is_mark rest in
      if is_local
      then local_body body (split_log_timestamp parse_from_rfc3339 body)
      else clean_body outer body

  -- The loop, with the lines so far; a line that stands there already is not added.
  abbrev pub added : Option CleanLogLine → List CleanLogLine → List CleanLogLine
  added none lines = lines
  added (some l) lines = if has_line l lines then lines else lines ++ (l ∷ [])

  unfoldable pub clean_all : Bool → List (List ℕ) → List CleanLogLine → ℕ → List CleanLogLine × ℕ
  clean_all is_local [] lines hidden = (lines, hidden)
  clean_all is_local (p ∷ ps) lines hidden =
      let c = clean_line is_local p in
      clean_all is_local ps (added c.line lines) (hidden + c.hidden)

  unfoldable pub clean_job_lines : List ℕ → Bool → List CleanLogLine × ℕ
  clean_job_lines raw is_local =
      let (lines, hidden) = clean_all is_local (split_lines [] raw) [] 0 in
      (sort_lines lines, hidden)
