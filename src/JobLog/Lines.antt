-- ===== src/JobLog/Lines.antt =====
-- One line of a log: `strip_ansi_sequences`, `split_log_timestamp` and `classify_console_line` of
-- crates/gridops-core/src/job_log.rs.
pub mod Stripped
use gridops.Prelude.{
  ℕ, suc, ◌+◌, ◌≡◌, String, Bool, true, false, not, ◌&&◌, ◌||◌, Option, none, some, List, [], ◌∷◌,
  ◌++◌, ltb, leb, ◌==◌, if◌then◌else◌,
}
use gridops.Prelude.Int.{ℤ}
use gridops.Prelude.Text.{codes}

pub data Level : Type 0 where
  group error warning notice command output : Level

unfoldable pub Level-discrete : Discrete Level
Level-discrete = hlevel

abbrev pub escape_char : ℕ
escape_char = 27

unfoldable pub is_ascii_alphabetic : ℕ → Bool
is_ascii_alphabetic c = leb b'A' c && leb c b'Z' || leb b'a' c && leb c b'z'

-- Where the loop of `strip_ansi_sequences` stands: in the text, after an escape, or in a sequence.
pub data Mode : Type 0 where
  text escaped sequence : Mode

unfoldable pub strip : Mode → List ℕ → List ℕ
strip mode [] = []
strip text (c ∷ cs) =
    let rest = strip text cs in
    let after = strip escaped cs in if c == escape_char then after else c ∷ rest
strip escaped (c ∷ cs) =
    let inside = strip sequence cs in
    let rest = strip text cs in
    let after = strip escaped cs in
    if c == b'[' then inside else (if c == escape_char then after else c ∷ rest)
strip sequence (c ∷ cs) =
    let rest = strip text cs in
    let inside = strip sequence cs in if is_ascii_alphabetic c then rest else inside

unfoldable pub strip_ansi_sequences : List ℕ → List ℕ
strip_ansi_sequences cs = strip text cs

-- `char::is_whitespace`.
unfoldable pub is_whitespace : ℕ → Bool
is_whitespace c =
    leb 9 c && leb c 13
    || c == 32
    || c == 133
    || c == 160
    || c == 5760
    || leb 8192 c && leb c 8202
    || c == 8232
    || c == 8233
    || c == 8239
    || c == 8287
    || c == 12288

unfoldable pub trim_start_where : (ℕ → Bool) → List ℕ → List ℕ
trim_start_where test [] = []
trim_start_where test (c ∷ cs) =
    let rest = trim_start_where test cs in if test c then rest else c ∷ cs

-- The last characters that meet the test are dropped.
abbrev pub trimmed_onto : Bool → ℕ → List ℕ → List ℕ
trimmed_onto dropped c [] = if dropped then [] else c ∷ []
trimmed_onto dropped c (d ∷ ds) = c ∷ d ∷ ds

unfoldable pub trim_end_where : (ℕ → Bool) → List ℕ → List ℕ
trim_end_where test [] = []
trim_end_where test (c ∷ cs) = trimmed_onto (test c) c (trim_end_where test cs)

abbrev pub trim_end : List ℕ → List ℕ
trim_end cs = trim_end_where is_whitespace cs

abbrev pub is_empty : List ℕ → Bool
is_empty [] = true
is_empty (c ∷ cs) = false

abbrev pub is_blank : List ℕ → Bool
is_blank [] = true
is_blank (c ∷ cs) = is_whitespace c && is_blank cs

-- `strip_prefix`.
unfoldable pub strip_prefix : List ℕ → List ℕ → Option (List ℕ)
strip_prefix [] cs = some cs
strip_prefix (p ∷ ps) [] = none
strip_prefix (p ∷ ps) (c ∷ cs) = let rest = strip_prefix ps cs in if p == c then rest else none

abbrev pub is_some {ℓ} : {A : Type ℓ} → Option A → Bool
is_some none = false
is_some (some a) = true

abbrev pub starts_with : List ℕ → List ℕ → Bool
starts_with cs p = is_some (strip_prefix p cs)

-- `split_once(at)`.
abbrev pub grown : ℕ → Option (List ℕ × List ℕ) → Option (List ℕ × List ℕ)
grown c none = none
grown c (some (before, after)) = some (c ∷ before, after)

unfoldable pub split_once : ℕ → List ℕ → Option (List ℕ × List ℕ)
split_once at [] = none
split_once at (c ∷ cs) =
    let rest = grown c (split_once at cs) in if c == at then some ([], cs) else rest

-- `find` of a text.
abbrev pub moved : Option ℕ → Option ℕ
moved none = none
moved (some i) = some (suc i)

unfoldable pub find : List ℕ → List ℕ → Option ℕ
find p [] = if is_empty p then some 0 else none
find p (c ∷ cs) = let rest = moved (find p cs) in if starts_with (c ∷ cs) p then some 0 else rest

unfoldable pub same_text : List ℕ → List ℕ → Bool
same_text [] [] = true
same_text [] (y ∷ ys) = false
same_text (x ∷ xs) [] = false
same_text (x ∷ xs) (y ∷ ys) = x == y && same_text xs ys

-- The mark that some texts begin with, U+FEFF.
abbrev pub is_mark : ℕ → Bool
is_mark c = c == 65279

-- `chrono::DateTime::parse_from_rfc3339`, in milliseconds.
module _ (parse_from_rfc3339 : List ℕ → Option ℤ) where
  abbrev pub timed : List ℕ → List ℕ → Option ℤ → Option ℤ × List ℕ
  timed value rest none = (none, value)
  timed value rest (some t) = (some t, rest)

  abbrev pub timed_parts : List ℕ → Option (List ℕ × List ℕ) → Option ℤ × List ℕ
  timed_parts value none = (none, value)
  timed_parts value (some (candidate, rest)) = timed value rest (parse_from_rfc3339 candidate)

  unfoldable pub split_log_timestamp : List ℕ → Option ℤ × List ℕ
  split_log_timestamp value =
      let unmarked = trim_start_where is_mark value in
      timed_parts unmarked (split_once b' ' unmarked)

-- The text after `]`, if there is one.
abbrev pub message_of : Option (List ℕ × List ℕ) → Option (List ℕ)
message_of none = none
message_of (some (before, message)) = some message

abbrev pub message_in : Option (List ℕ) → Option (List ℕ)
message_in none = none
message_in (some rest) = message_of (split_once b']' rest)

unfoldable pub github_command_message : List ℕ → List ℕ → Option (List ℕ)
github_command_message value name = message_in (strip_prefix (codes "##[" ++ name) value)

-- The commands that the `for` loop tries, in order.
abbrev pub console_commands : List (List ℕ × Level)
console_commands =
    (codes "group", group)
    ∷ (codes "error", error)
    ∷ (codes "warning", warning)
    ∷ (codes "notice", notice)
    ∷ (codes "command", command)
    ∷ (codes "section", group)
    ∷ []

unfoldable pub first_command : List ℕ → List (List ℕ × Level) → Level × List ℕ
first_command value [] = (output, value)
first_command value ((name, level) ∷ rest) =
    let later = first_command value rest in
    elim (github_command_message value name) [ none ↦ later | some message ↦ (level, message) ]

unfoldable pub classify_console_line : List ℕ → Option (Level × List ℕ)
classify_console_line line =
    let value = trim_end line in
    if same_text value (codes "##[endgroup]") || starts_with value (codes "##[debug]")
    then none
    else some (first_command value console_commands)
