-- ===== src/JobLog/Order.antt =====
-- `sort_by_key(|line| line.timestamp_millis.unwrap_or(i64::MIN))` of
-- crates/gridops-core/src/job_log.rs, a stable sort, and the counting of lines.
use gridops.Prelude.{
  ℕ, ◌+◌, ◌≡◌, refl, Bool, true, false, Bool-cases, inl, inr, Option, none, some, List, [], ◌∷◌,
  ◌++◌, arith, if◌then◌else◌, not,
}
use gridops.Prelude.Int.{ℤ, ltb_ℤ}
use gridops.JobLog.Lines.{Level}

-- `CleanLogLine`; its `timestamp` is the text of `timestamp_millis`.
pub record CleanLogLine : Type 0 where
  pub timestamp_millis : Option ℤ
  pub text : List ℕ
  pub level : Level

-- A line goes before another one: its time is earlier, no time being the earliest.
abbrev pub is_earlier : Option ℤ → Option ℤ → Bool
is_earlier s none = false
is_earlier none (some t) = true
is_earlier (some s) (some t) = ltb_ℤ s t

-- A line is put in front of those that are later, behind those of its own time.
unfoldable pub insert_line : CleanLogLine → List CleanLogLine → List CleanLogLine
insert_line l [] = l ∷ []
insert_line l (x ∷ xs) =
    let further = x ∷ insert_line l xs in
    if is_earlier x.timestamp_millis l.timestamp_millis then further else l ∷ x ∷ xs

unfoldable pub sort_lines : List CleanLogLine → List CleanLogLine
sort_lines [] = []
sort_lines (l ∷ ls) = insert_line l (sort_lines ls)

-- How many lines meet a test.
unfoldable pub count_lines : (CleanLogLine → Bool) → List CleanLogLine → ℕ
count_lines test [] = 0
count_lines test (l ∷ ls) = (if test l then 1 else 0) + count_lines test ls

pub count_lines-append :
    (test : CleanLogLine → Bool) (xs ys : List CleanLogLine)
    → count_lines test (xs ++ ys) ≡ count_lines test xs + count_lines test ys
unfolding count_lines
count_lines-append test [] ys = omega arith
count_lines-append test (x ∷ xs) ys = omega (arith, count_lines-append test xs ys)

count_lines-insert :
    (test : CleanLogLine → Bool) (l : CleanLogLine) (xs : List CleanLogLine)
    → count_lines test (insert_line l xs) ≡ (if test l then 1 else 0) + count_lines test xs
unfolding count_lines insert_line
count_lines-insert test l [] = refl
count_lines-insert test l (x ∷ xs) =
    elim (Bool-cases (is_earlier x.timestamp_millis l.timestamp_millis)) [
      | inl later ↦ rw later (omega (arith, count_lines-insert test l xs))
      | inr here ↦ rw here refl
    ]

pub count_lines-sort :
    (test : CleanLogLine → Bool) (xs : List CleanLogLine)
    → count_lines test (sort_lines xs) ≡ count_lines test xs
unfolding count_lines sort_lines
count_lines-sort test [] = refl
count_lines-sort test (x ∷ xs) =
    omega (arith, count_lines-insert test x (sort_lines xs), count_lines-sort test xs)

-- No line stands behind a later one.
abbrev pub starts_after : CleanLogLine → List CleanLogLine → Bool
starts_after l [] = true
starts_after l (x ∷ xs) = not (is_earlier x.timestamp_millis l.timestamp_millis)

abbrev pub IsOrdered : List CleanLogLine → Type 0
IsOrdered [] = Unit
IsOrdered (l ∷ ls) = (starts_after l ls ≡ true) × IsOrdered ls

earlier_asym : (s t : Option ℤ) → is_earlier s t ≡ true → is_earlier t s ≡ false
earlier_asym none none h = refl
earlier_asym (some s) none h = cc
earlier_asym none (some t) h = refl
earlier_asym (some s) (some t) h = ground arith

insert_line-starts :
    (x l : CleanLogLine) (xs : List CleanLogLine)
    → is_earlier x.timestamp_millis l.timestamp_millis ≡ true
    → starts_after x xs ≡ true
    → starts_after x (insert_line l xs) ≡ true
unfolding insert_line
insert_line-starts x l [] e h = ground (arith, earlier_asym x.timestamp_millis l.timestamp_millis)
insert_line-starts x l (y ∷ ys) e h =
    elim (Bool-cases (is_earlier y.timestamp_millis l.timestamp_millis)) [
      | inl later ↦ rw later h
      | inr here ↦ rw here (ground (arith, earlier_asym x.timestamp_millis l.timestamp_millis))
    ]

insert_line-IsOrdered :
    (l : CleanLogLine) (xs : List CleanLogLine) → IsOrdered xs → IsOrdered (insert_line l xs)
unfolding insert_line
insert_line-IsOrdered l [] o = (refl, tt)
insert_line-IsOrdered l (x ∷ xs) o =
    elim (Bool-cases (is_earlier x.timestamp_millis l.timestamp_millis)) [
      | inl later ↦ rw later (insert_line-starts x l xs later o.0, insert_line-IsOrdered l xs o.1)
      | inr here ↦ rw here (ground arith, o)
    ]

pub sort_lines-IsOrdered : (xs : List CleanLogLine) → IsOrdered (sort_lines xs)
unfolding sort_lines
sort_lines-IsOrdered [] = tt
sort_lines-IsOrdered (x ∷ xs) = insert_line-IsOrdered x (sort_lines xs) (sort_lines-IsOrdered xs)
