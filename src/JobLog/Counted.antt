-- ===== src/JobLog/Counted.antt =====
-- The lines that the steps of crates/gridops-core/src/job_log.rs hold, before and after each loop.
use gridops.Prelude.{
  ℕ, zero, suc, ◌+◌, ◌<◌, ◌≡◌, refl, ap, ◌∙◌, Bool, Bool-cases, inl, inr, Option, none, some,
  Option-cases, List, [], ◌∷◌, ◌++◌, map, length, eqb, arith, if◌then◌else◌,
}
use gridops.Prelude.Int.{ℤ}
use gridops.JobLog.Lines.{Level-discrete, error}
use gridops.JobLog.Order.{CleanLogLine, count_lines, count_lines-append}
use gridops.JobLog.Steps.{
  WorkflowStep, LogStep, last_where, has_started, step_of, push_line, place_lines, is_failure,
  failed_at, failed_index, target, split_errors, take_errors, take_all_errors, push_all,
}

-- A step without its lines.
abbrev pub head_of : LogStep → WorkflowStep
head_of s = record {
  number = s.number;
  name = s.name;
  conclusion = s.conclusion;
  started_at = s.started_at;
  completed_at = s.completed_at;
}

abbrev pub heads : List LogStep → List WorkflowStep
heads steps = map head_of steps

-- How many lines of all steps meet a test.
unfoldable pub count_all : (CleanLogLine → Bool) → List LogStep → ℕ
count_all test [] = 0
count_all test (s ∷ ss) = count_lines test s.lines + count_all test ss

last_where-lt {ℓ} :
    {A : Type ℓ} (test : A → Bool) (xs : List A) {i : ℕ}
    → last_where test xs ≡ some i
    → i < length xs
unfolding last_where
last_where-lt test [] e = cc
last_where-lt test (x ∷ xs) e = elim (Option-cases (last_where test xs)) [
  | inr (j, later) ↦ ground (arith, last_where-lt test xs later)
  | inl nothing ↦ ground arith
]

pub heads-length : (steps : List LogStep) → length (heads steps) ≡ length steps
heads-length [] = refl
heads-length (s ∷ ss) = ap suc (heads-length ss)

-- A push in range adds the line and changes nothing else.
push_line-counted :
    (i : ℕ) (l : CleanLogLine) (steps : List LogStep)
    → i < length steps
    → (pushed : List LogStep) × (push_line i l steps ≡ some pushed)
      × (heads pushed ≡ heads steps)
      × ((test : CleanLogLine → Bool)
          → count_all test pushed ≡ (if test l then 1 else 0) + count_all test steps)
unfolding push_line count_all count_lines
push_line-counted i l [] h = ground arith
push_line-counted zero l (s ∷ ss) h = (
  record s { lines = s.lines ++ l ∷ [] } ∷ ss,
  refl,
  refl,
  λ test. omega (arith, count_lines-append test s.lines (l ∷ [])),
)
push_line-counted (suc i) l (s ∷ ss) h =
    let (rest, pushed, same, counted) = push_line-counted i l ss (omega arith) in
    (s ∷ rest, rw pushed refl, ap (λ t. head_of s ∷ t) same, λ test. omega (arith, counted test))

step_of-lt :
    (steps : List LogStep) (t : Option ℤ) → 0 < length steps → step_of steps t < length steps
step_of-lt steps none h = h
step_of-lt steps (some t) h = elim (Option-cases (last_where (has_started t) steps)) [
  | inl nothing ↦ rw nothing h
  | inr (i, found) ↦ rw found (last_where-lt (has_started t) steps found)
]

pub place_lines-counted :
    (ls : List CleanLogLine) (steps : List LogStep)
    → 0 < length steps
    → (placed : List LogStep) × (place_lines ls steps ≡ some placed)
      × (heads placed ≡ heads steps)
      × ((test : CleanLogLine → Bool)
          → count_all test placed ≡ count_lines test ls + count_all test steps)
unfolding place_lines count_lines
place_lines-counted [] steps h = (steps, refl, refl, λ test. omega arith)
place_lines-counted (l ∷ ls) steps h =
    let (next, pushed, same, counted) =
      push_line-counted (step_of steps l.timestamp_millis) l steps
        (step_of-lt steps l.timestamp_millis h) in
    let long : 0 < length next =
      omega (arith, heads-length next, heads-length steps, ap length same) in
    let (placed, done, same', counted') = place_lines-counted ls next long in
    (
      placed,
      rw (pushed, place_lines) done,
      same' ∙ same,
      λ test. omega (arith, counted test, counted' test),
    )

failed_index-lt :
    (all : List LogStep) (t : Option ℤ) {i : ℕ} → failed_index all t ≡ some i → i < length all
failed_index-lt all none e = cc
failed_index-lt all (some t) e = last_where-lt (failed_at t) all e

-- Every reassigned line has a step to go to.
abbrev pub AreInRange : ℕ → List (ℕ × CleanLogLine) → Type 0
AreInRange n [] = Unit
AreInRange n ((i, l) ∷ rest) = (i < n) × AreInRange n rest

AreInRange-append :
    (n : ℕ) (xs ys : List (ℕ × CleanLogLine))
    → AreInRange n xs
    → AreInRange n ys
    → AreInRange n (xs ++ ys)
AreInRange-append n [] ys h k = k
AreInRange-append n ((i, l) ∷ xs) ys h k = (h.0, AreInRange-append n xs ys h.1 k)

abbrev pub lines_of : List (ℕ × CleanLogLine) → List CleanLogLine
lines_of moved = map (λ (i, l). l) moved

pub count_moved : (CleanLogLine → Bool) → List (ℕ × CleanLogLine) → ℕ
count_moved test [] = 0
count_moved test ((i, l) ∷ rest) = (if test l then 1 else 0) + count_moved test rest

count_moved-append :
    (test : CleanLogLine → Bool) (xs ys : List (ℕ × CleanLogLine))
    → count_moved test (xs ++ ys) ≡ count_moved test xs + count_moved test ys
unfolding count_moved
count_moved-append test [] ys = omega arith
count_moved-append test ((i, l) ∷ xs) ys = omega (arith, count_moved-append test xs ys)

pub push_all-counted :
    (moved : List (ℕ × CleanLogLine)) (steps : List LogStep)
    → AreInRange (length steps) moved
    → (pushed : List LogStep) × (push_all moved steps ≡ some pushed)
      × (heads pushed ≡ heads steps)
      × ((test : CleanLogLine → Bool)
          → count_all test pushed ≡ count_moved test moved + count_all test steps)
unfolding push_all count_moved
push_all-counted [] steps h = (steps, refl, refl, λ test. omega arith)
push_all-counted ((i, l) ∷ moved) steps h =
    let (next, pushed, same, counted) = push_line-counted i l steps h.0 in
    let size : length next ≡ length steps =
      omega (arith, heads-length next, heads-length steps, ap length same) in
    let (placed, done, same', counted') = push_all-counted moved next (rw size h.1) in
    (
      placed,
      rw (pushed, push_all) done,
      same' ∙ same,
      λ test. omega (arith, counted test, counted' test),
    )

target-lt : (all : List LogStep) (l : CleanLogLine) {i : ℕ} → target all l ≡ some i → i < length all
target-lt all l e = elim (Bool-cases (eqb Level-discrete l.level error)) [
  | inr other ↦ cc (rw other at e)
  | inl is_error ↦ failed_index-lt all l.timestamp_millis (rw is_error at e)
]

-- The lines that stay and those that go are the lines of the step.
split_errors-counted :
    (all : List LogStep) (ls : List CleanLogLine)
    → AreInRange (length all) (split_errors all ls).1
      × ((test : CleanLogLine → Bool)
          → count_lines test ls
            ≡ count_lines test (split_errors all ls).0 + count_moved test (split_errors all ls).1)
unfolding split_errors count_lines count_moved
split_errors-counted all [] = (tt, λ test. refl)
split_errors-counted all (l ∷ ls) =
    let (ranged, counted) = split_errors-counted all ls in
    elim (Option-cases (target all l)) [
      | inl stays ↦ rw stays (ranged, λ test. omega (arith, counted test))
      | inr (i, goes) ↦
          rw goes ((target-lt all l goes, ranged), λ test. omega (arith, counted test))
    ]

pub take_all_errors-counted :
    (all steps : List LogStep)
    → AreInRange (length all) (take_all_errors all steps).1
      × (heads (take_all_errors all steps).0 ≡ heads steps)
      × ((test : CleanLogLine → Bool)
          → count_all test steps
            ≡ count_all test (take_all_errors all steps).0
              + count_moved test (take_all_errors all steps).1)
unfolding take_all_errors take_errors count_all count_moved
take_all_errors-counted all [] = (tt, refl, λ test. refl)
take_all_errors-counted all (s ∷ ss) =
    let (ranged, same, counted) = take_all_errors-counted all ss in
    elim (Bool-cases (is_failure s.conclusion)) [
      | inl failed ↦
          rw failed (ranged, ap (λ t. head_of s ∷ t) same, λ test. omega (arith, counted test))
      | inr passed ↦
          let (own, kept) = split_errors-counted all s.lines in
          rw passed (
            AreInRange-append (length all) _ _ own ranged,
            ap (λ t. head_of s ∷ t) same,
            λ test. omega (
              arith,
              counted test,
              kept test,
              count_moved-append test (split_errors all s.lines).1 (take_all_errors all ss).1,
            ),
          )
    ]
