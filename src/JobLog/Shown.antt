-- ===== src/JobLog/Shown.antt =====
-- Annotations as they grow, crates/gridops-core/src/job_log.rs.
use gridops.Prelude.{
  ℕ, ◌≡◌, refl, Bool, true, false, not, ◌&&◌, ◌||◌, Bool-cases, inl, inr, List, [], ◌∷◌, ◌++◌, eqb,
  arith,
}
use gridops.Prelude.Int.{ℤ, ℤ-discrete}
use gridops.JobLog.Lines.{Level-discrete, same_text}
use gridops.JobLog.Order.{CleanLogLine}
use gridops.JobLog.Steps.{LogStep, is_failure}
use gridops.JobLog.Annotations.{
  LogAnnotation, Key, key_of, same_key, has_key, is_notable, annotation_of, noted, annotate_lines,
  is_error_of, has_error, failure_of, annotate_step, annotate_steps,
}

-- An annotation with the key is there.
abbrev pub shows : Key → LogAnnotation → Bool
shows k a =
    eqb Level-discrete a.level k.level
    && (eqb ℤ-discrete a.step_number k.number && same_text a.message k.text)

pub is_shown : Key → List LogAnnotation → Bool
is_shown k [] = false
is_shown k (a ∷ rest) = shows k a || is_shown k rest

pub same_text_refl : (xs : List ℕ) → same_text xs xs ≡ true
unfolding same_text
same_text_refl [] = refl
same_text_refl (x ∷ xs) = ground (arith, same_text_refl xs)

is_shown-append :
    (k : Key) (xs ys : List LogAnnotation) → is_shown k xs ≡ true → is_shown k (xs ++ ys) ≡ true
unfolding is_shown
is_shown-append k [] ys h = cc
is_shown-append k (x ∷ xs) ys h = ground (arith, is_shown-append k xs ys)

pub is_shown-last :
    (k : Key) (xs : List LogAnnotation) (a : LogAnnotation)
    → shows k a ≡ true
    → is_shown k (xs ++ a ∷ []) ≡ true
unfolding is_shown
is_shown-last k [] a h = rw h refl
is_shown-last k (x ∷ xs) a h = ground (arith, is_shown-last k xs a)

has_error-append :
    (n : ℤ) (xs ys : List LogAnnotation) → has_error n xs ≡ true → has_error n (xs ++ ys) ≡ true
unfolding has_error
has_error-append n [] ys h = cc
has_error-append n (x ∷ xs) ys h = ground (arith, has_error-append n xs ys)

pub has_error-last :
    (n : ℤ) (xs : List LogAnnotation) (a : LogAnnotation)
    → is_error_of n a ≡ true
    → has_error n (xs ++ a ∷ []) ≡ true
unfolding has_error
has_error-last n [] a h = rw h refl
has_error-last n (x ∷ xs) a h = ground (arith, has_error-last n xs a)

-- Later annotations keep what is shown, and every key has its annotation.
pub record Grows (from to : List LogAnnotation × List Key) : Type 0 where
  pub shown : (k : Key) → is_shown k from.0 ≡ true → is_shown k to.0 ≡ true
  pub errors : (n : ℤ) → has_error n from.0 ≡ true → has_error n to.0 ≡ true
  pub keyed :
      ((k : Key) → has_key k from.1 ≡ true → is_shown k from.0 ≡ true)
      → (k : Key) → has_key k to.1 ≡ true
      → is_shown k to.0 ≡ true

Grows-refl : (a : List LogAnnotation × List Key) → Grows a a
Grows-refl a = record { shown = λ k h. h; errors = λ n h. h; keyed = λ w. w }

Grows-trans : (a b c : List LogAnnotation × List Key) → Grows a b → Grows b c → Grows a c
Grows-trans a b c h g = record {
  shown = λ k x. g.shown k (h.shown k x);
  errors = λ n x. g.errors n (h.errors n x);
  keyed = λ w. g.keyed (h.keyed w);
}

pub noted-Grows :
    (s : LogStep) (l : CleanLogLine) (a : List LogAnnotation × List Key) → Grows a (noted s l a)
unfolding has_key
noted-Grows s l (anns, keys) =
    elim (Bool-cases (is_notable l.level && not (has_key (key_of s l) keys))) [
      | inr known ↦ rw known (Grows-refl (anns, keys))
      | inl fresh ↦ rw fresh (record {
        shown = λ k h. is_shown-append k anns (annotation_of s l ∷ []) h;
        errors = λ n h. has_error-append n anns (annotation_of s l ∷ []) h;
        keyed = λ w k h. elim (Bool-cases (same_key (key_of s l) k)) [
          | inl own ↦ is_shown-last k anns (annotation_of s l) own
          | inr other ↦
              is_shown-append k anns (annotation_of s l ∷ []) (w k (rw (other, has_key) at h))
        ];
      })
    ]

pub annotate_lines-Grows :
    (s : LogStep) (ls : List CleanLogLine) (a : List LogAnnotation × List Key)
    → Grows a (annotate_lines s ls a)
unfolding annotate_lines
annotate_lines-Grows s [] a = Grows-refl a
annotate_lines-Grows s (l ∷ ls) a =
    Grows-trans a (noted s l a) _ (noted-Grows s l a) (annotate_lines-Grows s ls (noted s l a))

pub failure-Grows :
    (s : LogStep) (anns : List LogAnnotation) (keys : List Key)
    → Grows (anns, keys) (anns ++ failure_of s ∷ [], keys)
failure-Grows s anns keys = record {
  shown = λ k h. is_shown-append k anns (failure_of s ∷ []) h;
  errors = λ n h. has_error-append n anns (failure_of s ∷ []) h;
  keyed = λ w k h. is_shown-append k anns (failure_of s ∷ []) (w k h);
}

pub annotate_step-Grows :
    (s : LogStep) (a : List LogAnnotation × List Key) → Grows a (annotate_step s a)
unfolding annotate_step
annotate_step-Grows s a =
    let (anns, keys) = annotate_lines s s.lines a in
    let first = annotate_lines-Grows s s.lines a in
    elim (Bool-cases (is_failure s.conclusion && not (has_error s.number anns))) [
      | inl fails ↦ rw fails (Grows-trans a (anns, keys) _ first (failure-Grows s anns keys))
      | inr explained ↦ rw explained first
    ]

pub annotate_steps-Grows :
    (ss : List LogStep) (a : List LogAnnotation × List Key) → Grows a (annotate_steps ss a)
unfolding annotate_steps
annotate_steps-Grows [] a = Grows-refl a
annotate_steps-Grows (s ∷ ss) a =
    Grows-trans a (annotate_step s a) _ (annotate_step-Grows s a)
      (annotate_steps-Grows ss (annotate_step s a))

abbrev pub IsKeyed : List LogAnnotation × List Key → Type 0
IsKeyed a = (k : Key) → has_key k a.1 ≡ true → is_shown k a.0 ≡ true

-- Every notable line of a step is shown.
abbrev pub LinesAreShown : LogStep → List CleanLogLine → List LogAnnotation → Type 0
LinesAreShown s [] anns = Unit
LinesAreShown s (l ∷ ls) anns =
    (is_notable l.level ≡ true → is_shown (key_of s l) anns ≡ true) × LinesAreShown s ls anns
