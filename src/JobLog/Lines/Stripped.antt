-- ===== src/JobLog/Lines/Stripped.antt =====
-- What `strip_ansi_sequences` of crates/gridops-core/src/job_log.rs leaves of a line.
use gridops.Prelude.{
  ℕ, ◌≡◌, refl, ap, ◌∙◌, Bool, true, false, ◌||◌, List, [], ◌∷◌, ◌++◌, ◌==◌, arith, if◌then◌else◌,
  Bool-cases, inl, inr,
}
use gridops.JobLog.Lines.{
  escape_char, is_ascii_alphabetic, Mode, text, escaped, sequence, strip, strip_ansi_sequences,
}

abbrev pub contains : ℕ → List ℕ → Bool
contains x [] = false
contains x (c ∷ cs) = c == x || contains x cs

strip-contains : (mode : Mode) (cs : List ℕ) → contains escape_char (strip mode cs) ≡ false
unfolding strip
strip-contains text [] = refl
strip-contains escaped [] = refl
strip-contains sequence [] = refl
strip-contains text (c ∷ cs) = ground (arith, strip-contains text cs, strip-contains escaped cs)
strip-contains escaped (c ∷ cs) =
    ground (arith, strip-contains text cs, strip-contains escaped cs, strip-contains sequence cs)
strip-contains sequence (c ∷ cs) = elim (Bool-cases (is_ascii_alphabetic c)) [
  | inl ends ↦ rw ends (strip-contains text cs)
  | inr inside ↦ rw inside (strip-contains sequence cs)
]

strip-plain : (cs : List ℕ) → contains escape_char cs ≡ false → strip text cs ≡ cs
unfolding strip
strip-plain [] h = refl
strip-plain (c ∷ cs) h = ground (arith, strip-plain cs)

-- A control sequence: an escape, `[`, characters that are no letters, and a letter.
abbrev pub are_parameters : List ℕ → Bool
are_parameters [] = true
are_parameters (c ∷ cs) = if is_ascii_alphabetic c then false else are_parameters cs

strip-sequence :
    (ps cs : List ℕ) (letter : ℕ)
    → are_parameters ps ≡ true
    → is_ascii_alphabetic letter ≡ true
    → strip sequence (ps ++ (letter ∷ cs)) ≡ strip text cs
unfolding strip
strip-sequence [] cs letter plain ends = rw ends refl
strip-sequence (p ∷ ps) cs letter plain ends = elim (Bool-cases (is_ascii_alphabetic p)) [
  | inl stops ↦ ground arith
  | inr inside ↦ rw inside (strip-sequence ps cs letter (rw inside at plain) ends)
]

strip-append :
    (before cs : List ℕ)
    → contains escape_char before ≡ false
    → strip text (before ++ cs) ≡ before ++ strip text cs
unfolding strip
strip-append [] cs h = refl
strip-append (c ∷ before) cs h = ground (arith, strip-append before cs)

-- What is left of a line has no escape character. A text without one is left as it is, and a control
-- sequence after it, of parameters and an ending letter, is cut out while the rest is stripped.
pub strip_ansi_sequences_lem :
    (line before after ps : List ℕ) (letter : ℕ)
    → contains escape_char before ≡ false
    → are_parameters ps ≡ true
    → is_ascii_alphabetic letter ≡ true
    → (contains escape_char (strip_ansi_sequences line) ≡ false)
      × (strip_ansi_sequences before ≡ before)
      × (strip_ansi_sequences (before ++ (escape_char ∷ b'[' ∷ (ps ++ (letter ∷ after))))
          ≡ before ++ strip_ansi_sequences after)
unfolding strip_ansi_sequences strip
strip_ansi_sequences_lem line before after ps letter free plain ends = (
  strip-contains text line,
  strip-plain before free,
  strip-append before (escape_char ∷ b'[' ∷ (ps ++ (letter ∷ after))) free
      ∙ ap (λ l. before ++ l) (strip-sequence ps after letter plain ends),
)
