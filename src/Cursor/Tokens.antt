-- ===== src/Cursor/Tokens.antt =====
-- The parts of a token of crates/gridops-core/src/fleet/cursor.rs.
use gridops.Prelude.{
  ℕ, ◌≡◌, refl, ◌∙◌, sym, ap, inl, inr, true, false, Bool-cases, List, [], ◌∷◌, ◌++◌, ◌==◌, ==_iff,
  arith, append_assoc, append_nil, ok,
}
use gridops.Cursor.{split_dots, three_parts, same_text, has_dot}

pub same_text_refl : (xs : List ℕ) → same_text xs xs ≡ true
unfolding same_text
same_text_refl [] = refl
same_text_refl (x ∷ xs) = ground (arith, same_text_refl xs)

pub same_text-eq : (xs ys : List ℕ) → same_text xs ys ≡ true → xs ≡ ys
unfolding same_text
same_text-eq [] [] h = refl
same_text-eq [] (y ∷ ys) h = cc
same_text-eq (x ∷ xs) [] h = cc
same_text-eq (x ∷ xs) (y ∷ ys) h = ground (arith, same_text-eq xs ys)

-- A part ends at the first dot.
pub split_dots-dot :
    (part xs ys : List ℕ)
    → has_dot xs ≡ false
    → split_dots part (xs ++ b'.' ∷ ys) ≡ (part ++ xs) ∷ split_dots [] ys
unfolding split_dots
split_dots-dot part [] ys h = ap (λ l. l ∷ split_dots [] ys) (sym (append_nil part))
split_dots-dot part (x ∷ xs) ys h =
    let plain : (x == b'.') ≡ false = ground arith in
    rw plain (
      split_dots-dot (part ++ x ∷ []) xs ys (ground arith)
      ∙ ap (λ l. l ∷ split_dots [] ys) (append_assoc part (x ∷ []) xs))

pub split_dots-last :
    (part xs : List ℕ) → has_dot xs ≡ false → split_dots part xs ≡ (part ++ xs) ∷ []
unfolding split_dots
split_dots-last part [] h = ap (λ l. l ∷ []) (sym (append_nil part))
split_dots-last part (x ∷ xs) h =
    let plain : (x == b'.') ≡ false = ground arith in
    rw plain (
      split_dots-last (part ++ x ∷ []) xs (ground arith)
      ∙ ap (λ l. l ∷ []) (append_assoc part (x ∷ []) xs))

-- The parts, with dots between them.
abbrev join : List (List ℕ) → List ℕ
join [] = []
join (part ∷ []) = part
join (part ∷ next ∷ rest) = part ++ b'.' ∷ join (next ∷ rest)

split_dots-cons :
    (part xs : List ℕ) → (h : List ℕ) × (t : List (List ℕ)) × (split_dots part xs ≡ h ∷ t)
unfolding split_dots
split_dots-cons part [] = (part, [], refl)
split_dots-cons part (x ∷ xs) = elim (Bool-cases (x == b'.')) [
  | inl dot ↦ (part, split_dots [] xs, rw dot refl)
  | inr plain ↦ rw plain (split_dots-cons (part ++ x ∷ []) xs)
]

join-split_dots : (part xs : List ℕ) → join (split_dots part xs) ≡ part ++ xs
unfolding split_dots
join-split_dots part [] = sym (append_nil part)
join-split_dots part (x ∷ xs) = elim (Bool-cases (x == b'.')) [
  | inl dot ↦
      let (h, t, e) = split_dots-cons [] xs in
      let rest = join-split_dots [] xs in
      let same : x ≡ b'.' = (==_iff x b'.').0 dot in
      rw dot (rw e (rw same (ap (λ l. part ++ b'.' ∷ l) (rw e at rest))))
  | inr plain ↦ rw plain (join-split_dots (part ++ x ∷ []) xs ∙ append_assoc part (x ∷ []) xs)
]

three_parts-ok :
    (parts : List (List ℕ)) (a b c : List ℕ)
    → three_parts parts ≡ ok (a, b, c)
    → parts ≡ a ∷ b ∷ c ∷ []
three_parts-ok [] a b c e = cc
three_parts-ok (x ∷ []) a b c e = cc
three_parts-ok (x ∷ y ∷ []) a b c e = cc
three_parts-ok (x ∷ y ∷ z ∷ []) a b c e = ground arith
three_parts-ok (x ∷ y ∷ z ∷ w ∷ rest) a b c e = cc

-- A token of three parts is these parts with dots between them.
pub three_parts-split :
    (token version payload signature : List ℕ)
    → three_parts (split_dots [] token) ≡ ok (version, payload, signature)
    → token ≡ version ++ (b'.' ∷ (payload ++ (b'.' ∷ signature)))
three_parts-split token version payload signature e =
    sym (join-split_dots [] token) ∙ ap join (three_parts-ok (split_dots [] token) _ _ _ e)
