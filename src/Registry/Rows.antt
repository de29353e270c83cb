-- ===== src/Registry/Rows.antt =====
-- SQL statements on a table that is a list of rows: `UPDATE .. WHERE`, `EXISTS` and a query for one
-- row.
use mathlib.Core.List.{Memᴰ}
use gridops.Prelude.{
  sym, ◌≡◌, Bool, true, false, ◌||◌, Bool-cases, inl, inr, Option, none, some, List, [], ◌∷◌,
  if◌then◌else◌, arith, refl, ◌≢◌,
}

module _ {ℓ} {A : Type ℓ} where
  -- `UPDATE .. SET change WHERE test`.
  unfoldable pub update_where : (A → Bool) → (A → A) → List A → List A
  update_where test change [] = []
  update_where test change (r ∷ rs) = (if test r then change r else r) ∷ update_where test change rs

  -- `EXISTS (SELECT 1 .. WHERE test)`.
  unfoldable pub exists_where : (A → Bool) → List A → Bool
  exists_where test [] = false
  exists_where test (r ∷ rs) = test r || exists_where test rs

  -- `SELECT .. WHERE test`, the first row of the query's order.
  unfoldable pub first_where : (A → Bool) → List A → Option A
  first_where test [] = none
  first_where test (r ∷ rs) = if test r then some r else first_where test rs

  -- `SELECT .. WHERE test`, every row.
  unfoldable pub select_where : (A → Bool) → List A → List A
  select_where test [] = []
  select_where test (r ∷ rs) =
      let others = select_where test rs in if test r then r ∷ others else others

  -- A test that no row passes.
  pub exists_where-none :
      (test : A → Bool) (xs : List A)
      → ((x : A) → Memᴰ x xs → test x ≢ true)
      → exists_where test xs ≡ false
  unfolding exists_where
  exists_where-none test [] fails = refl
  exists_where-none test (x ∷ xs) fails =
      let here = fails x (Memᴰ.head refl) in
      let later = exists_where-none test xs (λ y listed. fails y (Memᴰ.tail listed)) in
      ground (arith, here)

  -- What a query finds is a row of the table.
  pub first_where-listed :
      (test : A → Bool) (xs : List A) (x : A) → first_where test xs ≡ some x → Memᴰ x xs
  unfolding first_where
  first_where-listed test [] x e = absurd (cc e)
  first_where-listed test (y ∷ ys) x e = elim (Bool-cases (test y)) [
    | inl hit ↦ let same : y ≡ x = ground arith in Memᴰ.head (sym same)
    | inr miss ↦ Memᴰ.tail (first_where-listed test ys x (rw miss at e))
  ]

  -- What a query finds passes its test.
  pub first_where-test :
      (test : A → Bool) (xs : List A) (x : A) → first_where test xs ≡ some x → test x ≡ true
  unfolding first_where
  first_where-test test [] x e = cc
  first_where-test test (y ∷ ys) x e = elim (Bool-cases (test y)) [
    | inl hit ↦ let same : y ≡ x = ground arith in rw same at hit
    | inr miss ↦ first_where-test test ys x (rw miss at e)
  ]
