-- ===== src/Registry/Absence.antt =====
-- Which changes of `workload_placements` and `capacity_allocations` the operations of
-- crates/gridops-core/src/fleet/registry/commands.rs make.
pub mod Evolution
pub mod Operations
pub mod Calls
use gridops.Prelude.{
  ℕ, ◌≡◌, refl, ◌∙◌, sym, Bool, true, false, not, ◌&&◌, Bool-cases, inl, inr, Option, none, some,
  List, [], ◌∷◌, ◌==◌, eqb, if◌then◌else◌, arith, ==_iff,
}
use gridops.Prelude.Int.{ℤ}
use gridops.Output.Authority.{is_null}
use gridops.Registry.Rows.{update_where, exists_where}
use gridops.Registry.Tables.{
  AllocationColumn, AllocationColumn-discrete, PlacementColumn, PlacementRow, AllocationRow,
  Database, coalesce,
}
use gridops.Registry.Placements.{is_released, prove_absence, release_row, release, commit, move_if}

abbrev pub is_placement : ℕ → PlacementRow → Bool
is_placement id p = p.id == id

-- Nothing of the placement can exist on its host, now or later.
abbrev pub is_absent : ℕ → PlacementRow → Bool
is_absent id p =
    p.id == id
    && (not (is_null p.local_absence_proven_at) && not (is_null p.delayed_starts_excluded_at))

-- An allocation has a placement, and one that is released a placement with both proofs: what the
-- foreign key and the trigger `capacity_allocations_release_requires_proof` ask for.
abbrev pub IsAccounted : List PlacementRow → AllocationRow → Type 0
IsAccounted ps a =
    (exists_where (is_placement a.placement_id) ps ≡ true)
    × (is_released a ≡ true → exists_where (is_absent a.placement_id) ps ≡ true)

abbrev pub AreAccounted : List PlacementRow → List AllocationRow → Type 0
AreAccounted ps [] = Unit
AreAccounted ps (a ∷ xs) = IsAccounted ps a × AreAccounted ps xs

-- Row by row, a proof that was recorded stays as it was recorded.
abbrev pub KeepEvidence : List PlacementRow → List PlacementRow → Type 0
KeepEvidence [] [] = Unit
KeepEvidence [] (q ∷ qs) = ⊥
KeepEvidence (p ∷ ps) [] = ⊥
KeepEvidence (p ∷ ps) (q ∷ qs) =
    (q.id ≡ p.id)
    × (is_null p.local_absence_proven_at ≡ false
        → q.local_absence_proven_at ≡ p.local_absence_proven_at)
    × (is_null p.delayed_starts_excluded_at ≡ false
        → q.delayed_starts_excluded_at ≡ p.delayed_starts_excluded_at)
    × KeepEvidence ps qs

-- Row by row, what is released stays released, since the same time.
abbrev pub KeepReleases : List AllocationRow → List AllocationRow → Type 0
KeepReleases [] [] = Unit
KeepReleases [] (b ∷ bs) = ⊥
KeepReleases (a ∷ xs) [] = ⊥
KeepReleases (a ∷ xs) (b ∷ bs) =
    (b.placement_id ≡ a.placement_id)
    × (is_released a ≡ true → (is_released b ≡ true) × (b.released_at ≡ a.released_at))
    × KeepReleases xs bs

pub KeepEvidence-refl : (ps : List PlacementRow) → KeepEvidence ps ps
KeepEvidence-refl [] = tt
KeepEvidence-refl (p ∷ ps) = (refl, λ h. refl, λ h. refl, KeepEvidence-refl ps)

pub KeepReleases-refl : (xs : List AllocationRow) → KeepReleases xs xs
KeepReleases-refl [] = tt
KeepReleases-refl (a ∷ xs) = (refl, λ h. (h, refl), KeepReleases-refl xs)

pub KeepEvidence-trans :
    (ps qs rs : List PlacementRow) → KeepEvidence ps qs → KeepEvidence qs rs → KeepEvidence ps rs
KeepEvidence-trans [] [] [] h k = tt
KeepEvidence-trans [] [] (r ∷ rs) h k = absurd k
KeepEvidence-trans [] (q ∷ qs) rs h k = absurd h
KeepEvidence-trans (p ∷ ps) [] rs h k = absurd h
KeepEvidence-trans (p ∷ ps) (q ∷ qs) [] h k = absurd k
KeepEvidence-trans (p ∷ ps) (q ∷ qs) (r ∷ rs) h k = (
  k.0 ∙ h.0,
  λ old. k.1 (rw (h.1 old) old) ∙ h.1 old,
  λ old. k.2 (rw (h.2 old) old) ∙ h.2 old,
  KeepEvidence-trans ps qs rs h.3 k.3,
)

pub KeepReleases-trans :
    (xs bs cs : List AllocationRow) → KeepReleases xs bs → KeepReleases bs cs → KeepReleases xs cs
KeepReleases-trans [] [] [] h k = tt
KeepReleases-trans [] [] (c ∷ cs) h k = absurd k
KeepReleases-trans [] (b ∷ bs) cs h k = absurd h
KeepReleases-trans (a ∷ xs) [] cs h k = absurd h
KeepReleases-trans (a ∷ xs) (b ∷ bs) [] h k = absurd k
KeepReleases-trans (a ∷ xs) (b ∷ bs) (c ∷ cs) h k = (
  k.0 ∙ h.0,
  λ old.
      let (there, when) = h.1 old in
      let (after, then_when) = k.1 there in (after, then_when ∙ when),
  KeepReleases-trans xs bs cs h.2 k.2,
)

-- The evidence of a table that keeps the evidence of another.
pub KeepEvidence-exists :
    (id : ℕ) (ps qs : List PlacementRow)
    → KeepEvidence ps qs
    → (exists_where (is_placement id) ps ≡ true → exists_where (is_placement id) qs ≡ true)
      × (exists_where (is_absent id) ps ≡ true → exists_where (is_absent id) qs ≡ true)
unfolding exists_where
KeepEvidence-exists id [] [] k = (λ h. h, λ h. h)
KeepEvidence-exists id [] (q ∷ qs) k = absurd k
KeepEvidence-exists id (p ∷ ps) [] k = absurd k
KeepEvidence-exists id (p ∷ ps) (q ∷ qs) k =
    let rest = KeepEvidence-exists id ps qs k.3 in (λ h. ground arith, λ h. ground arith)
