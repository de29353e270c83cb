-- ===== src/Registry/Absence/Evolution.antt =====
-- The updates of placements and allocations in crates/gridops-core/src/fleet/registry/commands.rs
-- one by one, and their composition.
use gridops.Prelude.{
  ℕ, ◌≡◌, refl, Bool, true, false, Bool-cases, inl, inr, Option, none, some, List, [], ◌∷◌, ◌==◌,
  arith,
}
use gridops.Prelude.Int.{ℤ}
use gridops.Output.Authority.{is_null}
use gridops.Registry.Rows.{update_where, exists_where}
use gridops.Registry.Tables.{
  AllocationColumn-discrete, PlacementColumn, PlacementRow, AllocationRow, Database, coalesce,
}
use gridops.Registry.Placements.{is_released, prove_absence, release, commit, move_if}
use gridops.Registry.Absence.{
  is_placement, is_absent, IsAccounted, AreAccounted, KeepEvidence, KeepReleases, KeepEvidence-refl,
  KeepReleases-refl, KeepEvidence-trans, KeepReleases-trans, KeepEvidence-exists,
}

pub record Evolves (db db' : Database) : Type 0 where
  pub evidence : KeepEvidence db.placements db'.placements
  pub releases : KeepReleases db.allocations db'.allocations
  pub accounted :
      AreAccounted db.placements db.allocations → AreAccounted db'.placements db'.allocations

pub Evolves-trans : (a b c : Database) → Evolves a b → Evolves b c → Evolves a c
Evolves-trans a b c h k = record {
  evidence = KeepEvidence-trans a.placements b.placements c.placements h.evidence k.evidence;
  releases = KeepReleases-trans a.allocations b.allocations c.allocations h.releases k.releases;
  accounted = λ w. k.accounted (h.accounted w);
}

-- A change of other tables.
pub Evolves-same :
    (db db' : Database)
    → db'.placements ≡ db.placements
    → db'.allocations ≡ db.allocations
    → Evolves db db'
Evolves-same db db' p a = record {
  evidence = rw p (KeepEvidence-refl db.placements);
  releases = rw a (KeepReleases-refl db.allocations);
  accounted = λ w. rw p (rw a w);
}

-- More evidence keeps the allocations accounted for.
AreAccounted-mono :
    (ps qs : List PlacementRow) (xs : List AllocationRow)
    → KeepEvidence ps qs
    → AreAccounted ps xs
    → AreAccounted qs xs
AreAccounted-mono ps qs [] k w = tt
AreAccounted-mono ps qs (a ∷ xs) k w =
    let grow = KeepEvidence-exists a.placement_id ps qs k in
    ((grow.0 w.0.0, λ r. grow.1 (w.0.1 r)), AreAccounted-mono ps qs xs k w.1)

-- A change of the placements that keeps evidence.
pub Evolves-placements :
    (db : Database) (qs : List PlacementRow)
    → KeepEvidence db.placements qs
    → Evolves db (record db { placements = qs })
Evolves-placements db qs k = record {
  evidence = k;
  releases = KeepReleases-refl db.allocations;
  accounted = AreAccounted-mono db.placements qs db.allocations k;
}

KeepEvidence-update :
    (test : PlacementRow → Bool) (change : PlacementRow → PlacementRow) (ps : List PlacementRow)
    → ((p : PlacementRow) → KeepEvidence (p ∷ []) (change p ∷ []))
    → KeepEvidence ps (update_where test change ps)
unfolding update_where
KeepEvidence-update test change [] each = tt
KeepEvidence-update test change (p ∷ ps) each =
    let rest = KeepEvidence-update test change ps each in
    elim (Bool-cases (test p)) [
      | inl hit ↦ rw hit ((each p).0, (each p).1, (each p).2, rest)
      | inr miss ↦ rw miss (refl, λ h. refl, λ h. refl, rest)
    ]

pub move_if-Evolves :
    (test : PlacementRow → Bool) (next : PlacementColumn) (p : ℕ) (now : ℤ) (db : Database)
    → Evolves db (move_if test next p now db)
unfolding move_if
move_if-Evolves test next p now db =
    Evolves-placements db _
      (KeepEvidence-update _ _ db.placements (λ q. (refl, λ h. refl, λ h. refl, tt)))

coalesce_old : (o : Option ℤ) (t : ℤ) → is_null o ≡ false → coalesce o t ≡ o
coalesce_old none t h = cc
coalesce_old (some x) t h = refl

prove_absence-KeepEvidence :
    (id : ℕ) (now : ℤ) (ps : List PlacementRow)
    → KeepEvidence ps (update_where (λ p. p.id == id) (prove_absence now) ps)
prove_absence-KeepEvidence id now ps = KeepEvidence-update _ (prove_absence now) ps (λ q. (
  refl,
  coalesce_old q.local_absence_proven_at now,
  coalesce_old q.delayed_starts_excluded_at now,
  tt,
))

-- Once absence is recorded, every placement of that id has both proofs.
prove_absence-is_absent :
    (id : ℕ) (now : ℤ) (ps : List PlacementRow)
    → exists_where (is_placement id) (update_where (λ p. p.id == id) (prove_absence now) ps) ≡ true
    → exists_where (is_absent id) (update_where (λ p. p.id == id) (prove_absence now) ps) ≡ true
unfolding update_where exists_where
prove_absence-is_absent id now [] h = h
prove_absence-is_absent id now (p ∷ ps) h = ground (arith, prove_absence-is_absent id now ps)

-- Each allocation on its own: a change that releases none, or only those of an absent placement.
AreAccounted-update :
    (ps : List PlacementRow) (test : AllocationRow → Bool) (change : AllocationRow → AllocationRow)
    (xs : List AllocationRow)
    → ((a : AllocationRow) → IsAccounted ps a → test a ≡ true → IsAccounted ps (change a))
    → AreAccounted ps xs
    → AreAccounted ps (update_where test change xs)
unfolding update_where
AreAccounted-update ps test change [] each w = tt
AreAccounted-update ps test change (a ∷ xs) each w =
    let rest = AreAccounted-update ps test change xs each w.1 in
    elim (Bool-cases (test a)) [
      | inl hit ↦ rw hit (each a w.0 hit, rest)
      | inr miss ↦ rw miss (w.0, rest)
    ]

KeepReleases-update :
    (test : AllocationRow → Bool) (change : AllocationRow → AllocationRow) (xs : List AllocationRow)
    → ((a : AllocationRow) → test a ≡ true → is_released a ≡ false)
    → ((a : AllocationRow) → (change a).placement_id ≡ a.placement_id)
    → KeepReleases xs (update_where test change xs)
unfolding update_where
KeepReleases-update test change [] each same = tt
KeepReleases-update test change (a ∷ xs) each same =
    let rest = KeepReleases-update test change xs each same in
    elim (Bool-cases (test a)) [
      | inl hit ↦ rw hit (same a, λ old. cc (each a hit), rest)
      | inr miss ↦ rw miss (refl, λ old. (old, refl), rest)
    ]

pub release-Evolves : (p : ℕ) (now : ℤ) (db : Database) → Evolves db (release p now db)
unfolding release
release-Evolves p now db =
    let qs = update_where (λ q. q.id == p) (prove_absence now) db.placements in
    let k = prove_absence-KeepEvidence p now db.placements in
    record {
      evidence = k;
      releases = KeepReleases-update _ _ db.allocations (λ a h. ground arith) (λ a. refl);
      accounted = λ w.
          AreAccounted-update qs _ _ db.allocations
            (λ a wa h.
              let same : a.placement_id ≡ p = ground arith in
              (wa.0, λ r. rw same (prove_absence-is_absent p now db.placements (rw same at wa.0))))
            (AreAccounted-mono db.placements qs db.allocations k w);
    }

pub commit-Evolves : (p : ℕ) (now : ℤ) (db : Database) → Evolves db (commit p now db)
unfolding commit AllocationColumn-discrete
commit-Evolves p now db = record {
  evidence = KeepEvidence-refl db.placements;
  releases = KeepReleases-update _ _ db.allocations (λ a h. ground arith) (λ a. refl);
  accounted = λ w.
      AreAccounted-update db.placements _ _ db.allocations (λ a wa h. (wa.0, λ r. ground arith)) w;
}
