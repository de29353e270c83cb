-- ===== src/Admission/Fit/Within.antt =====
-- The budgets of the domains over a history of admissions and releases in
-- crates/gridops-core/src/fleet/admission.rs.
use gridops.Prelude.{
  ℕ, ◌+◌, ◌≤◌, ◌≡◌, refl, sym, ap, ◌∙◌, true, false, Bool-cases, Option, none, some, Option-cases,
  inl, inr, List, [], ◌∷◌, ◌++◌, map, Result, ok, err, >>=-eq-ok, Result-cases, ◌&&◌, if◌then◌else◌,
  ◌==◌, ==_iff, arith, String,
}
use gridops.Prelude.Int.{ℤ, pos_part}
use gridops.Admission.Store.{
  FleetError, DomainRow, Allocation, Store, Candidate, find_domain, live_allocations,
}
use gridops.Admission.Path.{seen_before, domain_path}
use gridops.Admission.Path.Chain.{
  IsChain, ids, find_domain-id, domain_path_iff, domain_path-AreDistinct,
}
use gridops.Admission.Fit.{
  domains_fit, allocation_in, insert_allocations, admit, release_allocations,
}
use gridops.Admission.Fit.Sums.{sum_by, held, cpu, memory, disk, held-insert}
use gridops.Admission.Fit.Sound.{HasRoom, All, domains_fit-HasRoom}

-- A domain of a host holds no more than its budget.
pub record IsWithin (rows : List Allocation) (host : ℕ) (d : DomainRow) : Type 0 where
  pub cpu_within : held cpu d.id host rows ≤ pos_part d.cpu_millis
  pub memory_within : held memory d.id host rows ≤ pos_part d.memory_mib
  pub disk_within : held disk d.id host rows ≤ pos_part d.disk_bytes

-- Every domain that a query can find is within its budget.
abbrev pub IsSolvent : Store → Type 0
IsSolvent st =
    (id host : ℕ) (d : DomainRow)
    → find_domain id host st.domains ≡ some d
    → IsWithin st.allocations host d

-- The row of a domain on the path is the one that the table gives.
on_path :
    (st : Store) (host i : ℕ) (P : DomainRow → Type 0) (c : Option ℕ) (path : List DomainRow)
    (d : DomainRow)
    → IsChain st host c path
    → seen_before i (ids path) ≡ true
    → find_domain i host st.domains ≡ some d
    → All P path
    → P d
on_path st host i P none [] d a m f h = ground arith
on_path st host i P none (x ∷ xs) d a m f h = absurd a
on_path st host i P (some id) [] d a m f h = absurd a
on_path st host i P (some id) (x ∷ xs) d a m f h = elim (Bool-cases (x.id == i)) [
  | inl here ↦
      let same : id ≡ i = sym (find_domain-id id host st.domains x a.0) ∙ (==_iff x.id i).0 here in
      let row : x ≡ d = ground (arith, ap (λ k. find_domain k host st.domains) same) in
      rw row at h.0
  | inr there ↦ on_path st host i P x.parent_domain_id xs d a.1 (ground arith) f h.1
]

module _ (st : Store) (c : Candidate) (placement : ℕ) (path : List DomainRow) where
  -- The three columns of a domain after the insertion.
  gained :
      (host : ℕ) (d : DomainRow)
      → domain_path st c.domain_id c.host_id ≡ ok path
      → let grows = c.host_id == host && seen_before d.id (ids path) in
        let rows = st.allocations ++ map (allocation_in c placement) path in
        (held cpu d.id host rows
          ≡ held cpu d.id host st.allocations + (if grows then pos_part c.cpu_millis else 0))
        × (held memory d.id host rows
            ≡ held memory d.id host st.allocations + (if grows then pos_part c.memory_mib else 0))
        × (held disk d.id host rows
            ≡ held disk d.id host st.allocations + (if grows then pos_part c.disk_bytes else 0))
  gained host d found =
      let distinct = domain_path-AreDistinct st c.domain_id c.host_id path found in
      (
        held-insert cpu c placement c.cpu_millis (λ _. refl) d.id host st.allocations path distinct,
        held-insert memory c placement c.memory_mib (λ _. refl) d.id host st.allocations path
            distinct,
        held-insert disk c placement c.disk_bytes (λ _. refl) d.id host st.allocations path
            distinct,
      )

  insert-IsWithin :
      (id host : ℕ) (d : DomainRow)
      → domain_path st c.domain_id c.host_id ≡ ok path
      → All (HasRoom st c) path
      → find_domain id host st.domains ≡ some d
      → IsWithin st.allocations host d
      → IsWithin (st.allocations ++ map (allocation_in c placement) path) host d
  insert-IsWithin id host d found room row within =
      let columns = gained host d found in
      elim (Bool-cases (c.host_id == host && seen_before d.id (ids path))) [
        | inr untouched ↦ ground arith
        | inl grows ↦
            let same : c.host_id ≡ host = ground arith in
            let named = find_domain-id id host st.domains d row in
            let at_host : find_domain d.id c.host_id st.domains ≡ some d =
              ap (λ k. find_domain k c.host_id st.domains) named
              ∙ ap (λ h. find_domain id h st.domains) same
              ∙ row in
            let here =
              on_path st c.host_id d.id (HasRoom st c) (some c.domain_id) path d
                ((domain_path_iff st c.domain_id c.host_id path).0 found).0 (ground arith) at_host
                room in
            ground arith
      ]

-- An admission that succeeds leaves every domain within its budget, also when it only reports why
-- there is no room.
pub admit-IsSolvent :
    (st t : Store) (c : Candidate) (placement : ℕ) (reason : Option String)
    → IsSolvent st
    → admit st c placement ≡ ok (t, reason)
    → IsSolvent t
unfolding admit insert_allocations
admit-IsSolvent st t c placement reason solvent e =
    let (why, checked, e') = >>=-eq-ok (domains_fit st c) _ e in
    elim (Option-cases why) [
      | inr (r, full) ↦ let same : st ≡ t = ground arith in rw (← same) solvent
      | inl fits ↦ elim (Result-cases (domain_path st c.domain_id c.host_id)) [
        | inr (x, lost) ↦ ground arith
        | inl (path, found) ↦
            let room = domains_fit-HasRoom st c path found (ground arith) in
            let grown : t ≡ record st {
              allocations = st.allocations ++ map (allocation_in c placement) path;
            } =
              ground arith in
            rw grown (λ id host d row.
              insert-IsWithin st c placement path id host d found room row (solvent id host d row))
      ]
    ]

held-release :
    (column : Allocation → ℤ) (placement id host : ℕ) (rows : List Allocation)
    → ((a : Allocation) → column (record a { live = false }) ≡ column a)
    → held column id host (release_allocations placement rows) ≤ held column id host rows
unfolding sum_by live_allocations release_allocations
held-release column placement id host [] kept = omega arith
held-release column placement id host (a ∷ rest) kept =
    ground (arith, held-release column placement id host rest kept)

release-IsSolvent :
    (st : Store) (placement : ℕ)
    → IsSolvent st
    → IsSolvent (record st { allocations = release_allocations placement st.allocations })
release-IsSolvent st placement solvent id host d row =
    let before = solvent id host d row in
    let c = held-release cpu placement d.id host st.allocations (λ _. refl) in
    let m = held-release memory placement d.id host st.allocations (λ _. refl) in
    let k = held-release disk placement d.id host st.allocations (λ _. refl) in omega arith

pub data Event : Type 0 where
  admitting : Candidate → ℕ → Event
  releasing : ℕ → Event

-- An admission that fails rolls its transaction back.
abbrev after : Store → Result FleetError (Store × Option String) → Store
after st (ok (t, reason)) = t
after st (err e) = st

abbrev pub step : Store → Event → Store
step st (admitting c placement) = after st (admit st c placement)
step st (releasing placement) = record st {
  allocations = release_allocations placement st.allocations;
}

unfoldable pub run : Store → List Event → Store
run st [] = st
run st (e ∷ es) = run (step st e) es

after-IsSolvent :
    (st : Store) (c : Candidate) (placement : ℕ) (r : Result FleetError (Store × Option String))
    → admit st c placement ≡ r
    → IsSolvent st
    → IsSolvent (after st r)
after-IsSolvent st c placement (ok (t, reason)) e solvent =
    admit-IsSolvent st t c placement reason solvent e
after-IsSolvent st c placement (err x) e solvent = solvent

-- No sequence of admissions and releases overcommits a host: starting within the budgets, every
-- domain of every host stays within its CPU, memory and disk budget, whatever is asked for.
pub run-IsSolvent : (st : Store) (es : List Event) → IsSolvent st → IsSolvent (run st es)
unfolding run
run-IsSolvent st [] solvent = solvent
run-IsSolvent st (admitting c placement ∷ es) solvent =
    run-IsSolvent (step st (admitting c placement)) es
      (after-IsSolvent st c placement (admit st c placement) refl solvent)
run-IsSolvent st (releasing placement ∷ es) solvent =
    run-IsSolvent (step st (releasing placement)) es (release-IsSolvent st placement solvent)
