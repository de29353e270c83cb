-- ===== src/Admission/Fit/Sums.antt =====
-- What the allocations of crates/gridops-core/src/fleet/admission.rs add up to.
use gridops.Prelude.{
  ℕ, ◌+◌, ◌≡◌, refl, ap, true, false, Bool-cases, inl, inr, List, [], ◌∷◌, ◌++◌, map, ok, arith,
  ◌==◌, ==_iff, ◌&&◌, if◌then◌else◌, String, map_err, >>=-eq-ok, map_err-ok,
}
use gridops.Prelude.Int.{ℤ, pos, pos_part}
use gridops.Domain.Amount.{ResourceAmount, checked_add}
use gridops.Domain.Amount.{IsValid}
use gridops.Domain.Amount
use gridops.Domain.Amount.Laws.{checked_add-ok}
use gridops.Admission.Store.{invariant, DomainRow, Allocation, Candidate, live_allocations}
use gridops.Admission.Path.{seen_before}
use gridops.Admission.Path.Chain.{AreDistinct, ids}
use gridops.Admission.Fit.{amount_of, allocated, aggregate, allocation_in}

-- The sum of one column over some allocations.
unfoldable pub sum_by : (Allocation → ℤ) → List Allocation → ℕ
sum_by column [] = 0
sum_by column (a ∷ rest) = pos_part (column a) + sum_by column rest

-- What the live allocations of a domain hold of one column.
abbrev pub held : (Allocation → ℤ) → ℕ → ℕ → List Allocation → ℕ
held column id host rows = sum_by column (live_allocations id host rows)

abbrev pub cpu : Allocation → ℤ
cpu a = a.cpu_millis

abbrev pub memory : Allocation → ℤ
memory a = a.memory_mib

abbrev pub disk : Allocation → ℤ
disk a = a.disk_bytes

-- The numbers of an amount are those of its columns, none of which is negative.
pub amount_of_lem :
    (nc nm nd bounds : String) (c m d : ℤ) (r : ResourceAmount)
    → amount_of nc nm nd bounds c m d ≡ ok r
    → (c ≡ pos r.cpu_millis) × (m ≡ pos r.memory_mib) × (d ≡ pos r.disk_bytes) × IsValid r
unfolding amount_of Amount.new
amount_of_lem nc nm nd bounds c m d r e = ground arith

allocated_lem :
    (a : Allocation) (r : ResourceAmount)
    → allocated a ≡ ok r
    → (a.cpu_millis ≡ pos r.cpu_millis)
      × (a.memory_mib ≡ pos r.memory_mib)
      × (a.disk_bytes ≡ pos r.disk_bytes)
      × IsValid r
unfolding allocated
allocated_lem a r e = amount_of_lem _ _ _ _ a.cpu_millis a.memory_mib a.disk_bytes r e

-- A total that the loop reaches is the sum of each column.
pub aggregate-sums :
    (total u : ResourceAmount) (rows : List Allocation)
    → aggregate total rows ≡ ok u
    → (u.cpu_millis ≡ total.cpu_millis + sum_by cpu rows)
      × (u.memory_mib ≡ total.memory_mib + sum_by memory rows)
      × (u.disk_bytes ≡ total.disk_bytes + sum_by disk rows)
unfolding aggregate sum_by
aggregate-sums total u [] e = ground arith
aggregate-sums total u (a ∷ rest) e =
    let (amount, read, e') = >>=-eq-ok (allocated a) _ e in
    let columns = allocated_lem a amount read in
    let (total', added, later) =
      >>=-eq-ok
        (map_err (λ _. invariant "allocation aggregate overflow") (checked_add total amount)) _
        e' in
    let step = checked_add-ok total amount total' (map_err-ok _ (checked_add total amount) added) in
    let rest_sums = aggregate-sums total' u rest later in ground arith

held-append :
    (column : Allocation → ℤ) (id host : ℕ) (xs ys : List Allocation)
    → held column id host (xs ++ ys) ≡ held column id host xs + held column id host ys
unfolding sum_by live_allocations
held-append column id host [] ys = omega arith
held-append column id host (a ∷ xs) ys = ground (arith, held-append column id host xs ys)

-- Allocations on one host hold nothing of another.
held-other_host :
    (column : Allocation → ℤ) (id host : ℕ) (c : Candidate) (placement : ℕ) (path : List DomainRow)
    → (c.host_id == host) ≡ false
    → held column id host (map (allocation_in c placement) path) ≡ 0
unfolding sum_by live_allocations
held-other_host column id host c placement [] h = refl
held-other_host column id host c placement (d ∷ ds) h =
    ground (arith, held-other_host column id host c placement ds h)

held-not_on_path :
    (column : Allocation → ℤ) (id : ℕ) (c : Candidate) (placement : ℕ) (path : List DomainRow)
    → seen_before id (ids path) ≡ false
    → held column id c.host_id (map (allocation_in c placement) path) ≡ 0
unfolding sum_by live_allocations
held-not_on_path column id c placement [] h = refl
held-not_on_path column id c placement (d ∷ ds) h =
    ground (arith, held-not_on_path column id c placement ds)

module _ (column : Allocation → ℤ) (c : Candidate) (placement : ℕ) (v : ℤ)
    (asked : (d : DomainRow) → column (allocation_in c placement d) ≡ v) where
  -- The allocations of one placement hold what was asked for once in each domain of its path.
  held-on_path :
      (id : ℕ) (path : List DomainRow)
      → AreDistinct (ids path)
      → seen_before id (ids path) ≡ true
      → held column id c.host_id (map (allocation_in c placement) path) ≡ pos_part v
  unfolding sum_by live_allocations
  held-on_path id [] a m = ground arith
  held-on_path id (d ∷ ds) a m = ground (
    arith,
    asked d,
    ==_iff d.id id,
    held-on_path id ds a.1,
    held-not_on_path column id c placement ds,
    ap (λ i. seen_before i (ids ds)),
  )

  -- So a domain of the candidate's host gains the request if it is on the path, and every other
  -- domain gains nothing.
  pub held-insert :
      (id host : ℕ) (rows : List Allocation) (path : List DomainRow)
      → AreDistinct (ids path)
      → held column id host (rows ++ map (allocation_in c placement) path)
        ≡ held column id host rows
          + (if c.host_id == host && seen_before id (ids path) then pos_part v else 0)
  held-insert id host rows path a = elim (Bool-cases (c.host_id == host)) [
    | inr other ↦ ground (
      arith,
      held-append column id host rows (map (allocation_in c placement) path),
      held-other_host column id host c placement path other,
    )
    | inl same ↦ elim (Bool-cases (seen_before id (ids path))) [
      | inl on ↦
          let gain = rw ((==_iff c.host_id host).0 same) at (held-on_path id path a on) in
          ground
            (arith, held-append column id host rows (map (allocation_in c placement) path), gain)
      | inr off ↦
          let gain =
            rw ((==_iff c.host_id host).0 same) at
              (held-not_on_path column id c placement path off) in
          ground
            (arith, held-append column id host rows (map (allocation_in c placement) path), gain)
    ]
  ]
