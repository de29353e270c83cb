-- ===== src/Admission/Fit/Sound.antt =====
-- What `domains_fit` of crates/gridops-core/src/fleet/admission.rs establishes of every domain on
-- the path.
use gridops.Prelude.{
  ◌+◌, ◌≤◌, ◌≡◌, ◌↔◌, none, Option-cases, inl, inr, List, [], ◌∷◌, ok, >>=-eq-ok, arith,
}
use gridops.Prelude.Int.{pos, pos_part}
use gridops.Domain.Amount.{ResourceAmount, IsValid, zero_amount, checked_sub}
use gridops.Domain.Amount
use gridops.Admission.Store.{DomainRow, Store, Candidate, live_allocations}
use gridops.Admission.Path.{domain_path}
use gridops.Admission.Fit.{
  request_of, budget_of, aggregate, fits_request, room_for, domain_fits, path_fits, domains_fit,
}
use gridops.Admission.Fit.Sums.{held, cpu, memory, disk, amount_of_lem, aggregate-sums}

-- There is room exactly when what is used and what is asked for fit into the capacity together.
pub room_for_iff :
    (d : DomainRow) (capacity used request : ResourceAmount)
    → IsValid capacity
    → (room_for d capacity used request ≡ none) ↔ (
        (used.cpu_millis + request.cpu_millis ≤ capacity.cpu_millis)
        × (used.memory_mib + request.memory_mib ≤ capacity.memory_mib)
        × (used.disk_bytes + request.disk_bytes ≤ capacity.disk_bytes))
unfolding room_for fits_request checked_sub Amount.new
room_for_iff d capacity used request v = (λ e. ground arith, λ h. ground arith)

-- The candidate's request fits into what the domain has left.
pub record HasRoom (st : Store) (c : Candidate) (d : DomainRow) : Type 0 where
  pub cpu_room :
      held cpu d.id c.host_id st.allocations + pos_part c.cpu_millis ≤ pos_part d.cpu_millis
  pub memory_room :
      held memory d.id c.host_id st.allocations + pos_part c.memory_mib ≤ pos_part d.memory_mib
  pub disk_room :
      held disk d.id c.host_id st.allocations + pos_part c.disk_bytes ≤ pos_part d.disk_bytes

request_of_lem :
    (c : Candidate) (r : ResourceAmount)
    → request_of c ≡ ok r
    → (c.cpu_millis ≡ pos r.cpu_millis)
      × (c.memory_mib ≡ pos r.memory_mib)
      × (c.disk_bytes ≡ pos r.disk_bytes)
      × IsValid r
unfolding request_of
request_of_lem c r e = amount_of_lem _ _ _ _ c.cpu_millis c.memory_mib c.disk_bytes r e

budget_of_lem :
    (d : DomainRow) (r : ResourceAmount)
    → budget_of d ≡ ok r
    → (d.cpu_millis ≡ pos r.cpu_millis)
      × (d.memory_mib ≡ pos r.memory_mib)
      × (d.disk_bytes ≡ pos r.disk_bytes)
      × IsValid r
unfolding budget_of
budget_of_lem d r e = amount_of_lem _ _ _ _ d.cpu_millis d.memory_mib d.disk_bytes r e

domain_fits-HasRoom :
    (st : Store) (c : Candidate) (request : ResourceAmount) (d : DomainRow)
    → request_of c ≡ ok request
    → domain_fits st c.host_id request d ≡ ok none
    → HasRoom st c d
unfolding domain_fits
domain_fits-HasRoom st c request d asked e =
    let (used, summed, e') =
      >>=-eq-ok (aggregate zero_amount (live_allocations d.id c.host_id st.allocations)) _ e in
    let (capacity, read, e'') = >>=-eq-ok (budget_of d) _ e' in
    let budget = budget_of_lem d capacity read in
    let wanted = request_of_lem c request asked in
    let sums =
      aggregate-sums zero_amount used (live_allocations d.id c.host_id st.allocations) summed in
    let none_left : room_for d capacity used request ≡ none = ground arith in
    let room = (room_for_iff d capacity used request budget.3).0 none_left in ground arith

-- Every row of a list satisfies the predicate.
abbrev pub All : (DomainRow → Type 0) → List DomainRow → Type 0
All P [] = Unit {0}
All P (d ∷ ds) = P d × All P ds

path_fits-HasRoom :
    (st : Store) (c : Candidate) (request : ResourceAmount) (path : List DomainRow)
    → request_of c ≡ ok request
    → path_fits st c.host_id request path ≡ ok none
    → All (HasRoom st c) path
unfolding path_fits
path_fits-HasRoom st c request [] asked e = tt
path_fits-HasRoom st c request (d ∷ ds) asked e =
    let (reason, first, e') = >>=-eq-ok (domain_fits st c.host_id request d) _ e in
    elim (Option-cases reason) [
      | inl fits ↦
          let rest : path_fits st c.host_id request ds ≡ ok none = ground arith in
          (
            domain_fits-HasRoom st c request d asked (ground arith),
            path_fits-HasRoom st c request ds asked rest,
          )
      | inr (r, full) ↦ ground arith
    ]

-- When the check passes, every domain on the candidate's path has room for the request on top of
-- all that is live in it.
pub domains_fit-HasRoom :
    (st : Store) (c : Candidate) (path : List DomainRow)
    → domain_path st c.domain_id c.host_id ≡ ok path
    → domains_fit st c ≡ ok none
    → All (HasRoom st c) path
unfolding domains_fit
domains_fit-HasRoom st c path found e =
    let (path', found', e') = >>=-eq-ok (domain_path st c.domain_id c.host_id) _ e in
    let (request, asked, e'') = >>=-eq-ok (request_of c) _ e' in
    let same : path' ≡ path = ground arith in
    path_fits-HasRoom st c request path asked (rw same at e'')
