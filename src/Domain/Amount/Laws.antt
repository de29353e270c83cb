-- ===== src/Domain/Amount/Laws.antt =====
-- The arithmetic of amounts in crates/gridops-core/src/fleet/domain.rs.
use gridops.Prelude.{ℕ, ◌+◌, ◌-◌, ◌≡◌, ◌↔◌, true, ok, arith}
use gridops.Domain.Request.{ResourceRequest}
use gridops.Domain.Request as Request
use gridops.Domain.Amount.{
  ResourceAmount, IsValid, new, from_request, checked_add, checked_sub, fits,
}

pub new-IsValid :
    (cpu memory disk : ℕ) (a : ResourceAmount) → new cpu memory disk ≡ ok a → IsValid a
unfolding new
new-IsValid cpu memory disk a h = ground arith

-- A sum that succeeds is valid and the fieldwise sum.
pub checked_add-ok :
    (a b c : ResourceAmount)
    → checked_add a b ≡ ok c
    → IsValid c
      × (c.cpu_millis ≡ a.cpu_millis + b.cpu_millis)
      × (c.memory_mib ≡ a.memory_mib + b.memory_mib)
      × (c.disk_bytes ≡ a.disk_bytes + b.disk_bytes)
unfolding checked_add new
checked_add-ok a b c h = ground arith

-- Subtraction inverts addition: between valid amounts, a sum succeeds exactly when taking one part
-- from it succeeds and gives the other.
pub checked_sub-checked_add :
    (a b c : ResourceAmount)
    → IsValid a
    → IsValid b
    → IsValid c
    → (checked_add a b ≡ ok c) ↔ (checked_sub c b ≡ ok a)
unfolding checked_add checked_sub new
checked_sub-checked_add a b c va vb vc = (λ h. ground arith, λ h. ground arith)

-- The order of adding amounts up does not matter, errors included.
pub checked_add_comm : (a b : ResourceAmount) → checked_add a b ≡ checked_add b a
unfolding checked_add new
checked_add_comm a b = ground arith

-- For a valid request, `fits` says exactly that the request, as an amount, can be taken from what
-- is there.
pub fits_iff :
    (a : ResourceAmount) (r : ResourceRequest)
    → IsValid a
    → Request.IsValid r
    → (fits a r ≡ true)
      ↔ ((used rest : ResourceAmount) × (from_request r ≡ ok used) × (checked_sub a used ≡ ok rest))
unfolding fits from_request checked_sub new
fits_iff a r va vr = (
  λ h. (
    record { cpu_millis = r.cpu_millis; memory_mib = r.memory_mib; disk_bytes = r.disk_bytes },
    record {
      cpu_millis = a.cpu_millis - r.cpu_millis;
      memory_mib = a.memory_mib - r.memory_mib;
      disk_bytes = a.disk_bytes - r.disk_bytes;
    },
    ground arith,
    ground arith,
  ),
  λ h. ground arith,
)
