-- ===== src/Domain/Request/Laws.antt =====
-- When the constructor and the sum of requests in crates/gridops-core/src/fleet/domain.rs succeed.
use gridops.Prelude.{ℕ, ◌+◌, ◌≤◌, ◌≡◌, ◌≢◌, ◌↔◌, ok, err, arith}
use gridops.Domain.Kinds.{overflow}
use gridops.Domain.Request.{
  ResourceRequest, IsValid, new, checked_add, max_cpu_millis, max_memory_mib, max_disk_bytes,
}

pub new-IsValid :
    (cpu memory disk : ℕ) (r : ResourceRequest) → new cpu memory disk ≡ ok r → IsValid r
unfolding new
new-IsValid cpu memory disk r h = ground arith

pub new-of_IsValid :
    (r : ResourceRequest) → IsValid r → new r.cpu_millis r.memory_mib r.disk_bytes ≡ ok r
unfolding new
new-of_IsValid r v = ground arith

-- The sum of two valid requests never reports an overflow: the bounds keep it in the machine's
-- range, and it is the fieldwise sum exactly when that sum is within the three limits.
pub checked_add_lem :
    (a b : ResourceRequest)
    → IsValid a
    → IsValid b
    → (checked_add a b ≢ err overflow)
      × ((a.cpu_millis + b.cpu_millis ≤ max_cpu_millis)
            × (a.memory_mib + b.memory_mib ≤ max_memory_mib)
            × (a.disk_bytes + b.disk_bytes ≤ max_disk_bytes)
          ↔ (checked_add a b
              ≡ ok (record {
                cpu_millis = a.cpu_millis + b.cpu_millis;
                memory_mib = a.memory_mib + b.memory_mib;
                disk_bytes = a.disk_bytes + b.disk_bytes;
              })))
unfolding checked_add new
checked_add_lem a b va vb = (λ e. ground arith, (λ h. ground arith, λ e. ground arith))
