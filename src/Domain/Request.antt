-- ===== src/Domain/Request.antt =====
-- `ResourceRequest` of crates/gridops-core/src/fleet/domain.rs: what one workload asks for.
pub mod Laws
use gridops.Prelude.{
  ℕ, ◌≤◌, ◌<◌, ◌||◌, Result, ok, err, ◌>>=◌, ok_or, ltb, ◌==◌, if◌then◌else◌, u32_max, u64_max,
  checked_add_within,
}
use gridops.Domain.Kinds.{
  ResourceError, cpu_out_of_range, memory_out_of_range, disk_out_of_range, overflow,
}

abbrev pub max_cpu_millis : ℕ
max_cpu_millis = 4000000

abbrev pub max_memory_mib : ℕ
max_memory_mib = 4194304

abbrev pub max_disk_bytes : ℕ
max_disk_bytes = 70368744177664

pub record ResourceRequest : Type 0 where
  pub cpu_millis : ℕ  -- u32
  pub memory_mib : ℕ  -- u64
  pub disk_bytes : ℕ  -- u64

unfoldable pub new : ℕ → ℕ → ℕ → Result ResourceError ResourceRequest
new cpu memory disk =
    if cpu == 0 || ltb max_cpu_millis cpu
    then err cpu_out_of_range
    else if memory == 0 || ltb max_memory_mib memory
    then err memory_out_of_range
    else if ltb max_disk_bytes disk
    then err disk_out_of_range
    else ok (record { cpu_millis = cpu; memory_mib = memory; disk_bytes = disk })

unfoldable pub checked_add :
    ResourceRequest → ResourceRequest → Result ResourceError ResourceRequest
checked_add a b = do
  cpu ← ok_or (checked_add_within u32_max a.cpu_millis b.cpu_millis) overflow
  memory ← ok_or (checked_add_within u64_max a.memory_mib b.memory_mib) overflow
  disk ← ok_or (checked_add_within u64_max a.disk_bytes b.disk_bytes) overflow
  new cpu memory disk

-- What the private fields and the constructor keep: every value passed `new`.
pub record IsValid (r : ResourceRequest) : Type 0 where
  pub cpu_positive : 0 < r.cpu_millis
  pub cpu_bounded : r.cpu_millis ≤ max_cpu_millis
  pub memory_positive : 0 < r.memory_mib
  pub memory_bounded : r.memory_mib ≤ max_memory_mib
  pub disk_bounded : r.disk_bytes ≤ max_disk_bytes
