-- ===== src/Domain/Amount.antt =====
-- `ResourceAmount` of crates/gridops-core/src/fleet/domain.rs: what a resource domain holds or uses.
pub mod Laws
use gridops.Prelude.{
  ℕ, ◌≤◌, Bool, ◌&&◌, List, [], ◌∷◌, Result, ok, err, ◌>>=◌, ◌>>◌, ok_or, ltb, leb, if◌then◌else◌,
  i64_max, u64_max, checked_add_within, checked_sub_ℕ,
}
use gridops.Domain.Kinds.{ResourceError, amount_out_of_range, overflow, underflow}
use gridops.Domain.Request.{ResourceRequest}

pub record ResourceAmount : Type 0 where
  pub cpu_millis : ℕ  -- u64
  pub memory_mib : ℕ  -- u64
  pub disk_bytes : ℕ  -- u64

abbrev pub zero_amount : ResourceAmount
zero_amount = record { cpu_millis = 0; memory_mib = 0; disk_bytes = 0 }

-- The `for` loop of `new`.
check_amounts : List ℕ → Result ResourceError (Unit {0})
check_amounts [] = ok tt
check_amounts (value ∷ rest) =
    if ltb i64_max value then err (amount_out_of_range i64_max) else check_amounts rest

unfoldable pub new : ℕ → ℕ → ℕ → Result ResourceError ResourceAmount
unfolding check_amounts
new cpu memory disk = do
  check_amounts (cpu ∷ memory ∷ disk ∷ [])
  ok (record { cpu_millis = cpu; memory_mib = memory; disk_bytes = disk })

unfoldable pub from_request : ResourceRequest → Result ResourceError ResourceAmount
from_request r = new r.cpu_millis r.memory_mib r.disk_bytes

unfoldable pub checked_add : ResourceAmount → ResourceAmount → Result ResourceError ResourceAmount
checked_add a b = do
  cpu ← ok_or (checked_add_within u64_max a.cpu_millis b.cpu_millis) overflow
  memory ← ok_or (checked_add_within u64_max a.memory_mib b.memory_mib) overflow
  disk ← ok_or (checked_add_within u64_max a.disk_bytes b.disk_bytes) overflow
  new cpu memory disk

unfoldable pub checked_sub : ResourceAmount → ResourceAmount → Result ResourceError ResourceAmount
checked_sub a b = do
  cpu ← ok_or (checked_sub_ℕ a.cpu_millis b.cpu_millis) underflow
  memory ← ok_or (checked_sub_ℕ a.memory_mib b.memory_mib) underflow
  disk ← ok_or (checked_sub_ℕ a.disk_bytes b.disk_bytes) underflow
  new cpu memory disk

unfoldable pub fits : ResourceAmount → ResourceRequest → Bool
fits a r =
    leb r.cpu_millis a.cpu_millis && leb r.memory_mib a.memory_mib && leb r.disk_bytes a.disk_bytes

-- What the constructor keeps of every amount.
pub record IsValid (a : ResourceAmount) : Type 0 where
  pub cpu_bounded : a.cpu_millis ≤ i64_max
  pub memory_bounded : a.memory_mib ≤ i64_max
  pub disk_bounded : a.disk_bytes ≤ i64_max
