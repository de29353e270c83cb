-- ===== src/Prelude/Words.antt =====
-- Machine integers of the source: values are numbers, and the checked operations answer `none`
-- where Rust's do.
use Prim.Native.Nat.{ℕ, ◌+◌, ◌-◌}
use mathlib.Core.Option.{Option, none, some}
use gridops.Prelude.Tests.{leb, if◌then◌else◌}

-- `u32::MAX`, `i64::MAX as u64` and `u64::MAX`.
abbrev pub u32_max : ℕ
u32_max = 4294967295

abbrev pub i64_max : ℕ
i64_max = 9223372036854775807

abbrev pub u64_max : ℕ
u64_max = 18446744073709551615

-- `checked_add` at the type whose largest value is `top`.
abbrev pub checked_add_within : ℕ → ℕ → ℕ → Option ℕ
checked_add_within top a b = if leb (a + b) top then some (a + b) else none

abbrev pub checked_sub_ℕ : ℕ → ℕ → Option ℕ
checked_sub_ℕ a b = if leb b a then some (a - b) else none
