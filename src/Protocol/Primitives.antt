-- ===== src/Protocol/Primitives.antt =====
-- crates/gridops-core/src/fleet/protocol/primitives.rs: the contract's error and bounded integers.
use gridops.Prelude.{ℕ, Bool, ◌&&◌, Result, ok, err, leb, if◌then◌else◌}

pub data ContractError : Type 0 where
  integer_range payload_too_large invalid_json invalid_timestamp invalid_text unsafe_path :
      ContractError

-- `(min..=max).contains(&value)`.
abbrev pub in_range : ℕ → ℕ → ℕ → Bool
in_range low high value = leb low value && leb value high

-- `BoundedInteger<MIN, MAX>::new`; the value is the number.
unfoldable pub bounded : ℕ → ℕ → ℕ → Result ContractError ℕ
bounded low high value = if in_range low high value then ok value else err integer_range
