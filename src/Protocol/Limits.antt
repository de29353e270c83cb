-- ===== src/Protocol/Limits.antt =====
-- `LimitsConfig` and `ProtocolLimits` of crates/gridops-core/src/fleet/protocol/limits.rs.
use gridops.Prelude.{
  ℕ, ◌≤◌, ◌<◌, ◌≡◌, ◌↔◌, refl, Bool, false, not, ◌||◌, List, [], ◌∷◌, Result, ok, ◌>>◌, fail_if,
  ltb, leb, arith,
}
use gridops.Protocol.Primitives.{ContractError, integer_range, in_range}

pub record LimitsConfig : Type 0 where
  pub json_bytes : ℕ
  pub event_batch_items : ℕ
  pub event_batch_bytes : ℕ
  pub chunk_bytes : ℕ
  pub poll_ms : ℕ
  pub pending_commands : ℕ
  pub page_size : ℕ
  pub command_attempts : ℕ
  pub log_spool_bytes : ℕ
  pub enrollment_ms : ℕ
  pub autoapproval_ms : ℕ
  pub preparation_ms : ℕ
  pub start_ms : ℕ
  pub authority_ms : ℕ
  pub heartbeat_ms : ℕ
  pub stale_ms : ℕ
  pub offline_ms : ℕ

-- `LimitsConfig::default`.
abbrev pub default_limits : LimitsConfig
default_limits = record {
  json_bytes = 1048576;
  event_batch_items = 100;
  event_batch_bytes = 262144;
  chunk_bytes = 262144;
  poll_ms = 25000;
  pending_commands = 100;
  page_size = 25;
  command_attempts = 10;
  log_spool_bytes = 268435456;
  enrollment_ms = 600000;
  autoapproval_ms = 600000;
  preparation_ms = 1200000;
  start_ms = 60000;
  authority_ms = 90000;
  heartbeat_ms = 15000;
  stale_ms = 45000;
  offline_ms = 90000;
}

-- A value, its smallest and its largest.
pub record Bounded : Type 0 where
  pub value : ℕ
  pub low : ℕ
  pub high : ℕ

abbrev pub within : ℕ → ℕ → ℕ → Bounded
within v l h = record { value = v; low = l; high = h }

-- The array `bounded` of `try_from`.
abbrev pub bounds : LimitsConfig → List Bounded
bounds c =
    within c.json_bytes 1 2097152
    ∷ within c.event_batch_items 1 100
    ∷ within c.event_batch_bytes 1 262144
    ∷ within c.chunk_bytes 1 262144
    ∷ within c.poll_ms 1 25000
    ∷ within c.pending_commands 1 1000
    ∷ within c.page_size 1 100
    ∷ within c.command_attempts 1 10
    ∷ within c.log_spool_bytes 1 2147483648
    ∷ within c.enrollment_ms 60000 3600000
    ∷ within c.autoapproval_ms 1 3600000
    ∷ within c.preparation_ms 1 3600000
    ∷ within c.start_ms 1 60000
    ∷ within c.authority_ms 1 90000
    ∷ within c.heartbeat_ms 1 15000
    ∷ within c.stale_ms 1 45000
    ∷ within c.offline_ms 1 90000
    ∷ []

-- `.any(..)` of an out-of-range value.
unfoldable pub any_outside : List Bounded → Bool
any_outside [] = false
any_outside (b ∷ bs) = not (in_range b.low b.high b.value) || any_outside bs

unfoldable pub try_from : LimitsConfig → Result ContractError LimitsConfig
try_from c = do
  fail_if
      (any_outside (bounds c)
        || leb c.stale_ms c.heartbeat_ms
        || leb c.offline_ms c.stale_ms
        || leb c.authority_ms c.heartbeat_ms
        || ltb c.authority_ms c.start_ms)
      integer_range
  ok c

abbrev pub AllInside : List Bounded → Type 0
AllInside [] = Unit {0}
AllInside (b ∷ bs) = (b.low ≤ b.value) × (b.value ≤ b.high) × AllInside bs

-- Every value is in its range, heartbeats come before a host is stale, and that before it is
-- offline; work authority outlasts a heartbeat and a start.
pub record IsConsistent (c : LimitsConfig) : Type 0 where
  pub inside : AllInside (bounds c)
  pub heartbeat_stale : c.heartbeat_ms < c.stale_ms
  pub stale_offline : c.stale_ms < c.offline_ms
  pub heartbeat_authority : c.heartbeat_ms < c.authority_ms
  pub start_authority : c.start_ms ≤ c.authority_ms

any_outside_iff : (bs : List Bounded) → (any_outside bs ≡ false) ↔ AllInside bs
unfolding any_outside
any_outside_iff [] = (λ e. tt, λ u. refl)
any_outside_iff (b ∷ bs) = (
  λ e. (ground arith, ground arith, (any_outside_iff bs).0 (ground arith)),
  λ v. let (above, below, others) = v in let rest = (any_outside_iff bs).1 others in ground arith,
)

try_from-IsConsistent : (c : LimitsConfig) → (try_from c ≡ ok c) ↔ IsConsistent c
unfolding try_from
try_from-IsConsistent c =
    let (inside, outside) = any_outside_iff (bounds c) in
    (
      λ e. record {
        inside = inside (ground arith);
        heartbeat_stale = ground arith;
        stale_offline = ground arith;
        heartbeat_authority = ground arith;
        start_authority = ground arith;
      },
      λ v. let none_outside = outside v.inside in ground arith,
    )

-- The default limits, which are used without the check, pass it.
pub default_limits-IsConsistent : IsConsistent default_limits
unfolding any_outside try_from
default_limits-IsConsistent = (try_from-IsConsistent default_limits).0 refl
