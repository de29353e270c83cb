-- ===== src/Domain/Kinds.antt =====
-- The closed vocabularies of crates/gridops-core/src/fleet/domain.rs and the errors of its
-- resource arithmetic. A derived `PartialEq` is a decision.
use gridops.Prelude.{ℕ}

pub data RuntimeKind : Type 0 where
  docker tart_vm native_process : RuntimeKind

unfoldable pub RuntimeKind-discrete : Discrete RuntimeKind
RuntimeKind-discrete = hlevel

pub data ExecutionOs : Type 0 where
  linux macos windows : ExecutionOs

unfoldable pub ExecutionOs-discrete : Discrete ExecutionOs
ExecutionOs-discrete = hlevel

pub data Architecture : Type 0 where
  x64 arm64 : Architecture

unfoldable pub Architecture-discrete : Discrete Architecture
Architecture-discrete = hlevel

pub data ResourceError : Type 0 where
  cpu_out_of_range memory_out_of_range disk_out_of_range : ResourceError
  amount_out_of_range : ℕ → ResourceError
  underflow overflow : ResourceError
