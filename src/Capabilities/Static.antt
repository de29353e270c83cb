-- ===== src/Capabilities/Static.antt =====
-- The ceilings of `static_compatibility` in crates/gridops-core/src/fleet/capabilities.rs.
use gridops.Prelude.{◌≡◌, ◌↔◌, true, false, ok, arith}
use gridops.Domain.Kinds.{docker, tart_vm, native_process, linux, macos, windows, x64, arm64}
use gridops.Capabilities.Report.{ephemeral, persistent, is_bitbucket}
use gridops.Capabilities.Evaluate.{ExecutionRequirement, static_compatibility}

-- What the upstream systems and the runtimes can run at all.
pub record IsSupported (q : ExecutionRequirement) : Type 0 where
  pub docker_linux : q.runtime_kind ≡ docker → q.execution_os ≡ linux
  pub tart_macos : q.runtime_kind ≡ tart_vm → q.execution_os ≡ macos
  pub tart_arm : q.runtime_kind ≡ tart_vm → q.architecture ≡ arm64
  pub tart_github_ephemeral :
      q.runtime_kind ≡ tart_vm
      → is_bitbucket q.runner.target_kind ≡ false
      → q.runner.mode ≡ ephemeral
  pub bitbucket_persistent : is_bitbucket q.runner.target_kind ≡ true → q.runner.mode ≡ persistent
  pub bitbucket_windows_x64 :
      is_bitbucket q.runner.target_kind ≡ true → q.execution_os ≡ windows → q.architecture ≡ x64
  pub bitbucket_windows_native :
      is_bitbucket q.runner.target_kind ≡ true
      → q.execution_os ≡ windows
      → q.runtime_kind ≡ native_process

static-IsSupported : (q : ExecutionRequirement) → static_compatibility q ≡ ok tt → IsSupported q
unfolding static_compatibility
static-IsSupported q e = ground arith

static-of_IsSupported : (q : ExecutionRequirement) → IsSupported q → static_compatibility q ≡ ok tt
unfolding static_compatibility
static-of_IsSupported q s = ground arith

-- A requirement passes the static ceilings exactly when Docker runs Linux, Tart runs macOS on
-- arm64 and GitHub jobs on it are ephemeral, and Bitbucket runners are persistent and on Windows
-- native x64.
pub static_compatibility_iff :
    (q : ExecutionRequirement) → (static_compatibility q ≡ ok tt) ↔ IsSupported q
static_compatibility_iff q = (static-IsSupported q, static-of_IsSupported q)
