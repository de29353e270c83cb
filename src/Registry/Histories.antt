-- ===== src/Registry/Histories.antt =====
-- Histories of calls on the registry's tables: an agent polls, answers and claims, a handshake settles
-- what was never received, and an administrator repairs placements.
use gridops.Prelude.{ℕ, List, [], ◌∷◌, Result, ok, err}
use gridops.Prelude.Int.{ℤ}
use gridops.Output.Authority.{RegistryError, AuthenticatedHost}
use gridops.Protocol.Outcomes.{AgentCommandResult}
use gridops.Registry.Tables.{Database}
use gridops.Registry.Results.{record_command_result}
use gridops.Registry.Delivery.{poll_commands, claim_bootstrap}
use gridops.Registry.Settlement.{settle_unreceived, repair_unconfirmed}

-- A call with the time of its clock; a poll has what its first transaction saw.
pub data Call : Type 0 where
  answer : AuthenticatedHost → AgentCommandResult → ℤ → Call
  poll : AuthenticatedHost → ℕ → ℤ → Database → Call
  claim : AuthenticatedHost → ℕ → ℤ → Call
  settle : ℕ → ℕ → ℕ → ℤ → Call
  repair : ℕ → List ℕ → ℤ → Call

-- A transaction that fails leaves the tables as they were.
abbrev pub kept {ℓ} : {A : Type ℓ} → Database → Result RegistryError (Database × A) → Database
kept db (ok (db', a)) = db'
kept db (err e) = db

module _ (sha256 : List ℕ → ℕ) (hash : AgentCommandResult → ℕ) where
  unfoldable pub run_call : Call → Database → Database
  run_call (answer a r now) db = kept db (record_command_result sha256 hash a r now db)
  run_call (poll a session now read) db = kept db (poll_commands a session now read db)
  run_call (claim a reference now) db = kept db (claim_bootstrap a reference now db)
  run_call (settle host epoch session now) db = settle_unreceived host epoch session now db
  run_call (repair host placements now) db = (repair_unconfirmed host placements now db).0

  unfoldable pub run : List Call → Database → Database
  run [] db = db
  run (call ∷ calls) db = run calls (run_call call db)
