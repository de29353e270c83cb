-- ===== src/Registry/Results.antt =====
-- `record_command_result` of crates/gridops-core/src/fleet/registry/commands.rs.
pub mod Steps
pub mod Again
use gridops.Prelude.{
  ℕ, Bool, true, false, not, ◌&&◌, ◌||◌, Option, none, some, List, [], ◌∷◌, ◌++◌, Result, ok, err,
  ◌>>=◌, ◌>>◌, fail_if, ok_or, map_err, eqb, leb, max, ◌==◌, if◌then◌else◌,
}
use gridops.Prelude.Int.{ℤ}
use gridops.Output.Authority.{
  RegistryError, not_found, invalid_request, database, AuthenticatedHost,
  ensure_authenticated_generation,
}
use gridops.Protocol.Outcomes.{CommandOutcome, AgentCommandResult, validate_against}
use gridops.Registry.Rows.{update_where, exists_where, first_where}
use gridops.Registry.Tables.{
  CommandKind, CommandState, CommandState-discrete, ResultDisposition, applied, stale,
  ResultDisposition-discrete, CommandRow, AttemptRow, ResultRow, Database, audit_and_event,
}
use gridops.Registry.Placements.{
  apply_to_placement, placement_is_uncertain, keep_uncertain_while_unsettled,
}

-- `UPDATE host_commands SET state=? WHERE id=?`.
unfoldable pub set_command : CommandState → ℕ → Database → Database
set_command next id db = record db {
  commands = update_where (λ c. c.id == id) (λ c. record c { state = next }) db.commands;
}

-- The state that an outcome gives its command.
unfoldable pub state_after : CommandOutcome → CommandState
state_after (CommandOutcome.accepted n) = CommandState.accepted
state_after (CommandOutcome.running n) = CommandState.running
state_after (CommandOutcome.succeeded e) = CommandState.succeeded
state_after CommandOutcome.failed = CommandState.failed
state_after CommandOutcome.uncertain = CommandState.uncertain

abbrev pub is_ended : CommandState → Bool
is_ended CommandState.succeeded = true
is_ended CommandState.failed = true
is_ended CommandState.uncertain = true
is_ended CommandState.cancelled = true
is_ended _ = false

abbrev pub is_attempt : ℕ → ℕ → AttemptRow → Bool
is_attempt id attempt a = a.command_id == id && a.attempt == attempt

-- `INSERT .. ON CONFLICT(command_id,attempt) DO UPDATE`, under the check `attempt BETWEEN 1 AND 10`.
unfoldable pub upsert_attempt : ℕ → ℕ → CommandState → ℤ → Database → Result RegistryError Database
upsert_attempt id attempt state now db = do
  fail_if (not (leb 1 attempt && leb attempt 10)) database
  ok (record db {
    attempts =
        if exists_where (is_attempt id attempt) db.attempts
        then update_where (is_attempt id attempt)
            (λ a. record a { state = state; recorded_at = now }) db.attempts
        else db.attempts
          ++ (record { command_id = id; attempt = attempt; state = state; recorded_at = now } ∷ []);
  })

-- `INSERT INTO host_command_results`, whose id and whose pair of command and hash are unique.
unfoldable pub insert_result : ResultRow → Database → Result RegistryError Database
insert_result row db = do
  fail_if
      (exists_where
        (λ r. r.id == row.id || r.command_id == row.command_id && r.result_hash == row.result_hash)
        db.results)
      database
  ok (record db { results = db.results ++ (row ∷ []) })

abbrev pub was_applied : ℕ → ResultRow → Bool
was_applied id r = r.command_id == id && eqb ResultDisposition-discrete r.disposition applied

-- The move of the placement, if the command has one.
abbrev pub move_placement : Bool → Option ℕ → CommandKind → CommandOutcome → ℤ → Database → Database
move_placement late none kind outcome now db = db
move_placement false (some p) kind outcome now db = apply_to_placement p kind outcome now db
move_placement true (some p) kind outcome now db =
    if placement_is_uncertain p db
    then keep_uncertain_while_unsettled p now (apply_to_placement p kind outcome now db)
    else db

-- The block `if !terminal`.
unfoldable pub apply_result :
    Bool → CommandRow → CommandOutcome → ℤ → Database → Result RegistryError Database
apply_result late row outcome now db = do
  let next = state_after outcome
  db' ← upsert_attempt row.id (max row.attempt_count 1) next now (set_command next row.id db)
  ok (
      audit_and_event "fleet.command.result" row.id now
        (move_placement late row.placement_id row.kind outcome now db'))

-- An uncertain command without an applied result still waits for one.
abbrev pub is_late : CommandRow → Database → Bool
is_late row db =
    eqb CommandState-discrete row.state CommandState.uncertain
    && not (exists_where (was_applied row.id) db.results)

abbrev pub is_command : ℕ → ℕ → CommandRow → Bool
is_command id host c = c.id == id && c.host_id == host

-- The SHA-256 of the `sha2` crate, and `hash_token` of a result's JSON text.
module _ (sha256 : List ℕ → ℕ) (hash : AgentCommandResult → ℕ) where
  -- A result that was not seen before.
  unfoldable pub record_new :
      CommandRow
      → AgentCommandResult
      → ℤ
      → Database
      → Result RegistryError (Database × ResultDisposition)
  record_new row r now db = do
    let late = is_late row db
    let terminal = not late && is_ended row.state
    let disposition = if terminal then stale else applied
    db' ←
        insert_result
          (record {
            id = r.result_id;
            command_id = row.id;
            result_hash = hash r;
            disposition = disposition;
          })
          db
    if terminal
        then ok (db', disposition)
        else (apply_result late row r.outcome now db' >>= λ db''. ok (db'', disposition))

  unfoldable pub record_command_result :
      AuthenticatedHost
      → AgentCommandResult
      → ℤ
      → Database
      → Result RegistryError (Database × ResultDisposition)
  record_command_result a r now db = do
    ensure_authenticated_generation db.access a now
    row ← ok_or (first_where (is_command r.identity.command_id a.host_id) db.commands) not_found
    map_err (λ _. invalid_request "result does not match its command")
        (validate_against sha256 r row.payload)
    elim (first_where (λ s. s.command_id == row.id && s.result_hash == hash r) db.results) [
      | some seen ↦ ok (db, seen.disposition)
      | none ↦ record_new row r now db
    ]
