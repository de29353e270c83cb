-- ===== src/Registry/Delivery.antt =====
-- `poll_commands`, `cancel_undeliverable` and `claim_bootstrap` of
-- crates/gridops-core/src/fleet/registry/commands.rs.
pub mod Steps
pub mod HandedOut
pub mod Charged
use gridops.Prelude.{
  ℕ, ◌+◌, Bool, true, false, not, ◌&&◌, ◌||◌, Option, none, some, List, [], ◌∷◌, ◌++◌, Result, ok,
  err, ◌>>=◌, ◌>>◌, fail_if, ok_or, eqb, ltb, leb, ◌==◌, if◌then◌else◌,
}
use gridops.Prelude.Int.{ℤ, pos, ◌+ℤ◌, ◌-ℤ◌, ltb_ℤ}
use gridops.Output.Authority.{
  RegistryError, not_found, database, AuthenticatedHost, HostRow, holds, later_than, has_authority,
  ensure_authenticated_generation,
}
use gridops.Protocol.Outcomes.{AgentCommandEnvelope}
use gridops.Registry.Rows.{update_where, exists_where, first_where, select_where}
use gridops.Registry.Tables.{
  CommandKind, CommandState, CommandState-discrete, PlacementColumn, CommandRow, AttemptRow,
  BootstrapRow, Database, coalesce,
}
use gridops.Registry.Placements.{is_kind, erase_bootstrap, release, move_to}
use gridops.Registry.Results.{set_command, is_attempt}

abbrev pub delivery_margin_millis : ℤ
delivery_margin_millis = pos 5000

abbrev pub redelivery_millis : ℤ
redelivery_millis = pos 60000

abbrev pub max_attempts : ℕ
max_attempts = 10

abbrev pub in_command_state : CommandState → CommandRow → Bool
in_command_state s c = eqb CommandState-discrete c.state s

-- `deadline_at<=?`.
abbrev pub is_due : ℤ → CommandRow → Bool
is_due now c = not (ltb_ℤ now c.deadline_at)

-- The row that the join of `cancel_undeliverable` adds to a command of this host.
unfoldable pub is_undeliverable : ℕ → ℤ → HostRow → CommandRow → Bool
is_undeliverable host now h c =
    c.host_id == host
    && (in_command_state CommandState.delivered c && is_due now c
        || in_command_state CommandState.pending c
          && (is_due (now +ℤ delivery_margin_millis) c
              || not (holds h.agent_session_id c.payload.identity.authority_session_id)
              || not (c.host_epoch == h.epoch)))

-- What becomes of the placement of a command that is given up.
unfoldable pub give_up : Bool → CommandKind → ℕ → ℤ → Database → Database
give_up delivered kind p now db =
    if delivered && is_kind kind CommandKind.inspect
    then db
    else (if delivered && not (is_kind kind CommandKind.prepare_environment)
        then move_to PlacementColumn.uncertain p now db
        else (if is_kind kind CommandKind.prepare_environment
              || is_kind kind CommandKind.start_runner
            then move_to PlacementColumn.failed p now (release p now (erase_bootstrap p now db))
            else db))

abbrev pub give_up_placement : Bool → CommandKind → Option ℕ → ℤ → Database → Database
give_up_placement delivered kind none now db = db
give_up_placement delivered kind (some p) now db = give_up delivered kind p now db

-- One round of the loop of `cancel_undeliverable`.
unfoldable pub cancel_command : CommandRow → ℤ → Database → Database
cancel_command c now db =
    let delivered = in_command_state CommandState.delivered c in
    give_up_placement delivered c.kind c.placement_id now
      (set_command (if delivered then CommandState.uncertain else CommandState.cancelled) c.id db)

unfoldable pub cancel_all : List CommandRow → ℤ → Database → Database
cancel_all [] now db = db
cancel_all (c ∷ cs) now db = cancel_all cs now (cancel_command c now db)

-- Without a row of the host the join gives no commands.
unfoldable pub cancel_undeliverable : ℕ → ℤ → Database → Database
cancel_undeliverable host now db = elim (first_where (λ h. h.id == host) db.access.hosts) [
  | none ↦ db
  | some h ↦ cancel_all (select_where (is_undeliverable host now h) db.commands) now db
]

-- An attempt of the command was recorded within the last minute.
abbrev pub is_recent_attempt : ℕ → ℤ → AttemptRow → Bool
is_recent_attempt id now a = a.command_id == id && ltb_ℤ (now -ℤ redelivery_millis) a.recorded_at

-- The WHERE clause of the query for the next command.
unfoldable pub is_deliverable : ℕ → ℕ → ℤ → Database → CommandRow → Bool
is_deliverable host session now db c =
    (c.host_id == host && ltb_ℤ (now +ℤ delivery_margin_millis) c.deadline_at)
    && (c.payload.identity.authority_session_id == session)
    && (in_command_state CommandState.pending c
        || in_command_state CommandState.delivered c
          && ltb c.attempt_count max_attempts
          && not (exists_where (is_recent_attempt c.id now) db.attempts))

-- `INSERT INTO host_command_attempts`: a pair of command and attempt is unique, and an attempt lies
-- between 1 and 10.
unfoldable pub insert_attempt : ℕ → ℕ → ℤ → Database → Result RegistryError Database
insert_attempt id attempt now db = do
  fail_if
      (exists_where (is_attempt id attempt) db.attempts || not (leb 1 attempt && leb attempt 10))
      database
  ok (record db {
    attempts =
        db.attempts
        ++ (record {
          command_id = id;
          attempt = attempt;
          state = CommandState.delivered;
          recorded_at = now;
        }
            ∷ []);
  })

-- `SET state='delivered',attempt_count=?`.
unfoldable pub mark_delivered : ℕ → ℕ → Database → Database
mark_delivered id attempt db = record db {
  commands =
      update_where (λ c. c.id == id)
        (λ c. record c { state = CommandState.delivered; attempt_count = attempt }) db.commands;
}

-- The loop over the rows of the query, which are one at most.
unfoldable pub deliver :
    Option CommandRow → ℤ → Database → Result RegistryError (Database × List AgentCommandEnvelope)
deliver none now db = ok (db, [])
deliver (some c) now db = do
  let attempt = c.attempt_count + 1
  db' ← insert_attempt c.id attempt now (mark_delivered c.id attempt db)
  ok (db', c.payload ∷ [])

-- `state IN ('pending','delivered')` for a command of the host.
abbrev pub is_open : ℕ → CommandRow → Bool
is_open host c =
    c.host_id == host
    && (in_command_state CommandState.pending c || in_command_state CommandState.delivered c)

-- The second transaction.
unfoldable pub deliver_next :
    AuthenticatedHost
    → ℕ
    → ℤ
    → Database
    → Result RegistryError (Database × List AgentCommandEnvelope)
deliver_next a session now db = do
  ensure_authenticated_generation db.access a now
  let db' = cancel_undeliverable a.host_id now db
  if has_authority session now a.host_id db'.access.hosts
      then (let next = first_where (is_deliverable a.host_id session now db') db'.commands in
          deliver next now db')
      else ok (db', [])

-- `read` is what the first transaction sees, `db` what the second one works on.
unfoldable pub poll_commands :
    AuthenticatedHost
    → ℕ
    → ℤ
    → Database
    → Database
    → Result RegistryError (Database × List AgentCommandEnvelope)
poll_commands a session now read db = do
  ensure_authenticated_generation read.access a now
  if exists_where (is_open a.host_id) read.commands
      then deliver_next a session now db
      else ok (db, [])

abbrev pub is_claimable : ℕ → ℕ → ℤ → BootstrapRow → Bool
is_claimable reference host now b =
    b.reference == reference && b.host_id == host && ltb_ℤ now b.expires_at

abbrev pub sealed_of : Option BootstrapRow → Option ℕ
sealed_of none = none
sealed_of (some b) = b.sealed

-- `claim_bootstrap`, up to the opening of the sealed text by the vault.
unfoldable pub claim_bootstrap :
    AuthenticatedHost → ℕ → ℤ → Database → Result RegistryError (Database × ℕ)
claim_bootstrap a reference now db = do
  ensure_authenticated_generation db.access a now
  sealed ←
      ok_or (sealed_of (first_where (is_claimable reference a.host_id now) db.bootstrap)) not_found
  ok (
    record db {
      bootstrap =
          update_where (λ b. b.reference == reference)
            (λ b. record b { claimed_at = coalesce b.claimed_at now }) db.bootstrap;
    },
    sealed,
  )
