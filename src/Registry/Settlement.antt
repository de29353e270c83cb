-- ===== src/Registry/Settlement.antt =====
-- `settle_unreceived` of crates/gridops-core/src/fleet/registry/commands.rs, which a handshake runs,
-- and `repair_unconfirmed` of registry/unconfirmed.rs, which an administrator runs.
use gridops.Prelude.{
  ℕ, Bool, true, false, not, ◌&&◌, ◌||◌, Option, none, some, List, [], ◌∷◌, ◌==◌, if◌then◌else◌,
}
use gridops.Prelude.Int.{ℤ}
use gridops.Output.Authority.{HostRow, holds}
use gridops.Registry.Rows.{update_where, exists_where, first_where, select_where}
use gridops.Registry.Tables.{
  CommandKind, CommandState, PlacementColumn, CommandRow, ResultRow, PlacementRow, Database,
  audit_and_event,
}
use gridops.Registry.Placements.{
  is_kind, in_state, erase_bootstrap, release, move_if, move_to, keep_uncertain_while_unsettled,
}
use gridops.Registry.Results.{set_command}
use gridops.Registry.Delivery.{in_command_state}

-- The WHERE clause: delivered to an earlier session of this epoch, and without any result.
unfoldable pub is_unreceived : ℕ → ℕ → ℕ → List ResultRow → CommandRow → Bool
is_unreceived host epoch session results c =
    (c.host_id == host && c.host_epoch == epoch)
    && (in_command_state CommandState.delivered c || in_command_state CommandState.uncertain c)
    && (not (c.payload.identity.authority_session_id == session)
        && not (exists_where (λ r. r.command_id == c.id) results))

-- `state IN ('preparing','registering','starting','uncertain')`.
abbrev pub is_unstarted : PlacementRow → Bool
is_unstarted p =
    in_state PlacementColumn.preparing p
    || in_state PlacementColumn.registering p
    || in_state PlacementColumn.starting p
    || in_state PlacementColumn.uncertain p

abbrev pub is_creation : CommandKind → Bool
is_creation kind =
    is_kind kind CommandKind.prepare_environment || is_kind kind CommandKind.start_runner

-- The placement of a command that was never received, unless its move has to wait.
abbrev pub drop_placement : CommandKind → Option ℕ → ℤ → Database → Database
drop_placement kind none now db = db
drop_placement kind (some p) now db =
    if is_creation kind
    then move_if is_unstarted PlacementColumn.failed p now
        (release p now (erase_bootstrap p now db))
    else db

-- One round of the first loop; what it pushes on `touched` is `touched_by`.
unfoldable pub drop_command : CommandRow → ℤ → Database → Database
drop_command c now db = drop_placement c.kind c.placement_id now (
    audit_and_event "fleet.command.unreceived" c.id now
      (set_command CommandState.cancelled c.id db))

abbrev pub pushed : CommandKind → Option ℕ → List ℕ → List ℕ
pushed kind none rest = rest
pushed kind (some p) rest =
    if not (is_creation kind) && not (is_kind kind CommandKind.inspect) then p ∷ rest else rest

unfoldable pub touched_by : List CommandRow → List ℕ
touched_by [] = []
touched_by (c ∷ cs) = pushed c.kind c.placement_id (touched_by cs)

unfoldable pub drop_all : List CommandRow → ℤ → Database → Database
drop_all [] now db = db
drop_all (c ∷ cs) now db = drop_all cs now (drop_command c now db)

-- The second loop.
unfoldable pub reopen_all : List ℕ → ℤ → Database → Database
reopen_all [] now db = db
reopen_all (p ∷ ps) now db = reopen_all ps now (
    keep_uncertain_while_unsettled p now
      (move_if (in_state PlacementColumn.uncertain) PlacementColumn.running p now db))

unfoldable pub settle_unreceived : ℕ → ℕ → ℕ → ℤ → Database → Database
settle_unreceived host epoch session now db =
    let rows = select_where (is_unreceived host epoch session db.results) db.commands in
    reopen_all (touched_by rows) now (drop_all rows now db)

-- `STARTED`: the start of the placement succeeded in the host's present epoch.
unfoldable pub is_started : HostRow → PlacementRow → List CommandRow → Bool
is_started h p commands =
    p.host_epoch == h.epoch
    && exists_where
        (λ c.
          holds c.placement_id p.id
          && is_kind c.kind CommandKind.start_runner
          && in_command_state CommandState.succeeded c)
        commands

-- The query for a placement to repair, joined with its host.
abbrev pub started_at : Option HostRow → Option PlacementRow → List CommandRow → Option Bool
started_at none p commands = none
started_at (some h) none commands = none
started_at (some h) (some p) commands = some (is_started h p commands)

unfoldable pub find_unconfirmed : ℕ → ℕ → Database → Option Bool
find_unconfirmed host placement db =
    started_at (first_where (λ h. h.id == host) db.access.hosts)
      (first_where
        (λ p. p.id == placement && p.host_id == host && in_state PlacementColumn.uncertain p)
        db.placements)
      db.commands

-- Whatever was still open for the placement will never be answered now.
unfoldable pub cancel_open : ℕ → Database → Database
cancel_open placement db = record db {
  commands =
      update_where
        (λ c.
          holds c.placement_id placement
          && (in_command_state CommandState.pending c
              || in_command_state CommandState.delivered c
              || in_command_state CommandState.uncertain c))
        (λ c. record c { state = CommandState.cancelled }) db.commands;
}

-- The repair of one placement whose start was confirmed or not.
unfoldable pub repair_placement : Bool → ℕ → ℤ → Database → Database
repair_placement started p now db = audit_and_event "fleet.placement.repaired" p now (elim started [
  | true ↦ move_to PlacementColumn.running p now (cancel_open p db)
  | false ↦
      move_to PlacementColumn.failed p now
        (release p now (erase_bootstrap p now (cancel_open p db)))
])

-- The loop of `repair_unconfirmed` for a system administrator, with the placements it repaired.
unfoldable pub repair_unconfirmed : ℕ → List ℕ → ℤ → Database → Database × List ℕ
repair_unconfirmed host [] now db = (db, [])
repair_unconfirmed host (p ∷ ps) now db = elim (find_unconfirmed host p db) [
  | none ↦ repair_unconfirmed host ps now db
  | some started ↦
      let (db', repaired) = repair_unconfirmed host ps now (repair_placement started p now db) in
      (db', p ∷ repaired)
]
