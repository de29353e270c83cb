-- ===== src/Registry/Finality/Loops.antt =====
-- The loops of crates/gridops-core/src/fleet/registry/commands.rs that give up commands.
use gridops.Prelude.{
  ℕ, ◌≡◌, refl, ◌∙◌, ap, Bool, true, false, not, ◌&&◌, ◌||◌, Bool-cases, inl, inr, Option, none,
  some, Option-cases, List, [], ◌∷◌, ◌==◌, arith,
}
use gridops.Prelude.Int.{ℤ}
use gridops.Output.Authority.{HostRow}
use gridops.Registry.Rows.{first_where, select_where}
use gridops.Registry.Tables.{
  CommandKind, CommandState, CommandState-discrete, PlacementColumn, CommandRow, Database,
  ResultRow, audit_and_event,
}
use gridops.Registry.Placements.{
  erase_bootstrap, release, move_if, in_state, keep_uncertain_while_unsettled, is_kind,
}
use gridops.Registry.Placements.Frame.{
  SameCommands, unchanged, SameCommands-trans, erase-SameCommands, release-SameCommands,
  move_if-SameCommands, keep-SameCommands,
}
use gridops.Registry.Results.{set_command}
use gridops.Registry.Delivery.{
  give_up, give_up_placement, cancel_command, cancel_all, cancel_undeliverable, is_undeliverable,
}
use gridops.Registry.Settlement.{
  drop_placement, drop_command, drop_all, reopen_all, settle_unreceived, is_unreceived, touched_by,
  is_creation, is_unstarted,
}
use gridops.Registry.Finality.{
  is_final, state_of, ids, IsDistinct, Avoids, ids-update, state_of-update_ne, select_where-Avoids,
}

-- Ids stay, and a command that ended keeps its state.
pub record KeepsFinals (db db' : Database) : Type 0 where
  pub same_ids : ids db'.commands ≡ ids db.commands
  pub finals :
      (i : ℕ) (s : CommandState)
      → IsDistinct (ids db.commands)
      → is_final s ≡ true
      → state_of i db.commands ≡ some s
      → state_of i db'.commands ≡ some s

pub KeepsFinals-trans : (a b c : Database) → KeepsFinals a b → KeepsFinals b c → KeepsFinals a c
KeepsFinals-trans a b c h k = record {
  same_ids = k.same_ids ∙ h.same_ids;
  finals = λ i s d f e. k.finals i s (rw (h.same_ids) d) f (h.finals i s d f e);
}

pub KeepsFinals-same : (db db' : Database) → db'.commands ≡ db.commands → KeepsFinals db db'
KeepsFinals-same db db' same = record {
  same_ids = ap ids same;
  finals = λ i s d f e. ap (state_of i) same ∙ e;
}

give_up-SameCommands :
    (delivered : Bool) (kind : CommandKind) (p : Option ℕ) (now : ℤ) (db : Database)
    → SameCommands db (give_up_placement delivered kind p now db)
unfolding give_up
give_up-SameCommands delivered kind none now db = unchanged db
give_up-SameCommands delivered kind (some p) now db =
    let gone = release p now (erase_bootstrap p now db) in
    let undone =
      SameCommands-trans db gone _
        (SameCommands-trans db (erase_bootstrap p now db) gone (erase-SameCommands p now db)
          (release-SameCommands p now (erase_bootstrap p now db)))
        (move_if-SameCommands (λ q. true) PlacementColumn.failed p now gone) in
    elim (Bool-cases (delivered && is_kind kind CommandKind.inspect)) [
      | inl looked ↦ rw looked (unchanged db)
      | inr more ↦
          rw more
            (elim (Bool-cases (delivered && not (is_kind kind CommandKind.prepare_environment))) [
              | inl unsure ↦ rw unsure (move_if-SameCommands _ _ p now db)
              | inr sure ↦
                  rw sure
                    (elim (Bool-cases (
                      is_kind kind CommandKind.prepare_environment
                      || is_kind kind CommandKind.start_runner)) [
                        | inl creates ↦ rw creates undone
                        | inr other ↦ rw other (unchanged db)
                      ])
            ])
    ]

drop-SameCommands :
    (kind : CommandKind) (p : Option ℕ) (now : ℤ) (db : Database)
    → SameCommands db (drop_placement kind p now db)
drop-SameCommands kind none now db = unchanged db
drop-SameCommands kind (some p) now db =
    let gone = release p now (erase_bootstrap p now db) in
    elim (Bool-cases (is_creation kind)) [
      | inl creates ↦ rw creates (
          SameCommands-trans db gone _
            (SameCommands-trans db (erase_bootstrap p now db) gone (erase-SameCommands p now db)
              (release-SameCommands p now (erase_bootstrap p now db)))
            (move_if-SameCommands is_unstarted PlacementColumn.failed p now gone))
      | inr other ↦ rw other (unchanged db)
    ]

-- The two loops that set the state of each command that a query found.
cancel_all-ids :
    (cs : List CommandRow) (now : ℤ) (db : Database)
    → ids (cancel_all cs now db).commands ≡ ids db.commands
unfolding cancel_all cancel_command set_command
cancel_all-ids [] now db = refl
cancel_all-ids (c ∷ cs) now db =
    cancel_all-ids cs now (cancel_command c now db)
    ∙ ap ids (give_up-SameCommands _ c.kind c.placement_id now (set_command _ c.id db)).commands
    ∙ ids-update (λ x. x.id == c.id) _ db.commands (λ x. refl)

cancel_all-state_of :
    (i : ℕ) (cs : List CommandRow) (now : ℤ) (db : Database)
    → Avoids i cs
    → state_of i (cancel_all cs now db).commands ≡ state_of i db.commands
unfolding cancel_all cancel_command set_command
cancel_all-state_of i [] now db away = refl
cancel_all-state_of i (c ∷ cs) now db away =
    cancel_all-state_of i cs now (cancel_command c now db) away.1
    ∙ ap (state_of i)
        (give_up-SameCommands _ c.kind c.placement_id now (set_command _ c.id db)).commands
    ∙ state_of-update_ne i c.id _ db.commands away.0 (λ x. refl)

undeliverable-open :
    (host : ℕ) (now : ℤ) (h : HostRow) (c : CommandRow)
    → is_undeliverable host now h c ≡ true
    → is_final c.state ≡ false
unfolding is_undeliverable CommandState-discrete
undeliverable-open host now h c e = ground arith

pub cancel_undeliverable-KeepsFinals :
    (host : ℕ) (now : ℤ) (db : Database) → KeepsFinals db (cancel_undeliverable host now db)
unfolding cancel_undeliverable
cancel_undeliverable-KeepsFinals host now db =
    elim (Option-cases (first_where (λ h. h.id == host) db.access.hosts)) [
      | inl lost ↦ rw (lost, cancel_undeliverable) (KeepsFinals-same db db refl)
      | inr (h, found) ↦
          let rows = select_where (is_undeliverable host now h) db.commands in
          rw (found, cancel_undeliverable)
            (record {
              same_ids = cancel_all-ids rows now db;
              finals = λ i s d f e.
                  cancel_all-state_of i rows now db (
                    select_where-Avoids i s (is_undeliverable host now h) db.commands d f
                      (undeliverable-open host now h) e)
                  ∙ e;
            })
    ]

drop_all-ids :
    (cs : List CommandRow) (now : ℤ) (db : Database)
    → ids (drop_all cs now db).commands ≡ ids db.commands
unfolding drop_all drop_command set_command audit_and_event
drop_all-ids [] now db = refl
drop_all-ids (c ∷ cs) now db =
    drop_all-ids cs now (drop_command c now db)
    ∙ ap ids
        (drop-SameCommands c.kind c.placement_id now (
          audit_and_event "fleet.command.unreceived" c.id now
            (set_command CommandState.cancelled c.id db))).commands
    ∙ ids-update (λ x. x.id == c.id) _ db.commands (λ x. refl)

drop_all-state_of :
    (i : ℕ) (cs : List CommandRow) (now : ℤ) (db : Database)
    → Avoids i cs
    → state_of i (drop_all cs now db).commands ≡ state_of i db.commands
unfolding drop_all drop_command set_command audit_and_event
drop_all-state_of i [] now db away = refl
drop_all-state_of i (c ∷ cs) now db away =
    drop_all-state_of i cs now (drop_command c now db) away.1
    ∙ ap (state_of i)
        (drop-SameCommands c.kind c.placement_id now (
          audit_and_event "fleet.command.unreceived" c.id now
            (set_command CommandState.cancelled c.id db))).commands
    ∙ state_of-update_ne i c.id _ db.commands away.0 (λ x. refl)

reopen_all-SameCommands :
    (ps : List ℕ) (now : ℤ) (db : Database) → SameCommands db (reopen_all ps now db)
unfolding reopen_all
reopen_all-SameCommands [] now db = unchanged db
reopen_all-SameCommands (p ∷ ps) now db =
    let reopened = move_if (in_state PlacementColumn.uncertain) PlacementColumn.running p now db in
    let settled = keep_uncertain_while_unsettled p now reopened in
    SameCommands-trans db settled _
      (SameCommands-trans db reopened settled (move_if-SameCommands _ _ p now db)
        (keep-SameCommands p now reopened))
      (reopen_all-SameCommands ps now settled)

unreceived-open :
    (host epoch session : ℕ) (results : List ResultRow) (c : CommandRow)
    → is_unreceived host epoch session results c ≡ true
    → is_final c.state ≡ false
unfolding is_unreceived CommandState-discrete
unreceived-open host epoch session results c e = ground arith

pub settle-KeepsFinals :
    (host epoch session : ℕ) (now : ℤ) (db : Database)
    → KeepsFinals db (settle_unreceived host epoch session now db)
unfolding settle_unreceived
settle-KeepsFinals host epoch session now db =
    let test = is_unreceived host epoch session db.results in
    let rows = select_where test db.commands in
    let dropped = drop_all rows now db in
    KeepsFinals-trans db dropped _
      (record {
        same_ids = drop_all-ids rows now db;
        finals = λ i s d f e.
            drop_all-state_of i rows now db (
              select_where-Avoids i s test db.commands d f
                (unreceived-open host epoch session db.results) e)
            ∙ e;
      })
      (KeepsFinals-same dropped _ (reopen_all-SameCommands (touched_by rows) now dropped).commands)
