-- ===== src/Registry/Absence/Calls.antt =====
-- Absence proofs and released capacity over a history of calls of
-- crates/gridops-core/src/fleet/registry.
use gridops.Prelude.{
  ℕ, ◌≡◌, refl, Bool, true, false, Bool-cases, inl, inr, Option, none, some, Option-cases, List, [],
  ◌∷◌, ◌==◌, arith, ok, Result-cases, >>=-eq-ok, ok_or,
}
use gridops.Prelude.Int.{ℤ}
use gridops.Output.Authority.{AuthenticatedHost, ensure_authenticated_generation, not_found}
use gridops.Protocol.Outcomes.{AgentCommandResult, AgentCommandEnvelope}
use gridops.Registry.Rows.{first_where, select_where}
use gridops.Registry.Tables.{
  CommandKind, CommandKind-discrete, CommandState, PlacementColumn, CommandRow, Database,
  ResultDisposition, audit_and_event,
}
use gridops.Registry.Placements.{
  erase_bootstrap, release, move_if, move_to, in_state, keep_uncertain_while_unsettled,
}
use gridops.Registry.Results.{set_command, record_command_result}
use gridops.Registry.Results.Steps.{record_cases}
use gridops.Registry.Delivery.{
  give_up, give_up_placement, cancel_command, cancel_all, cancel_undeliverable, poll_commands,
  claim_bootstrap, insert_attempt, mark_delivered, is_claimable, sealed_of,
}
use gridops.Registry.Delivery.Steps.{poll_cases}
use gridops.Registry.Settlement.{
  drop_placement, drop_command, drop_all, reopen_all, settle_unreceived, is_unreceived, touched_by,
  repair_placement, repair_unconfirmed, find_unconfirmed, cancel_open, is_creation,
}
use gridops.Registry.Histories.{Call, answer, poll, claim, settle, repair, run_call, run}
use gridops.Registry.Absence.{AreAccounted, KeepEvidence, KeepReleases}
use gridops.Registry.Absence.Evolution.{
  Evolves, Evolves-trans, Evolves-same, move_if-Evolves, release-Evolves,
}
use gridops.Registry.Absence.Operations.{
  erase-Evolves, event-Evolves, set_command-Evolves, ended-Evolves, keep-Evolves,
  record_new-Evolves,
}

-- A creation that never ran: its material erased, its capacity freed, its placement failed.
undone-Evolves :
    (next : PlacementColumn) (p : ℕ) (now : ℤ) (db : Database)
    → Evolves db (move_to next p now (release p now (erase_bootstrap p now db)))
undone-Evolves next p now db =
    Evolves-trans db _ _ (erase-Evolves p now db)
      (ended-Evolves next p now (erase_bootstrap p now db))

give_up-Evolves :
    (delivered : Bool) (kind : CommandKind) (p : ℕ) (now : ℤ) (db : Database)
    → Evolves db (give_up delivered kind p now db)
unfolding give_up CommandKind-discrete
give_up-Evolves true CommandKind.inspect p now db = Evolves-same db db refl refl
give_up-Evolves true CommandKind.prepare_environment p now db = undone-Evolves _ p now db
give_up-Evolves true kind p now db = move_if-Evolves _ _ p now db
give_up-Evolves false CommandKind.prepare_environment p now db = undone-Evolves _ p now db
give_up-Evolves false CommandKind.start_runner p now db = undone-Evolves _ p now db
give_up-Evolves false kind p now db = Evolves-same db db refl refl

give_up_placement-Evolves :
    (delivered : Bool) (kind : CommandKind) (p : Option ℕ) (now : ℤ) (db : Database)
    → Evolves db (give_up_placement delivered kind p now db)
give_up_placement-Evolves delivered kind none now db = Evolves-same db db refl refl
give_up_placement-Evolves delivered kind (some p) now db = give_up-Evolves delivered kind p now db

cancel_all-Evolves :
    (cs : List CommandRow) (now : ℤ) (db : Database) → Evolves db (cancel_all cs now db)
unfolding cancel_all cancel_command
cancel_all-Evolves [] now db = Evolves-same db db refl refl
cancel_all-Evolves (c ∷ cs) now db =
    Evolves-trans db _ _
      (Evolves-trans db _ _ (set_command-Evolves _ c.id db)
        (give_up_placement-Evolves _ c.kind c.placement_id now (set_command _ c.id db)))
      (cancel_all-Evolves cs now (cancel_command c now db))

pub cancel_undeliverable-Evolves :
    (host : ℕ) (now : ℤ) (db : Database) → Evolves db (cancel_undeliverable host now db)
unfolding cancel_undeliverable
cancel_undeliverable-Evolves host now db =
    elim (Option-cases (first_where (λ h. h.id == host) db.access.hosts)) [
      | inl lost ↦ rw (lost, cancel_undeliverable) (Evolves-same db db refl refl)
      | inr (h, found) ↦ rw (found, cancel_undeliverable) (cancel_all-Evolves _ now db)
    ]

entered-Evolves :
    (id attempt : ℕ) (now : ℤ) (db db' : Database)
    → insert_attempt id attempt now (mark_delivered id attempt db) ≡ ok db'
    → Evolves db db'
unfolding insert_attempt mark_delivered
entered-Evolves id attempt now db db' e = Evolves-same db db' (ground arith) (ground arith)

poll-Evolves :
    (a : AuthenticatedHost) (session : ℕ) (now : ℤ) (read db db' : Database)
    (es : List AgentCommandEnvelope)
    → poll_commands a session now read db ≡ ok (db', es)
    → Evolves db db'
poll-Evolves a session now read db db' es e =
    let mid = cancel_undeliverable a.host_id now db in
    let first = cancel_undeliverable-Evolves a.host_id now db in
    elim (poll_cases a session now read db db' es e) [
      | inl idle ↦ rw (idle.0) (Evolves-same db db refl refl)
      | inr (inl none_due) ↦ rw (none_due.0) first
      | inr (inr (c, h)) ↦
          Evolves-trans db mid db' first (entered-Evolves c.id _ now mid db' h.entered)
    ]

claim-Evolves :
    (a : AuthenticatedHost) (reference : ℕ) (now : ℤ) (db db' : Database) (sealed : ℕ)
    → claim_bootstrap a reference now db ≡ ok (db', sealed)
    → Evolves db db'
unfolding claim_bootstrap
claim-Evolves a reference now db db' sealed e =
    let (u, authentic, e1) = >>=-eq-ok (ensure_authenticated_generation db.access a now) _ e in
    let o = sealed_of (first_where (is_claimable reference a.host_id now) db.bootstrap) in
    let (s, found, e2) = >>=-eq-ok (ok_or o not_found) _ e1 in
    Evolves-same db db' (ground arith) (ground arith)

drop_placement-Evolves :
    (kind : CommandKind) (p : Option ℕ) (now : ℤ) (db : Database)
    → Evolves db (drop_placement kind p now db)
drop_placement-Evolves kind none now db = Evolves-same db db refl refl
drop_placement-Evolves kind (some p) now db = elim (Bool-cases (is_creation kind)) [
  | inl creates ↦ rw creates (
      Evolves-trans db _ _
        (Evolves-trans db _ _ (erase-Evolves p now db)
          (release-Evolves p now (erase_bootstrap p now db)))
        (move_if-Evolves _ _ p now (release p now (erase_bootstrap p now db))))
  | inr other ↦ rw other (Evolves-same db db refl refl)
]

drop_all-Evolves :
    (cs : List CommandRow) (now : ℤ) (db : Database) → Evolves db (drop_all cs now db)
unfolding drop_all drop_command
drop_all-Evolves [] now db = Evolves-same db db refl refl
drop_all-Evolves (c ∷ cs) now db =
    let cancelled = set_command CommandState.cancelled c.id db in
    let told = audit_and_event "fleet.command.unreceived" c.id now cancelled in
    Evolves-trans db _ _
      (Evolves-trans db told _
        (Evolves-trans db cancelled told (set_command-Evolves _ c.id db)
          (event-Evolves _ c.id now cancelled))
        (drop_placement-Evolves c.kind c.placement_id now told))
      (drop_all-Evolves cs now (drop_command c now db))

reopen_all-Evolves : (ps : List ℕ) (now : ℤ) (db : Database) → Evolves db (reopen_all ps now db)
unfolding reopen_all
reopen_all-Evolves [] now db = Evolves-same db db refl refl
reopen_all-Evolves (p ∷ ps) now db =
    let reopened = move_if (in_state PlacementColumn.uncertain) PlacementColumn.running p now db in
    let settled = keep_uncertain_while_unsettled p now reopened in
    Evolves-trans db settled _
      (Evolves-trans db reopened settled (move_if-Evolves _ _ p now db)
        (keep-Evolves p now reopened))
      (reopen_all-Evolves ps now settled)

settle-Evolves :
    (host epoch session : ℕ) (now : ℤ) (db : Database)
    → Evolves db (settle_unreceived host epoch session now db)
unfolding settle_unreceived
settle-Evolves host epoch session now db =
    let rows = select_where (is_unreceived host epoch session db.results) db.commands in
    Evolves-trans db _ _ (drop_all-Evolves rows now db)
      (reopen_all-Evolves (touched_by rows) now (drop_all rows now db))

cancel_open-Evolves : (p : ℕ) (db : Database) → Evolves db (cancel_open p db)
unfolding cancel_open
cancel_open-Evolves p db = Evolves-same db _ refl refl

repair_placement-Evolves :
    (started : Bool) (p : ℕ) (now : ℤ) (db : Database)
    → Evolves db (repair_placement started p now db)
unfolding repair_placement
repair_placement-Evolves true p now db =
    Evolves-trans db _ _
      (Evolves-trans db _ _ (cancel_open-Evolves p db)
        (move_if-Evolves _ _ p now (cancel_open p db)))
      (event-Evolves _ p now _)
repair_placement-Evolves false p now db =
    Evolves-trans db _ _
      (Evolves-trans db _ _ (cancel_open-Evolves p db) (undone-Evolves _ p now (cancel_open p db)))
      (event-Evolves _ p now _)

repair-Evolves :
    (host : ℕ) (ps : List ℕ) (now : ℤ) (db : Database)
    → Evolves db (repair_unconfirmed host ps now db).0
unfolding repair_unconfirmed
repair-Evolves host [] now db = Evolves-same db db refl refl
repair-Evolves host (p ∷ ps) now db = elim (Option-cases (find_unconfirmed host p db)) [
  | inl settled ↦ rw (settled, repair_unconfirmed) (repair-Evolves host ps now db)
  | inr (started, found) ↦
      rw (found, repair_unconfirmed)
        (Evolves-trans db _ _ (repair_placement-Evolves started p now db)
          (repair-Evolves host ps now (repair_placement started p now db)))
]

module _ (sha256 : List ℕ → ℕ) (hash : AgentCommandResult → ℕ) where
  record-Evolves :
      (a : AuthenticatedHost) (r : AgentCommandResult) (now : ℤ) (db db' : Database)
      (d : ResultDisposition)
      → record_command_result sha256 hash a r now db ≡ ok (db', d)
      → Evolves db db'
  record-Evolves a r now db db' d e =
      let (row, recorded) = record_cases sha256 hash a r now db db' d e in
      elim recorded.step [
        | inl (s, old, same, _) ↦ rw same (Evolves-same db db refl refl)
        | inr (fresh, done) ↦ record_new-Evolves sha256 hash row r now db db' d done
      ]

  run_call-Evolves : (call : Call) (db : Database) → Evolves db (run_call sha256 hash call db)
  unfolding run_call
  run_call-Evolves (answer a r now) db =
      elim (Result-cases (record_command_result sha256 hash a r now db)) [
        | inl ((db', d), done) ↦ rw done (record-Evolves a r now db db' d done)
        | inr (e, failed) ↦ rw failed (Evolves-same db db refl refl)
      ]
  run_call-Evolves (poll a session now read) db =
      elim (Result-cases (poll_commands a session now read db)) [
        | inl ((db', es), done) ↦ rw done (poll-Evolves a session now read db db' es done)
        | inr (e, failed) ↦ rw failed (Evolves-same db db refl refl)
      ]
  run_call-Evolves (claim a reference now) db =
      elim (Result-cases (claim_bootstrap a reference now db)) [
        | inl ((db', s), done) ↦ rw done (claim-Evolves a reference now db db' s done)
        | inr (e, failed) ↦ rw failed (Evolves-same db db refl refl)
      ]
  run_call-Evolves (settle host epoch session now) db = settle-Evolves host epoch session now db
  run_call-Evolves (repair host ps now) db = repair-Evolves host ps now db

  run-Evolves : (calls : List Call) (db : Database) → Evolves db (run sha256 hash calls db)
  unfolding run
  run-Evolves [] db = Evolves-same db db refl refl
  run-Evolves (call ∷ calls) db =
      Evolves-trans db _ _ (run_call-Evolves call db)
        (run-Evolves calls (run_call sha256 hash call db))

  -- Whatever agents, handshakes and administrators call, in whatever order: if at first every
  -- allocation has a placement, and every released one a placement with both proofs of absence, then
  -- this holds at the end; no released allocation is charged again or changes the time of its
  -- release; and no proof of absence is withdrawn or dated anew.
  pub run-AreAccounted :
      (calls : List Call) (db : Database)
      → AreAccounted db.placements db.allocations
      → let db' = run sha256 hash calls db in
        AreAccounted db'.placements db'.allocations
        × KeepReleases db.allocations db'.allocations
        × KeepEvidence db.placements db'.placements
  run-AreAccounted calls db accounted =
      let all = run-Evolves calls db in (all.accounted accounted, all.releases, all.evidence)
