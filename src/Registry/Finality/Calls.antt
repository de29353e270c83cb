-- ===== src/Registry/Finality/Calls.antt =====
-- Commands that ended, over a history of calls of crates/gridops-core/src/fleet/registry.
use gridops.Prelude.{
  ℕ, ◌≡◌, refl, ◌∙◌, sym, ap, Bool, true, false, Bool-cases, inl, inr, some, Option-cases, List, [],
  ◌∷◌, ◌==◌, arith, ok, Result-cases, >>=-eq-ok, ok_or, ==_iff,
}
use gridops.Prelude.Int.{ℤ}
use gridops.Output.Authority.{AuthenticatedHost, ensure_authenticated_generation, not_found}
use gridops.Protocol.Outcomes.{AgentCommandResult, AgentCommandEnvelope}
use gridops.Registry.Rows.{first_where, update_where}
use gridops.Registry.Tables.{
  CommandState, CommandState-discrete, PlacementColumn, CommandRow, Database, ResultDisposition,
  ResultRow,
}
use gridops.Registry.Placements.{erase_bootstrap, release, move_to}
use gridops.Registry.Placements.Frame.{
  SameCommands-trans, erase-SameCommands, release-SameCommands, move_if-SameCommands,
  event-SameCommands,
}
use gridops.Registry.Results.{set_command, record_command_result, is_command, insert_result}
use gridops.Registry.Results.Steps.{record_cases, record_new_cases, is_settled}
use gridops.Registry.Results.Again.{apply_result-Applied}
use gridops.Registry.Delivery.{
  cancel_undeliverable, poll_commands, claim_bootstrap, insert_attempt, mark_delivered,
  is_claimable, sealed_of, is_deliverable,
}
use gridops.Registry.Delivery.Steps.{poll_cases}
use gridops.Registry.Settlement.{
  repair_placement, repair_unconfirmed, find_unconfirmed, cancel_open,
}
use gridops.Registry.Histories.{Call, answer, poll, claim, settle, repair, run_call, run}
use gridops.Registry.Finality.{
  is_final, state_of, ids, IsDistinct, ids-update, state_of-update_ne, state_of-update_open,
  first_where-state_of,
}
use gridops.Registry.Finality.Loops.{
  KeepsFinals, KeepsFinals-trans, KeepsFinals-same, cancel_undeliverable-KeepsFinals,
  settle-KeepsFinals,
}

-- A command that has not ended is not one that has.
other_command :
    (row : CommandRow) (test : CommandRow → Bool) (cs : List CommandRow) (i : ℕ) (s : CommandState)
    → IsDistinct (ids cs)
    → first_where test cs ≡ some row
    → is_final row.state ≡ false
    → is_final s ≡ true
    → state_of i cs ≡ some s
    → (row.id == i) ≡ false
other_command row test cs i s d found unended f e = elim (Bool-cases (row.id == i)) [
  | inr other ↦ other
  | inl here ↦
      let same : row.id ≡ i = (==_iff row.id i).0 here in
      let shown = first_where-state_of test cs row d found in
      let equal : some row.state ≡ some s = sym shown ∙ ap (λ k. state_of k cs) same ∙ e in
      ground arith
]

-- A change of one command that has not ended.
update-KeepsFinals :
    (row : CommandRow) (test : CommandRow → Bool) (change : CommandRow → CommandRow)
    (db db' : Database)
    → db'.commands ≡ update_where (λ c. c.id == row.id) change db.commands
    → ((c : CommandRow) → (change c).id ≡ c.id)
    → first_where test db.commands ≡ some row
    → is_final row.state ≡ false
    → KeepsFinals db db'
update-KeepsFinals row test change db db' became same found unended = record {
  same_ids = ap ids became ∙ ids-update (λ c. c.id == row.id) change db.commands same;
  finals = λ i s d f e.
      ap (state_of i) became
      ∙ state_of-update_ne i row.id change db.commands
          (other_command row test db.commands i s d found unended f e) same
      ∙ e;
}

cancel_open-KeepsFinals : (p : ℕ) (db : Database) → KeepsFinals db (cancel_open p db)
unfolding cancel_open CommandState-discrete
cancel_open-KeepsFinals p db = record {
  same_ids = ids-update _ _ db.commands (λ c. refl);
  finals =
      λ i s d f e. state_of-update_open i s _ _ db.commands f (λ c. refl) (λ c h. ground arith) e;
}

repair_placement-KeepsFinals :
    (started : Bool) (p : ℕ) (now : ℤ) (db : Database)
    → KeepsFinals db (repair_placement started p now db)
unfolding repair_placement
repair_placement-KeepsFinals true p now db =
    let shut = cancel_open p db in
    KeepsFinals-trans db shut _ (cancel_open-KeepsFinals p db) (
      KeepsFinals-same shut _
        (SameCommands-trans shut (move_to PlacementColumn.running p now shut) _
          (move_if-SameCommands _ _ p now shut)
          (event-SameCommands "fleet.placement.repaired" p now _)).commands)
repair_placement-KeepsFinals false p now db =
    let shut = cancel_open p db in
    let gone = release p now (erase_bootstrap p now shut) in
    KeepsFinals-trans db shut _ (cancel_open-KeepsFinals p db) (
      KeepsFinals-same shut _
        (SameCommands-trans shut gone _
          (SameCommands-trans shut (erase_bootstrap p now shut) gone (erase-SameCommands p now shut)
            (release-SameCommands p now (erase_bootstrap p now shut)))
          (SameCommands-trans gone (move_to PlacementColumn.failed p now gone) _
            (move_if-SameCommands _ _ p now gone)
            (event-SameCommands "fleet.placement.repaired" p now _))).commands)

repair-KeepsFinals :
    (host : ℕ) (ps : List ℕ) (now : ℤ) (db : Database)
    → KeepsFinals db (repair_unconfirmed host ps now db).0
unfolding repair_unconfirmed
repair-KeepsFinals host [] now db = KeepsFinals-same db db refl
repair-KeepsFinals host (p ∷ ps) now db = elim (Option-cases (find_unconfirmed host p db)) [
  | inl settled ↦ rw (settled, repair_unconfirmed) (repair-KeepsFinals host ps now db)
  | inr (started, found) ↦
      rw (found, repair_unconfirmed)
        (KeepsFinals-trans db _ _ (repair_placement-KeepsFinals started p now db)
          (repair-KeepsFinals host ps now (repair_placement started p now db)))
]

deliverable-open :
    (host session : ℕ) (now : ℤ) (mid : Database) (cs : List CommandRow) (c : CommandRow)
    → first_where (is_deliverable host session now mid) cs ≡ some c
    → is_final c.state ≡ false
unfolding is_deliverable first_where CommandState-discrete
deliverable-open host session now mid [] c e = cc
deliverable-open host session now mid (x ∷ xs) c e =
    ground (arith, deliverable-open host session now mid xs c)

entered-commands :
    (id attempt : ℕ) (now : ℤ) (mid db' : Database)
    → insert_attempt id attempt now (mark_delivered id attempt mid) ≡ ok db'
    → db'.commands
      ≡ update_where
          (λ c. c.id == id)
          (λ c. record c { state = CommandState.delivered; attempt_count = attempt })
          mid.commands
unfolding insert_attempt mark_delivered
entered-commands id attempt now mid db' e = ground arith

poll-KeepsFinals :
    (a : AuthenticatedHost) (session : ℕ) (now : ℤ) (read db db' : Database)
    (es : List AgentCommandEnvelope)
    → poll_commands a session now read db ≡ ok (db', es)
    → KeepsFinals db db'
poll-KeepsFinals a session now read db db' es e =
    let mid = cancel_undeliverable a.host_id now db in
    let first = cancel_undeliverable-KeepsFinals a.host_id now db in
    elim (poll_cases a session now read db db' es e) [
      | inl idle ↦ rw (idle.0) (KeepsFinals-same db db refl)
      | inr (inl none_due) ↦ rw (none_due.0) first
      | inr (inr (c, h)) ↦ KeepsFinals-trans db mid db' first (
          update-KeepsFinals c (is_deliverable a.host_id session now mid) _ mid db'
            (entered-commands c.id _ now mid db' h.entered) (λ x. refl) h.next
            (deliverable-open a.host_id session now mid mid.commands c h.next))
    ]

claim-commands :
    (a : AuthenticatedHost) (reference : ℕ) (now : ℤ) (db db' : Database) (sealed : ℕ)
    → claim_bootstrap a reference now db ≡ ok (db', sealed)
    → db'.commands ≡ db.commands
unfolding claim_bootstrap
claim-commands a reference now db db' sealed e =
    let (u, authentic, e1) = >>=-eq-ok (ensure_authenticated_generation db.access a now) _ e in
    let o = sealed_of (first_where (is_claimable reference a.host_id now) db.bootstrap) in
    let (s, found, e2) = >>=-eq-ok (ok_or o not_found) _ e1 in ground arith

insert_result-commands :
    (row : ResultRow) (db mid : Database)
    → insert_result row db ≡ ok mid
    → mid.commands ≡ db.commands
unfolding insert_result
insert_result-commands row db mid e = ground arith

module _ (sha256 : List ℕ → ℕ) (hash : AgentCommandResult → ℕ) where
  unsettled-open :
      (row : CommandRow) (db : Database)
      → is_settled sha256 hash row db ≡ false
      → is_final row.state ≡ false
  unfolding CommandState-discrete
  unsettled-open row db e = ground arith

  record-KeepsFinals :
      (a : AuthenticatedHost) (r : AgentCommandResult) (now : ℤ) (db db' : Database)
      (d : ResultDisposition)
      → record_command_result sha256 hash a r now db ≡ ok (db', d)
      → KeepsFinals db db'
  unfolding set_command
  record-KeepsFinals a r now db db' d e =
      let (row, was) = record_cases sha256 hash a r now db db' d e in
      elim was.step [
        | inl (s, old, same, shown) ↦ rw same (KeepsFinals-same db db refl)
        | inr (fresh, done) ↦
            let (mid, entered, step) = record_new_cases sha256 hash row r now db db' d done in
            let filed = insert_result-commands _ db mid entered in
            elim step [
              | inl (settled, end, _) ↦ rw end (KeepsFinals-same db mid filed)
              | inr (waits, _, moved) ↦
                  let there = apply_result-Applied _ row r.outcome now mid db' moved in
                  KeepsFinals-trans db mid db' (KeepsFinals-same db mid filed) (
                    update-KeepsFinals row (is_command r.identity.command_id a.host_id) _ mid db'
                      there.commands (λ x. refl) (rw filed was.found) (unsettled-open row db waits))
            ]
      ]

  run_call-KeepsFinals :
      (call : Call) (db : Database) → KeepsFinals db (run_call sha256 hash call db)
  unfolding run_call
  run_call-KeepsFinals (answer a r now) db =
      elim (Result-cases (record_command_result sha256 hash a r now db)) [
        | inl ((db', d), done) ↦ rw done (record-KeepsFinals a r now db db' d done)
        | inr (e, failed) ↦ rw failed (KeepsFinals-same db db refl)
      ]
  run_call-KeepsFinals (poll a session now read) db =
      elim (Result-cases (poll_commands a session now read db)) [
        | inl ((db', es), done) ↦ rw done (poll-KeepsFinals a session now read db db' es done)
        | inr (e, failed) ↦ rw failed (KeepsFinals-same db db refl)
      ]
  run_call-KeepsFinals (claim a reference now) db =
      elim (Result-cases (claim_bootstrap a reference now db)) [
        | inl ((db', s), done) ↦
            rw done (KeepsFinals-same db db' (claim-commands a reference now db db' s done))
        | inr (e, failed) ↦ rw failed (KeepsFinals-same db db refl)
      ]
  run_call-KeepsFinals (settle host epoch session now) db =
      settle-KeepsFinals host epoch session now db
  run_call-KeepsFinals (repair host ps now) db = repair-KeepsFinals host ps now db

  run-KeepsFinals : (calls : List Call) (db : Database) → KeepsFinals db (run sha256 hash calls db)
  unfolding run
  run-KeepsFinals [] db = KeepsFinals-same db db refl
  run-KeepsFinals (call ∷ calls) db =
      KeepsFinals-trans db _ _ (run_call-KeepsFinals call db)
        (run-KeepsFinals calls (run_call sha256 hash call db))

  -- Whatever agents, handshakes and administrators call, in whatever order: a command that succeeded,
  -- failed or was cancelled keeps that state, where the ids of commands are unique.
  pub run-state_of :
      (calls : List Call) (db : Database) (i : ℕ) (s : CommandState)
      → IsDistinct (ids db.commands)
      → is_final s ≡ true
      → state_of i db.commands ≡ some s
      → state_of i (run sha256 hash calls db).commands ≡ some s
  run-state_of calls db i s distinct final e =
      (run-KeepsFinals calls db).finals i s distinct final e
