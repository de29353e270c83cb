-- ===== src/Registry/Absence/Operations.antt =====
-- The calls of crates/gridops-core/src/fleet/registry as changes of placements and allocations.
use gridops.Prelude.{
  ℕ, String, ◌≡◌, refl, Bool, true, false, not, ◌&&◌, Bool-cases, inl, inr, Option, none, some,
  List, arith, ok, >>=-eq-ok,
}
use gridops.Prelude.Int.{ℤ}
use gridops.Protocol.Outcomes.{CommandOutcome, AgentCommandResult}
use gridops.Registry.Tables.{
  CommandKind, CommandState, PlacementColumn, CommandRow, ResultRow, Database, audit_and_event,
  ResultDisposition,
}
use gridops.Registry.Placements.{
  erase_bootstrap, release, commit, move_to, advance, apply_to_placement,
  keep_uncertain_while_unsettled, is_kind, is_progress, is_cleaned, placement_is_uncertain,
}
use gridops.Registry.Results.{
  set_command, upsert_attempt, insert_result, move_placement, apply_result, record_new, is_late,
  is_ended,
}
use gridops.Registry.Absence.Evolution.{
  Evolves, Evolves-trans, Evolves-same, move_if-Evolves, release-Evolves, commit-Evolves,
}

pub erase-Evolves : (p : ℕ) (now : ℤ) (db : Database) → Evolves db (erase_bootstrap p now db)
unfolding erase_bootstrap
erase-Evolves p now db = Evolves-same db _ refl refl

pub event-Evolves :
    (action : String) (subject : ℕ) (now : ℤ) (db : Database)
    → Evolves db (audit_and_event action subject now db)
unfolding audit_and_event
event-Evolves action subject now db = Evolves-same db _ refl refl

pub set_command-Evolves :
    (next : CommandState) (id : ℕ) (db : Database) → Evolves db (set_command next id db)
unfolding set_command
set_command-Evolves next id db = Evolves-same db _ refl refl

-- Absence recorded, capacity freed and the placement moved.
pub ended-Evolves :
    (next : PlacementColumn) (p : ℕ) (now : ℤ) (db : Database)
    → Evolves db (move_to next p now (release p now db))
ended-Evolves next p now db =
    Evolves-trans db _ _ (release-Evolves p now db)
      (move_if-Evolves _ next p now (release p now db))

advance-Evolves :
    (outcome : CommandOutcome) (kind : CommandKind) (p : ℕ) (now : ℤ) (db : Database)
    → Evolves db (advance outcome kind p now db)
unfolding advance
advance-Evolves (CommandOutcome.succeeded e) CommandKind.prepare_environment p now db =
    move_if-Evolves _ _ p now db
advance-Evolves (CommandOutcome.succeeded e) CommandKind.start_runner p now db =
    Evolves-trans db _ _ (commit-Evolves p now db) (move_if-Evolves _ _ p now (commit p now db))
advance-Evolves (CommandOutcome.succeeded e) CommandKind.stop p now db =
    move_if-Evolves _ _ p now db
advance-Evolves (CommandOutcome.succeeded e) CommandKind.cleanup p now db =
    elim (Bool-cases (is_cleaned e)) [
      | inl clean ↦ rw clean (ended-Evolves _ p now db)
      | inr other ↦ rw other (Evolves-same db db refl refl)
    ]
advance-Evolves CommandOutcome.failed CommandKind.prepare_environment p now db =
    ended-Evolves _ p now db
advance-Evolves CommandOutcome.failed CommandKind.start_runner p now db = ended-Evolves _ p now db
advance-Evolves CommandOutcome.uncertain CommandKind.prepare_environment p now db =
    ended-Evolves _ p now db
advance-Evolves CommandOutcome.uncertain CommandKind.inspect p now db = Evolves-same db db refl refl
advance-Evolves CommandOutcome.uncertain kind p now db = move_if-Evolves _ _ p now db
advance-Evolves outcome kind p now db = Evolves-same db db refl refl

apply-Evolves :
    (p : ℕ) (kind : CommandKind) (outcome : CommandOutcome) (now : ℤ) (db : Database)
    → Evolves db (apply_to_placement p kind outcome now db)
unfolding apply_to_placement
apply-Evolves p kind outcome now db =
    elim (Bool-cases (is_kind kind CommandKind.start_runner && not (is_progress outcome))) [
      | inl erased ↦ rw erased (
          Evolves-trans db _ _ (erase-Evolves p now db)
            (advance-Evolves outcome kind p now (erase_bootstrap p now db)))
      | inr spared ↦ rw spared (advance-Evolves outcome kind p now db)
    ]

pub keep-Evolves :
    (p : ℕ) (now : ℤ) (db : Database) → Evolves db (keep_uncertain_while_unsettled p now db)
unfolding keep_uncertain_while_unsettled
keep-Evolves p now db = move_if-Evolves _ _ p now db

move_placement-Evolves :
    (late : Bool) (placement : Option ℕ) (kind : CommandKind) (outcome : CommandOutcome) (now : ℤ)
    (db : Database)
    → Evolves db (move_placement late placement kind outcome now db)
move_placement-Evolves late none kind outcome now db = Evolves-same db db refl refl
move_placement-Evolves false (some p) kind outcome now db = apply-Evolves p kind outcome now db
move_placement-Evolves true (some p) kind outcome now db =
    elim (Bool-cases (placement_is_uncertain p db)) [
      | inl waits ↦ rw waits (
          Evolves-trans db _ _ (apply-Evolves p kind outcome now db)
            (keep-Evolves p now (apply_to_placement p kind outcome now db)))
      | inr moved ↦ rw moved (Evolves-same db db refl refl)
    ]

upsert-Evolves :
    (id attempt : ℕ) (state : CommandState) (now : ℤ) (db db' : Database)
    → upsert_attempt id attempt state now db ≡ ok db'
    → Evolves db db'
unfolding upsert_attempt
upsert-Evolves id attempt state now db db' e = Evolves-same db db' (ground arith) (ground arith)

apply_result-Evolves :
    (late : Bool) (row : CommandRow) (outcome : CommandOutcome) (now : ℤ) (db db' : Database)
    → apply_result late row outcome now db ≡ ok db'
    → Evolves db db'
unfolding apply_result
apply_result-Evolves late row outcome now db db' e =
    let (mid, entered, moved) = >>=-eq-ok (upsert_attempt row.id _ _ now _) _ e in
    let last = move_placement late row.placement_id row.kind outcome now mid in
    let to_last =
      Evolves-trans db _ last
        (Evolves-trans db _ mid (set_command-Evolves _ row.id db)
          (upsert-Evolves row.id _ _ now (set_command _ row.id db) mid entered))
        (move_placement-Evolves late row.placement_id row.kind outcome now mid) in
    let same : audit_and_event "fleet.command.result" row.id now last ≡ db' = cc moved in
    rw (← same) (Evolves-trans db last _ to_last (event-Evolves _ row.id now last))

insert_result-Evolves :
    (row : ResultRow) (db db' : Database) → insert_result row db ≡ ok db' → Evolves db db'
unfolding insert_result
insert_result-Evolves row db db' e = Evolves-same db db' (ground arith) (ground arith)

module _ (sha256 : List ℕ → ℕ) (hash : AgentCommandResult → ℕ) where
  pub record_new-Evolves :
      (row : CommandRow) (r : AgentCommandResult) (now : ℤ) (db db' : Database)
      (d : ResultDisposition)
      → record_new sha256 hash row r now db ≡ ok (db', d)
      → Evolves db db'
  unfolding record_new
  record_new-Evolves row r now db db' d e =
      let (mid, entered, rest) = >>=-eq-ok (insert_result _ db) _ e in
      let first = insert_result-Evolves _ db mid entered in
      elim (Bool-cases (not (is_late row db) && is_ended row.state)) [
        | inl terminal ↦ let same : mid ≡ db' = ground arith in rw (← same) first
        | inr waits ↦
            let (last, settled, final) =
              >>=-eq-ok (apply_result _ row r.outcome now mid) _ (rw waits at rest) in
            let same : last ≡ db' = cc final in
            rw (← same) (
              Evolves-trans db mid last first
                (apply_result-Evolves _ row r.outcome now mid last settled))
      ]
