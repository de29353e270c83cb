-- ===== src/Registry/Placements/Frame.antt =====
-- What the moves of a placement in crates/gridops-core/src/fleet/registry/commands.rs do to the other
-- tables.
use gridops.Prelude.{ℕ, String, ◌≡◌, refl, ◌∙◌, Bool, not, ◌&&◌, Bool-cases, inl, inr}
use gridops.Prelude.Int.{ℤ}
use gridops.Protocol.Outcomes.{CommandOutcome}
use gridops.Registry.Tables.{CommandKind, PlacementColumn, PlacementRow, Database, audit_and_event}
use gridops.Registry.Placements.{
  erase_bootstrap, release, commit, move_if, advance, apply_to_placement, is_cleaned, is_progress,
  is_kind, keep_uncertain_while_unsettled,
}

pub record SameCommands (db db' : Database) : Type 0 where
  pub access : db'.access ≡ db.access
  pub commands : db'.commands ≡ db.commands
  pub attempts : db'.attempts ≡ db.attempts
  pub results : db'.results ≡ db.results

abbrev pub unchanged : (db : Database) → SameCommands db db
unchanged db = record { access = refl; commands = refl; attempts = refl; results = refl }

pub SameCommands-trans : (a b c : Database) → SameCommands a b → SameCommands b c → SameCommands a c
SameCommands-trans a b c h k = record {
  access = k.access ∙ h.access;
  commands = k.commands ∙ h.commands;
  attempts = k.attempts ∙ h.attempts;
  results = k.results ∙ h.results;
}

pub erase-SameCommands :
    (p : ℕ) (now : ℤ) (db : Database) → SameCommands db (erase_bootstrap p now db)
unfolding erase_bootstrap
erase-SameCommands p now db = record {
  access = refl;
  commands = refl;
  attempts = refl;
  results = refl;
}

pub release-SameCommands : (p : ℕ) (now : ℤ) (db : Database) → SameCommands db (release p now db)
unfolding release
release-SameCommands p now db = record {
  access = refl;
  commands = refl;
  attempts = refl;
  results = refl;
}

pub move_if-SameCommands :
    (test : PlacementRow → Bool) (next : PlacementColumn) (p : ℕ) (now : ℤ) (db : Database)
    → SameCommands db (move_if test next p now db)
unfolding move_if
move_if-SameCommands test next p now db = record {
  access = refl;
  commands = refl;
  attempts = refl;
  results = refl;
}

pub keep-SameCommands :
    (p : ℕ) (now : ℤ) (db : Database) → SameCommands db (keep_uncertain_while_unsettled p now db)
unfolding keep_uncertain_while_unsettled move_if
keep-SameCommands p now db = record {
  access = refl;
  commands = refl;
  attempts = refl;
  results = refl;
}

pub event-SameCommands :
    (action : String) (subject : ℕ) (now : ℤ) (db : Database)
    → SameCommands db (audit_and_event action subject now db)
unfolding audit_and_event
event-SameCommands action subject now db = record {
  access = refl;
  commands = refl;
  attempts = refl;
  results = refl;
}

advance-SameCommands :
    (outcome : CommandOutcome) (kind : CommandKind) (p : ℕ) (now : ℤ) (db : Database)
    → SameCommands db (advance outcome kind p now db)
unfolding advance release commit move_if
advance-SameCommands (CommandOutcome.succeeded e) CommandKind.cleanup p now db =
    elim (Bool-cases (is_cleaned e)) [
      | inl clean ↦
          rw clean (record { access = refl; commands = refl; attempts = refl; results = refl })
      | inr other ↦
          rw other (record { access = refl; commands = refl; attempts = refl; results = refl })
    ]
advance-SameCommands CommandOutcome.failed CommandKind.prepare_environment p now db = record {
  access = refl;
  commands = refl;
  attempts = refl;
  results = refl;
}
advance-SameCommands CommandOutcome.failed CommandKind.start_runner p now db = record {
  access = refl;
  commands = refl;
  attempts = refl;
  results = refl;
}
advance-SameCommands CommandOutcome.uncertain CommandKind.prepare_environment p now db = record {
  access = refl;
  commands = refl;
  attempts = refl;
  results = refl;
}
advance-SameCommands CommandOutcome.uncertain CommandKind.inspect p now db = record {
  access = refl;
  commands = refl;
  attempts = refl;
  results = refl;
}
advance-SameCommands outcome kind p now db = record {
  access = refl;
  commands = refl;
  attempts = refl;
  results = refl;
}

pub apply-SameCommands :
    (p : ℕ) (kind : CommandKind) (outcome : CommandOutcome) (now : ℤ) (db : Database)
    → SameCommands db (apply_to_placement p kind outcome now db)
unfolding apply_to_placement
apply-SameCommands p kind outcome now db =
    elim (Bool-cases (is_kind kind CommandKind.start_runner && not (is_progress outcome))) [
      | inl erased ↦ rw erased (
          SameCommands-trans db (erase_bootstrap p now db) _ (erase-SameCommands p now db)
            (advance-SameCommands outcome kind p now (erase_bootstrap p now db)))
      | inr spared ↦ rw spared (advance-SameCommands outcome kind p now db)
    ]
