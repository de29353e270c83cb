-- ===== src/Registry/Placements.antt =====
-- What an answer does to its placement: `apply_to_placement`, `release`, `erase_bootstrap` and
-- `keep_uncertain_while_unsettled` of crates/gridops-core/src/fleet/registry/commands.rs.
pub mod Frame
use gridops.Prelude.{
  ℕ, Bool, true, false, not, ◌&&◌, Option, none, some, List, [], ◌∷◌, eqb, ◌==◌, if◌then◌else◌,
}
use gridops.Prelude.Int.{ℤ}
use gridops.Output.Authority.{is_null, holds}
use gridops.Protocol.Outcomes.{CommandOutcome, SuccessEvidence}
use gridops.Registry.Rows.{update_where, exists_where}
use gridops.Registry.Tables.{
  CommandKind, CommandKind-discrete, CommandState, CommandState-discrete, PlacementColumn,
  PlacementColumn-discrete, AllocationColumn, AllocationColumn-discrete, CommandRow, PlacementRow,
  AllocationRow, BootstrapRow, Database, coalesce,
}

abbrev pub is_kind : CommandKind → CommandKind → Bool
is_kind a b = eqb CommandKind-discrete a b

abbrev pub in_state : PlacementColumn → PlacementRow → Bool
in_state s p = eqb PlacementColumn-discrete p.state s

abbrev pub is_released : AllocationRow → Bool
is_released a = eqb AllocationColumn-discrete a.state AllocationColumn.released

unfoldable pub erase_bootstrap : ℕ → ℤ → Database → Database
erase_bootstrap placement now db = record db {
  bootstrap =
      update_where (λ b. b.placement_id == placement && is_null b.erased_at)
        (λ b. record b { sealed = none; erased_at = some now }) db.bootstrap;
}

abbrev pub prove_absence : ℤ → PlacementRow → PlacementRow
prove_absence now p = record p {
  local_absence_proven_at = coalesce p.local_absence_proven_at now;
  delayed_starts_excluded_at = coalesce p.delayed_starts_excluded_at now;
  updated_at = now;
}

abbrev pub release_row : ℤ → AllocationRow → AllocationRow
release_row now a = record a {
  state = AllocationColumn.released;
  released_at = some now;
  updated_at = now;
}

unfoldable pub release : ℕ → ℤ → Database → Database
release placement now db = record db {
  placements = update_where (λ p. p.id == placement) (prove_absence now) db.placements;
  allocations =
      update_where (λ a. a.placement_id == placement && not (is_released a)) (release_row now)
        db.allocations;
}

-- `UPDATE capacity_allocations SET state='committed' .. AND state='reserved'`.
unfoldable pub commit : ℕ → ℤ → Database → Database
commit placement now db = record db {
  allocations =
      update_where
        (λ a.
          a.placement_id == placement
          && eqb AllocationColumn-discrete a.state AllocationColumn.reserved)
        (λ a. record a { state = AllocationColumn.committed; updated_at = now }) db.allocations;
}

-- `UPDATE workload_placements SET state=?,updated_at=? WHERE id=? AND test`.
unfoldable pub move_if : (PlacementRow → Bool) → PlacementColumn → ℕ → ℤ → Database → Database
move_if test next placement now db = record db {
  placements =
      update_where (λ p. p.id == placement && test p)
        (λ p. record p { state = next; updated_at = now }) db.placements;
}

abbrev pub move_to : PlacementColumn → ℕ → ℤ → Database → Database
move_to next placement now db = move_if (λ p. true) next placement now db

-- `Accepted` and `Running`, which leave the command open.
abbrev pub is_progress : CommandOutcome → Bool
is_progress (CommandOutcome.accepted n) = true
is_progress (CommandOutcome.running n) = true
is_progress _ = false

abbrev pub is_cleaned : SuccessEvidence → Bool
is_cleaned (SuccessEvidence.cleaned a b c) = true
is_cleaned _ = false

-- The `match` on the outcome and the kind, with the update after it.
unfoldable pub advance : CommandOutcome → CommandKind → ℕ → ℤ → Database → Database
advance (CommandOutcome.succeeded e) CommandKind.prepare_environment p now db =
    move_to PlacementColumn.registering p now db
advance (CommandOutcome.succeeded e) CommandKind.start_runner p now db =
    move_to PlacementColumn.running p now (commit p now db)
advance (CommandOutcome.succeeded e) CommandKind.stop p now db =
    move_to PlacementColumn.stopped p now db
advance (CommandOutcome.succeeded e) CommandKind.cleanup p now db =
    if is_cleaned e then move_to PlacementColumn.cleaned p now (release p now db) else db
advance CommandOutcome.failed CommandKind.prepare_environment p now db =
    move_to PlacementColumn.failed p now (release p now db)
advance CommandOutcome.failed CommandKind.start_runner p now db =
    move_to PlacementColumn.failed p now (release p now db)
advance CommandOutcome.uncertain CommandKind.prepare_environment p now db =
    move_to PlacementColumn.failed p now (release p now db)
advance CommandOutcome.uncertain CommandKind.inspect p now db = db
advance CommandOutcome.uncertain kind p now db = move_to PlacementColumn.uncertain p now db
advance _ kind p now db = db

-- Registration material is erased once a start resolves.
unfoldable pub apply_to_placement : ℕ → CommandKind → CommandOutcome → ℤ → Database → Database
apply_to_placement p kind outcome now db = advance outcome kind p now (
    if is_kind kind CommandKind.start_runner && not (is_progress outcome)
    then erase_bootstrap p now db
    else db)

unfoldable pub placement_is_uncertain : ℕ → Database → Bool
placement_is_uncertain placement db =
    exists_where (λ p. p.id == placement && in_state PlacementColumn.uncertain p) db.placements

-- A command that could have changed the workload of the placement is unanswered.
abbrev pub is_unsettled : ℕ → CommandRow → Bool
is_unsettled placement c =
    holds c.placement_id placement
    && (eqb CommandState-discrete c.state CommandState.uncertain
        && not (is_kind c.kind CommandKind.inspect))

unfoldable pub keep_uncertain_while_unsettled : ℕ → ℤ → Database → Database
keep_uncertain_while_unsettled placement now db =
    move_if
      (λ p.
        not (in_state PlacementColumn.uncertain p)
        && exists_where (is_unsettled placement) db.commands)
      PlacementColumn.uncertain placement now db
