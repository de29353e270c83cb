-- ===== src/Registry/Results/Again.antt =====
-- A result that reaches `record_command_result` of
-- crates/gridops-core/src/fleet/registry/commands.rs again.
use gridops.Prelude.{
  ℕ, ◌≡◌, refl, ◌∙◌, ap, Bool, true, false, ◌&&◌, Bool-cases, inl, inr, Option, none, some, List,
  [], ◌∷◌, ◌++◌, ◌==◌, if◌then◌else◌, arith, ok, >>=-eq-ok, max,
}
use gridops.Prelude.Int.{ℤ}
use gridops.Output.Authority.{AuthenticatedHost, ensure_authenticated_generation}
use gridops.Protocol.Outcomes.{AgentCommandResult, CommandOutcome, validate_against}
use gridops.Registry.Rows.{update_where, first_where}
use gridops.Registry.Tables.{
  CommandKind, CommandState, ResultDisposition, CommandRow, ResultRow, Database, audit_and_event,
}
use gridops.Registry.Placements.{apply_to_placement, placement_is_uncertain}
use gridops.Registry.Placements.Frame.{
  SameCommands, unchanged, SameCommands-trans, apply-SameCommands, keep-SameCommands,
  event-SameCommands,
}
use gridops.Registry.Results.{
  is_command, set_command, state_after, upsert_attempt, insert_result, move_placement, apply_result,
  record_new, record_command_result,
}
use gridops.Registry.Results.Steps.{record_cases, record_new_cases, result_row, seen}

pub move_placement-SameCommands :
    (late : Bool) (placement : Option ℕ) (kind : CommandKind) (outcome : CommandOutcome) (now : ℤ)
    (db : Database)
    → SameCommands db (move_placement late placement kind outcome now db)
move_placement-SameCommands late none kind outcome now db = unchanged db
move_placement-SameCommands false (some p) kind outcome now db =
    apply-SameCommands p kind outcome now db
move_placement-SameCommands true (some p) kind outcome now db =
    elim (Bool-cases (placement_is_uncertain p db)) [
      | inl waits ↦ rw waits (
          SameCommands-trans db _ _ (apply-SameCommands p kind outcome now db)
            (keep-SameCommands p now (apply_to_placement p kind outcome now db)))
      | inr moved ↦ rw moved (unchanged db)
    ]

-- What an applied result does to commands and results, whatever its placement.
pub record Applied (row : CommandRow) (outcome : CommandOutcome) (now : ℤ) (db db' : Database)
    : Type 0 where
  pub access : db'.access ≡ db.access
  pub commands : db'.commands ≡ (set_command (state_after outcome) row.id db).commands
  pub results : db'.results ≡ db.results
  pub attempts :
      (mid : Database) × (upsert_attempt row.id
          (max row.attempt_count 1)
          (state_after outcome)
          now
          (set_command (state_after outcome) row.id db)
        ≡ ok mid)
      × (db'.attempts ≡ mid.attempts)

upsert-same :
    (id attempt : ℕ) (state : CommandState) (now : ℤ) (db mid : Database)
    → upsert_attempt id attempt state now db ≡ ok mid
    → (mid.access ≡ db.access) × (mid.commands ≡ db.commands) × (mid.results ≡ db.results)
unfolding upsert_attempt
upsert-same id attempt state now db mid e = (ground arith, ground arith, ground arith)

pub apply_result-Applied :
    (late : Bool) (row : CommandRow) (outcome : CommandOutcome) (now : ℤ) (db db' : Database)
    → apply_result late row outcome now db ≡ ok db'
    → Applied row outcome now db db'
unfolding apply_result set_command
apply_result-Applied late row outcome now db db' e =
    let start = set_command (state_after outcome) row.id db in
    let (mid, entered, done) = >>=-eq-ok (upsert_attempt row.id _ _ now start) _ e in
    let same = upsert-same row.id _ _ now start mid entered in
    let last = move_placement late row.placement_id row.kind outcome now mid in
    let moved = move_placement-SameCommands late row.placement_id row.kind outcome now mid in
    let told = event-SameCommands "fleet.command.result" row.id now last in
    let end : audit_and_event "fleet.command.result" row.id now last ≡ db' = cc done in
    let whole = SameCommands-trans mid last _ moved told in
    rw (← end) (record {
      access = whole.access ∙ same.0;
      commands = whole.commands ∙ same.1;
      results = whole.results ∙ same.2;
      attempts = (mid, entered, whole.attempts);
    })

module _ {ℓ} {A : Type ℓ} where
  first_where-update :
      (test u : A → Bool) (change : A → A) (xs : List A) (r : A)
      → ((x : A) → test (change x) ≡ test x)
      → first_where test xs ≡ some r
      → first_where test (update_where u change xs) ≡ some (if u r then change r else r)
  unfolding first_where update_where
  first_where-update test u change [] r same e = cc
  first_where-update test u change (x ∷ xs) r same e = elim (Bool-cases (u x)) [
    | inl hit ↦ ground (arith, same x, first_where-update test u change xs r same)
    | inr miss ↦ ground (arith, first_where-update test u change xs r same)
  ]

  first_where-append :
      (test : A → Bool) (xs : List A) (y : A)
      → first_where test xs ≡ none
      → test y ≡ true
      → first_where test (xs ++ y ∷ []) ≡ some y
  unfolding first_where
  first_where-append test [] y e h = ground arith
  first_where-append test (x ∷ xs) y e h = ground (arith, first_where-append test xs y)

-- The command that a result answers stays the one that it answers.
still_found :
    (a : AuthenticatedHost) (r : AgentCommandResult) (next : CommandState) (db : Database)
    (row : CommandRow)
    → first_where (is_command r.identity.command_id a.host_id) db.commands ≡ some row
    → first_where (is_command r.identity.command_id a.host_id) (set_command next row.id db).commands
      ≡ some (record row { state = next })
unfolding set_command
still_found a r next db row found =
    let itself : (row.id == row.id) ≡ true = ground arith in
    rw itself at (
      first_where-update (is_command r.identity.command_id a.host_id) (λ c. c.id == row.id)
        (λ c. record c { state = next }) db.commands row (λ c. refl) found)

module _ (sha256 : List ℕ → ℕ) (hash : AgentCommandResult → ℕ) where
  -- What a new result leaves: its row, and the command with the state that it has then.
  record Left (a : AuthenticatedHost) (r : AgentCommandResult) (row : CommandRow)
      (d : ResultDisposition) (db' : Database) : Type 0 where
    next : CommandState
    found :
        first_where (is_command r.identity.command_id a.host_id) db'.commands
        ≡ some (record row { state = next })
    entered : (s : ResultRow) × (seen sha256 hash row r db' ≡ some s) × (s.disposition ≡ d)

  insert_result-seen :
      (row : CommandRow) (r : AgentCommandResult) (d : ResultDisposition) (db db' : Database)
      → seen sha256 hash row r db ≡ none
      → insert_result (result_row sha256 hash row r d) db ≡ ok db'
      → ((s : ResultRow) × (seen sha256 hash row r db' ≡ some s) × (s.disposition ≡ d))
        × (db'.commands ≡ db.commands)
        × (db'.access ≡ db.access)
  unfolding insert_result
  insert_result-seen row r d db db' fresh e =
      let new_row = result_row sha256 hash row r d in
      let grown : db'.results ≡ db.results ++ new_row ∷ [] = ground arith in
      let here : (row.id == row.id && hash r == hash r) ≡ true = ground arith in
      (
        (
          new_row,
          rw grown (
              first_where-append (λ s. s.command_id == row.id && s.result_hash == hash r) db.results
                new_row fresh here),
          refl,
        ),
        ground arith,
        ground arith,
      )

  record_new-Left :
      (a : AuthenticatedHost) (r : AgentCommandResult) (now : ℤ) (row : CommandRow)
      (db db' : Database) (d : ResultDisposition)
      → first_where (is_command r.identity.command_id a.host_id) db.commands ≡ some row
      → seen sha256 hash row r db ≡ none
      → record_new sha256 hash row r now db ≡ ok (db', d)
      → Left a r row d db'
  record_new-Left a r now row db db' d found fresh e =
      let (mid, entered, step) = record_new_cases sha256 hash row r now db db' d e in
      let (filed, same, access) = insert_result-seen row r d db mid fresh entered in
      elim step [
        | inl (settled, end, _) ↦
            rw end (record { next = row.state; found = rw same found; entered = filed })
        | inr (waits, _, moved) ↦
            let there = apply_result-Applied _ row r.outcome now mid db' moved in
            record {
              next = state_after r.outcome;
              found =
                  ap (first_where (is_command r.identity.command_id a.host_id)) there.commands
                  ∙ still_found a r (state_after r.outcome) mid row (rw same found);
              entered = rw (there.results) filed;
            }
      ]

  recognised :
      (a : AuthenticatedHost) (r : AgentCommandResult) (now : ℤ) (db : Database) (row : CommandRow)
      (s : ResultRow)
      → ensure_authenticated_generation db.access a now ≡ ok tt
      → first_where (is_command r.identity.command_id a.host_id) db.commands ≡ some row
      → validate_against sha256 r row.payload ≡ ok tt
      → seen sha256 hash row r db ≡ some s
      → record_command_result sha256 hash a r now db ≡ ok (db, s.disposition)
  unfolding record_command_result
  recognised a r now db row s authentic found matches old =
      rw authentic (rw found (rw matches (rw old refl)))

  -- A result that was taken is answered in the same way when it comes again, at any time at which
  -- its host is still authenticated: it was applied or stale as before, and nothing is written.
  pub record-again :
      (a : AuthenticatedHost) (r : AgentCommandResult) (now later : ℤ) (db db' : Database)
      (d : ResultDisposition)
      → record_command_result sha256 hash a r now db ≡ ok (db', d)
      → ensure_authenticated_generation db'.access a later ≡ ok tt
      → record_command_result sha256 hash a r later db' ≡ ok (db', d)
  record-again a r now later db db' d e authentic =
      let (row, was) = record_cases sha256 hash a r now db db' d e in
      elim was.step [
        | inl (s, old, same, shown) ↦
            rw (same, shown)
              (recognised a r later db row s (rw same at authentic) was.found was.matches old)
        | inr (fresh, done) ↦
            let left = record_new-Left a r now row db db' d was.found fresh done in
            let (s, entered, shown) = left.entered in
            rw (← shown) (
              recognised a r later db' (record row { state = left.next }) s authentic left.found
                was.matches entered)
      ]
