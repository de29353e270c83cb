-- ===== src/Registry/Results/Steps.antt =====
-- The ways in which `record_command_result` of
-- crates/gridops-core/src/fleet/registry/commands.rs can succeed.
use gridops.Prelude.{
  ℕ, ◌≡◌, ap, ◌∙◌, ◌⊎◌, inl, inr, Option, none, some, Option-cases, List, ◌==◌, ok, ok_or, map_err,
  >>=-eq-ok, Bool, not, Bool-cases, true, false, ◌&&◌, if◌then◌else◌, arith, map_err-ok, ok_or-ok,
}
use gridops.Prelude.Int.{ℤ}
use gridops.Output.Authority.{
  not_found, invalid_request, AuthenticatedHost, ensure_authenticated_generation,
}
use gridops.Protocol.Outcomes.{AgentCommandResult, validate_against}
use gridops.Registry.Rows.{first_where}
use gridops.Registry.Tables.{ResultDisposition, applied, stale, CommandRow, ResultRow, Database}
use gridops.Registry.Results.{
  is_command, is_late, is_ended, insert_result, apply_result, record_new, record_command_result,
}

module _ (sha256 : List ℕ → ℕ) (hash : AgentCommandResult → ℕ) where
  abbrev pub seen : CommandRow → AgentCommandResult → Database → Option ResultRow
  seen row r db = first_where (λ s. s.command_id == row.id && s.result_hash == hash r) db.results

  -- The command that a recorded result answers, and whether the result was there before.
  pub record Recorded (a : AuthenticatedHost) (r : AgentCommandResult) (now : ℤ) (db db' : Database)
      (d : ResultDisposition) (row : CommandRow) : Type 0 where
    pub authentic : ensure_authenticated_generation db.access a now ≡ ok tt
    pub found : first_where (is_command r.identity.command_id a.host_id) db.commands ≡ some row
    pub matches : validate_against sha256 r row.payload ≡ ok tt
    pub step :
        ((s : ResultRow) × (seen row r db ≡ some s) × (db' ≡ db) × (d ≡ s.disposition))
        ⊎ ((seen row r db ≡ none) × (record_new sha256 hash row r now db ≡ ok (db', d)))

  pub record_cases :
      (a : AuthenticatedHost) (r : AgentCommandResult) (now : ℤ) (db db' : Database)
      (d : ResultDisposition)
      → record_command_result sha256 hash a r now db ≡ ok (db', d)
      → (row : CommandRow) × Recorded a r now db db' d row
  unfolding record_command_result
  record_cases a r now db db' d e =
      let (u, authentic, e1) = >>=-eq-ok (ensure_authenticated_generation db.access a now) _ e in
      let (row, found, e2) =
        >>=-eq-ok
          (ok_or (first_where (is_command r.identity.command_id a.host_id) db.commands) not_found) _
          e1 in
      let (v, matched, e3) =
        >>=-eq-ok
          (map_err (λ _. invalid_request "result does not match its command")
            (validate_against sha256 r row.payload))
          _ e2 in
      (
        row,
        record {
          authentic = authentic;
          found = ok_or-ok _ not_found found;
          matches = map_err-ok _ _ matched;
          step = elim (Option-cases (seen row r db)) [
            | inl fresh ↦ inr (fresh, rw fresh at e3)
            | inr (s, old) ↦ inl (s, old, ground arith, ground arith)
          ];
        },
      )

  abbrev pub is_settled : CommandRow → Database → Bool
  is_settled row db = not (is_late row db) && is_ended row.state

  abbrev pub result_row : CommandRow → AgentCommandResult → ResultDisposition → ResultRow
  result_row row r d = record {
    id = r.result_id;
    command_id = row.id;
    result_hash = hash r;
    disposition = d;
  }

  -- A new result is filed, and applied unless its command is settled.
  pub record_new_cases :
      (row : CommandRow) (r : AgentCommandResult) (now : ℤ) (db db' : Database)
      (d : ResultDisposition)
      → record_new sha256 hash row r now db ≡ ok (db', d)
      → (mid : Database) × (insert_result (result_row row r d) db ≡ ok mid)
        × (((is_settled row db ≡ true) × (db' ≡ mid) × (d ≡ stale))
            ⊎ ((is_settled row db ≡ false)
                × (d ≡ applied)
                × (apply_result (is_late row db) row r.outcome now mid ≡ ok db')))
  unfolding record_new
  record_new_cases row r now db db' d e =
      let why = if is_settled row db then stale else applied in
      let (mid, entered, rest) = >>=-eq-ok (insert_result (result_row row r why) db) _ e in
      elim (Bool-cases (is_settled row db)) [
        | inl settled ↦
            let same : d ≡ stale = ground arith in
            (mid, rw same (rw settled at entered), inl (settled, ground arith, same))
        | inr waits ↦
            let (last, moved, final) =
              >>=-eq-ok (apply_result (is_late row db) row r.outcome now mid) _
                (rw waits at rest) in
            let same : d ≡ applied = ground arith in
            let end : last ≡ db' = ground arith in
            (mid, rw same (rw waits at entered), inr (waits, same, moved ∙ ap ok end))
      ]
