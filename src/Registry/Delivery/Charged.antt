-- ===== src/Registry/Delivery/Charged.antt =====
-- What a poll of crates/gridops-core/src/fleet/registry/commands.rs does to charged capacity.
use mathlib.Core.List.{Memᴰ}
use gridops.Prelude.{
  ◌≢◌, ◌⊎◌, ==_iff, ℕ, ◌≡◌, refl, ◌∙◌, ap, Bool, true, false, not, ◌&&◌, ◌||◌, Bool-cases, inl, inr,
  Option, none, some, Option-cases, List, [], ◌∷◌, ◌==◌, arith, ok,
}
use gridops.Prelude.Int.{ℤ, ◌≤ℤ◌, ◌+ℤ◌}
use gridops.Output.Authority.{AuthenticatedHost, HostRow, holds}
use gridops.Protocol.Outcomes.{AgentCommandEnvelope}
use gridops.Registry.Rows.{
  first_where, first_where-listed, first_where-test, exists_where-none, exists_where, update_where,
  select_where,
}
use gridops.Registry.Tables.{
  CommandKind, CommandKind-discrete, CommandState, CommandState-discrete, CommandRow, AllocationRow,
  Database,
}
use gridops.Registry.Placements.{
  is_kind, erase_bootstrap, release, release_row, move_if, is_released,
}
use gridops.Registry.Results.{set_command}
use gridops.Registry.Delivery.{
  delivery_margin_millis, is_due, in_command_state, is_undeliverable, give_up, give_up_placement,
  cancel_command, cancel_all, cancel_undeliverable, insert_attempt, mark_delivered, poll_commands,
}
use gridops.Registry.Delivery.Steps.{poll_cases}

-- The allocations of a placement.
abbrev pub charges : ℕ → Database → List AllocationRow
charges p db = select_where (λ a. a.placement_id == p) db.allocations

-- A command of the placement that is given up and whose runner cannot exist: a preparation, or a
-- start that never left the server.
unfoldable pub frees : ℕ → CommandRow → Bool
frees p c =
    holds c.placement_id p
    && (is_kind c.kind CommandKind.prepare_environment
        || is_kind c.kind CommandKind.start_runner
          && not (in_command_state CommandState.delivered c))

-- A release of another placement.
release_rows :
    (p q : ℕ) (now : ℤ) (xs : List AllocationRow)
    → (q == p) ≡ false
    → select_where
        (λ a. a.placement_id == p)
        (update_where (λ a. a.placement_id == q && not (is_released a)) (release_row now) xs)
      ≡ select_where (λ a. a.placement_id == p) xs
unfolding select_where update_where
release_rows p q now [] other = refl
release_rows p q now (x ∷ xs) other = ground (arith, release_rows p q now xs other)

undone_charges :
    (p q : ℕ) (now : ℤ) (db : Database)
    → (q == p) ≡ false
    → charges p (release q now (erase_bootstrap q now db)) ≡ charges p db
unfolding release erase_bootstrap
undone_charges p q now db other = release_rows p q now db.allocations other

-- Giving up a command frees nothing of the placement unless the command says that nothing exists.
give_up-charges :
    (p : ℕ) (delivered : Bool) (kind : CommandKind) (q : Option ℕ) (now : ℤ) (db : Database)
    → (holds q p
        && (is_kind kind CommandKind.prepare_environment
            || is_kind kind CommandKind.start_runner && not delivered))
      ≡ false
    → charges p (give_up_placement delivered kind q now db) ≡ charges p db
unfolding give_up move_if CommandKind-discrete
give_up-charges p delivered kind none now db spared = refl
give_up-charges p true CommandKind.prepare_environment (some q) now db spared =
    undone_charges p q now db (ground arith)
give_up-charges p true CommandKind.inspect (some q) now db spared = refl
give_up-charges p true kind (some q) now db spared = refl
give_up-charges p false CommandKind.prepare_environment (some q) now db spared =
    undone_charges p q now db (ground arith)
give_up-charges p false CommandKind.start_runner (some q) now db spared =
    undone_charges p q now db (ground arith)
give_up-charges p false kind (some q) now db spared = refl

-- The commands that a query leaves out do not count.
cancel_all-charges :
    (p : ℕ) (test : CommandRow → Bool) (cs : List CommandRow) (now : ℤ) (db : Database)
    → exists_where (λ c. test c && frees p c) cs ≡ false
    → charges p (cancel_all (select_where test cs) now db) ≡ charges p db
unfolding cancel_all cancel_command set_command select_where exists_where frees
cancel_all-charges p test [] now db spared = refl
cancel_all-charges p test (c ∷ cs) now db spared = elim (Bool-cases (test c)) [
  | inl hit ↦ rw hit (
      cancel_all-charges p test cs now (cancel_command c now db) (ground arith)
      ∙ give_up-charges p (in_command_state CommandState.delivered c) c.kind c.placement_id now
          (set_command _ c.id db) (ground arith))
  | inr miss ↦ rw miss (cancel_all-charges p test cs now db (ground arith))
]

-- A command of the placement and host whose giving up frees capacity, with the row of the host: a
-- preparation that was handed out and whose deadline has passed; or a preparation or start that was
-- never handed out and cannot be any more, since its deadline is too near, its session is not the
-- host's or its epoch is not.
pub data Frees (p host : ℕ) (now : ℤ) (h : HostRow) (c : CommandRow) : Type 0 where
  unanswered :
      c.host_id ≡ host
      → c.placement_id ≡ some p
      → c.kind ≡ CommandKind.prepare_environment
      → c.state ≡ CommandState.delivered
      → c.deadline_at ≤ℤ now
      → Frees p host now h c
  undelivered :
      c.host_id ≡ host
      → c.placement_id ≡ some p
      → (c.kind ≡ CommandKind.prepare_environment) ⊎ (c.kind ≡ CommandKind.start_runner)
      → c.state ≡ CommandState.pending
      → (c.deadline_at ≤ℤ now +ℤ delivery_margin_millis)
        ⊎ ((h.agent_session_id ≢ some c.payload.identity.authority_session_id)
            ⊎ ¬ (c.host_epoch ≡ h.epoch))
      → Frees p host now h c

does_not_hold : (o : Option ℕ) (x : ℕ) → holds o x ≡ false → o ≢ some x
does_not_hold none x e = λ same. cc same
does_not_hold (some y) x e = λ same. ground arith

does_hold : (o : Option ℕ) (x : ℕ) → holds o x ≡ true → o ≡ some x
does_hold none x e = ground arith
does_hold (some y) x e = ground arith

-- The tests of the query and of the branches, as facts.
test-Frees :
    (p host : ℕ) (now : ℤ) (h : HostRow) (c : CommandRow)
    → is_undeliverable host now h c && frees p c ≡ true
    → Frees p host now h c
unfolding is_undeliverable frees CommandState-discrete CommandKind-discrete
test-Frees p host now h c e =
    let own : c.host_id ≡ host = ground arith in
    let of_placement = does_hold c.placement_id p (ground arith) in
    elim (Bool-cases (in_command_state CommandState.delivered c)) [
      | inl handed ↦ Frees.unanswered own of_placement (ground arith) (ground arith) (ground arith)
      | inr kept ↦
          let kind : (c.kind ≡ CommandKind.prepare_environment)
              ⊎ (c.kind ≡ CommandKind.start_runner) =
            elim (Bool-cases (is_kind c.kind CommandKind.prepare_environment)) [
              | inl prepares ↦ inl (ground arith)
              | inr other ↦ inr (ground arith)
            ] in
          let waits : c.state ≡ CommandState.pending = ground arith in
          Frees.undelivered own of_placement kind waits
            (elim (Bool-cases (is_due (now +ℤ delivery_margin_millis) c)) [
              | inl late ↦ inl (ground arith)
              | inr early ↦
                  inr
                    (elim (Bool-cases
                      (holds h.agent_session_id c.payload.identity.authority_session_id)) [
                        | inl same ↦ inr (λ x. ground arith)
                        | inr other ↦ inl (does_not_hold _ _ other)
                      ])
            ])
    ]

cancel_undeliverable-charges :
    (p host : ℕ) (now : ℤ) (db : Database)
    → ((h : HostRow) (c : CommandRow)
        → Memᴰ h db.access.hosts
        → h.id ≡ host
        → Memᴰ c db.commands
        → ¬ Frees p host now h c)
    → charges p (cancel_undeliverable host now db) ≡ charges p db
unfolding cancel_undeliverable
cancel_undeliverable-charges p host now db spared =
    elim (Option-cases (first_where (λ h. h.id == host) db.access.hosts)) [
      | inl lost ↦ rw (lost, cancel_undeliverable) refl
      | inr (h, found) ↦
          let row = first_where-listed (λ h. h.id == host) db.access.hosts h found in
          let its =
            (==_iff h.id host).0 (first_where-test (λ h. h.id == host) db.access.hosts h found) in
          rw (found, cancel_undeliverable)
            (cancel_all-charges p (is_undeliverable host now h) db.commands now db (
              exists_where-none (λ c. is_undeliverable host now h c && frees p c) db.commands
                (λ c listed e. spared h c row its listed (test-Frees p host now h c e))))
    ]

entered-charges :
    (p id attempt : ℕ) (now : ℤ) (mid db' : Database)
    → insert_attempt id attempt now (mark_delivered id attempt mid) ≡ ok db'
    → charges p db' ≡ charges p mid
unfolding insert_attempt mark_delivered
entered-charges p id attempt now mid db' e = ground arith

-- A poll leaves the charged capacity of a placement as it is, if no command of the placement is a
-- preparation that was handed out and not answered by its deadline, or a preparation or start that
-- was never handed out and cannot be any more. So a start that was handed out frees nothing, and
-- neither does a command in a state other than pending and delivered.
pub poll-charges :
    (a : AuthenticatedHost) (session p : ℕ) (now : ℤ) (read db db' : Database)
    (es : List AgentCommandEnvelope)
    → ((h : HostRow) (c : CommandRow)
        → Memᴰ h db.access.hosts
        → h.id ≡ a.host_id
        → Memᴰ c db.commands
        → ¬ Frees p a.host_id now h c)
    → poll_commands a session now read db ≡ ok (db', es)
    → charges p db' ≡ charges p db
poll-charges a session p now read db db' es spared e =
    let mid = cancel_undeliverable a.host_id now db in
    let first = cancel_undeliverable-charges p a.host_id now db spared in
    elim (poll_cases a session now read db db' es e) [
      | inl idle ↦ ap (charges p) (idle.0)
      | inr (inl none_due) ↦ ap (charges p) (none_due.0) ∙ first
      | inr (inr (c, h)) ↦ entered-charges p c.id _ now mid db' h.entered ∙ first
    ]
