-- ===== src/Registry/Delivery/HandedOut.antt =====
-- The command that `poll_commands` of crates/gridops-core/src/fleet/registry/commands.rs hands out.
use mathlib.Core.List.{Memᴰ}
use gridops.Prelude.{
  ℕ, ◌+◌, ◌<◌, ◌≤◌, ◌≡◌, true, false, Bool-cases, ◌⊎◌, inl, inr, List, [], ◌∷◌, ◌++◌, ◌==◌, arith,
  ok, eqb,
}
use gridops.Prelude.Int.{ℤ, ◌+ℤ◌, ◌<ℤ◌}
use gridops.Output.Authority.{AuthenticatedHost, has_authority}
use gridops.Protocol.Outcomes.{AgentCommandEnvelope}
use gridops.Registry.Rows.{first_where-test, first_where-listed, exists_where, update_where}
use gridops.Registry.Tables.{CommandState, CommandState-discrete, CommandRow, Database}
use gridops.Registry.Delivery.{
  delivery_margin_millis, is_recent_attempt, is_deliverable, mark_delivered, insert_attempt,
  cancel_undeliverable, poll_commands,
}
use gridops.Registry.Delivery.Steps.{HandsOut, poll_cases}

-- What holds of a command that is handed out. `mid` are the tables after the cancellations.
pub record IsDelivered (a : AuthenticatedHost) (session : ℕ) (now : ℤ) (mid db' : Database)
    (c : CommandRow) : Type 0 where
  pub listed : Memᴰ c mid.commands
  pub authorized : has_authority session now a.host_id mid.access.hosts ≡ true
  pub own_host : c.host_id ≡ a.host_id
  pub own_session : c.payload.identity.authority_session_id ≡ session
  pub in_time : now +ℤ delivery_margin_millis <ℤ c.deadline_at
  pub unanswered :
      (c.state ≡ CommandState.pending)
      ⊎ ((c.state ≡ CommandState.delivered)
          × (c.attempt_count < 10)
          × (exists_where (is_recent_attempt c.id now) mid.attempts ≡ false))
  pub numbered : c.attempt_count + 1 ≤ 10
  pub filed :
      db'.attempts
      ≡ mid.attempts
        ++ (record {
          command_id = c.id;
          attempt = c.attempt_count + 1;
          state = CommandState.delivered;
          recorded_at = now;
        }
            ∷ [])
  pub marked :
      db'.commands
      ≡ update_where
          (λ x. x.id == c.id)
          (λ x. record x { state = CommandState.delivered; attempt_count = c.attempt_count + 1 })
          mid.commands

entered_parts :
    (id attempt : ℕ) (now : ℤ) (mid db' : Database)
    → insert_attempt id attempt now (mark_delivered id attempt mid) ≡ ok db'
    → (attempt ≤ 10)
      × (db'.attempts
          ≡ mid.attempts
            ++ (record {
              command_id = id;
              attempt = attempt;
              state = CommandState.delivered;
              recorded_at = now;
            }
                ∷ []))
      × (db'.commands
          ≡ update_where
              (λ x. x.id == id)
              (λ x. record x { state = CommandState.delivered; attempt_count = attempt })
              mid.commands)
unfolding insert_attempt mark_delivered
entered_parts id attempt now mid db' e = (ground arith, ground arith, ground arith)

handed-IsDelivered :
    (a : AuthenticatedHost) (session : ℕ) (now : ℤ) (mid db' : Database)
    (es : List AgentCommandEnvelope) (c : CommandRow)
    → HandsOut a session now mid db' es c
    → IsDelivered a session now mid db' c
unfolding is_deliverable CommandState-discrete
handed-IsDelivered a session now mid db' es c h =
    let met = first_where-test (is_deliverable a.host_id session now mid) mid.commands c h.next in
    let (few, filed, marked) = entered_parts c.id (c.attempt_count + 1) now mid db' h.entered in
    record {
      listed = first_where-listed (is_deliverable a.host_id session now mid) mid.commands c h.next;
      authorized = h.authorized;
      own_host = ground arith;
      own_session = ground arith;
      in_time = ground arith;
      unanswered = elim (Bool-cases (eqb CommandState-discrete c.state CommandState.pending)) [
        | inl fresh ↦ inl (ground arith)
        | inr old ↦ inr (ground arith, ground arith, ground arith)
      ];
      numbered = few;
      filed = filed;
      marked = marked;
    }

-- A poll that succeeds hands out nothing or one command. It is a listed one of the polling host, sealed
-- to the polling session, which holds work authority; more than the delivery margin is left before
-- its deadline; it was never handed out, or fewer than ten times and not within the last minute. It
-- is then marked as delivered, and the attempt is filed under the next number, at most 10.
pub poll-IsDelivered :
    (a : AuthenticatedHost) (session : ℕ) (now : ℤ) (read db db' : Database)
    (es : List AgentCommandEnvelope)
    → poll_commands a session now read db ≡ ok (db', es)
    → (es ≡ [])
      ⊎ ((c : CommandRow) × (es ≡ c.payload ∷ [])
          × IsDelivered a session now (cancel_undeliverable a.host_id now db) db' c)
poll-IsDelivered a session now read db db' es e =
    let mid = cancel_undeliverable a.host_id now db in
    elim (poll_cases a session now read db db' es e) [
      | inl idle ↦ inl (idle.1)
      | inr (inl none_due) ↦ inl (none_due.1)
      | inr (inr (c, h)) ↦ inr (c, h.handed, handed-IsDelivered a session now mid db' es c h)
    ]
