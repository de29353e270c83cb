-- ===== src/Registry/Delivery/Steps.antt =====
-- The ways in which `poll_commands` of crates/gridops-core/src/fleet/registry/commands.rs can succeed.
use gridops.Prelude.{
  ℕ, ◌+◌, ◌≡◌, refl, ◌⊎◌, inl, inr, Option, none, some, List, [], ◌∷◌, ok, >>=-eq-ok, true,
  Bool-cases, arith,
}
use gridops.Prelude.Int.{ℤ}
use gridops.Output.Authority.{AuthenticatedHost, ensure_authenticated_generation, has_authority}
use gridops.Protocol.Outcomes.{AgentCommandEnvelope}
use gridops.Registry.Rows.{first_where, exists_where}
use gridops.Registry.Tables.{CommandRow, Database}
use gridops.Registry.Delivery.{
  is_open, is_deliverable, mark_delivered, insert_attempt, deliver, deliver_next, poll_commands,
  cancel_undeliverable,
}

-- A command that a poll hands out; `mid` are the tables after the cancellations.
pub record HandsOut (a : AuthenticatedHost) (session : ℕ) (now : ℤ) (mid db' : Database)
    (es : List AgentCommandEnvelope) (c : CommandRow) : Type 0 where
  pub authorized : has_authority session now a.host_id mid.access.hosts ≡ true
  pub next : first_where (is_deliverable a.host_id session now mid) mid.commands ≡ some c
  pub entered :
      insert_attempt c.id (c.attempt_count + 1) now (mark_delivered c.id (c.attempt_count + 1) mid)
      ≡ ok db'
  pub handed : es ≡ c.payload ∷ []

deliver_cases :
    (o : Option CommandRow) (now : ℤ) (mid db' : Database) (es : List AgentCommandEnvelope)
    → deliver o now mid ≡ ok (db', es)
    → ((db' ≡ mid) × (es ≡ []))
      ⊎ ((c : CommandRow) × (o ≡ some c)
          × (insert_attempt c.id
                (c.attempt_count + 1)
                now
                (mark_delivered c.id (c.attempt_count + 1) mid)
              ≡ ok db')
          × (es ≡ c.payload ∷ []))
unfolding deliver
deliver_cases none now mid db' es e = inl (ground arith, ground arith)
deliver_cases (some c) now mid db' es e =
    let (last, entered, final) = >>=-eq-ok (insert_attempt c.id _ now _) _ e in
    inr (c, refl, rw entered (ground arith), ground arith)

pub poll_cases :
    (a : AuthenticatedHost) (session : ℕ) (now : ℤ) (read db db' : Database)
    (es : List AgentCommandEnvelope)
    → poll_commands a session now read db ≡ ok (db', es)
    → ((db' ≡ db) × (es ≡ []))
      ⊎ ((db' ≡ cancel_undeliverable a.host_id now db) × (es ≡ []))
      ⊎ ((c : CommandRow) × HandsOut a session now (cancel_undeliverable a.host_id now db) db' es c)
unfolding poll_commands deliver_next
poll_cases a session now read db db' es e =
    let (u, authentic, e1) = >>=-eq-ok (ensure_authenticated_generation read.access a now) _ e in
    elim (Bool-cases (exists_where (is_open a.host_id) read.commands)) [
      | inr idle ↦ inl (ground arith, ground arith)
      | inl busy ↦
          let (v, again, e2) =
            >>=-eq-ok (ensure_authenticated_generation db.access a now) _ (rw busy at e1) in
          let mid = cancel_undeliverable a.host_id now db in
          elim (Bool-cases (has_authority session now a.host_id mid.access.hosts)) [
            | inr without ↦ inr (inl (ground arith, ground arith))
            | inl authorized ↦ elim (deliver_cases _ now mid db' es (rw authorized at e2)) [
              | inl nothing ↦ inr (inl nothing)
              | inr (c, next, entered, handed) ↦ inr (
                  inr (
                    c,
                    record {
                      authorized = authorized;
                      next = next;
                      entered = entered;
                      handed = handed;
                    },
                  ))
            ]
          ]
    ]
