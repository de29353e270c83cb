-- ===== src/Protocol/Renewal.antt =====
-- `PendingRenewal` of crates/gridops-core/src/fleet/protocol/renewal.rs. An `Instant` is a number of
-- nanoseconds of the monotonic clock, up to the clock's last.
use gridops.Prelude.{
  ℕ, ◌+◌, ◌*◌, ◌≤◌, ◌<◌, ◌≡◌, ◌↔◌, not, ◌||◌, Result, ok, ◌>>=◌, ◌>>◌, fail_if, ok_or, ltb, leb,
  ◌==◌, arith, checked_add_within,
}

-- `super::agent::ExpectedAgentSession`, with the fields that are compared.
pub record ExpectedAgentSession : Type 0 where
  pub host_id : ℕ
  pub host_epoch : ℕ
  pub control_plane_incarnation : ℕ
  pub authority_session_id : ℕ

pub record AuthorityRenewal : Type 0 where
  pub request_id : ℕ
  pub host_id : ℕ
  pub host_epoch : ℕ
  pub control_plane_incarnation : ℕ
  pub authority_session_id : ℕ
  pub authority_ttl_ms : ℕ

pub record PendingRenewal : Type 0 where
  pub request_id : ℕ
  pub session : ExpectedAgentSession
  pub started : ℕ
  pub request_deadline : ℕ

pub data RenewalError : Type 0 where
  mismatch expired : RenewalError

-- `Duration::from_millis`.
abbrev pub from_millis : ℕ → ℕ
from_millis ms = 1000000 * ms

module _ (last_instant : ℕ) where
  unfoldable pub new : ℕ → ExpectedAgentSession → ℕ → ℕ → Result RenewalError PendingRenewal
  new request_id session started timeout_ms = do
    request_deadline ←
        ok_or (checked_add_within last_instant started (from_millis timeout_ms)) expired
    ok (record {
      request_id = request_id;
      session = session;
      started = started;
      request_deadline = request_deadline;
    })

  unfoldable pub accept : PendingRenewal → AuthorityRenewal → ℕ → Result RenewalError ℕ
  accept p reply received = do
    fail_if
        (not (p.request_id == reply.request_id)
          || not (p.session.host_id == reply.host_id)
          || not (p.session.host_epoch == reply.host_epoch)
          || not (p.session.control_plane_incarnation == reply.control_plane_incarnation)
          || not (p.session.authority_session_id == reply.authority_session_id))
        mismatch
    deadline ←
        ok_or (checked_add_within last_instant p.started (from_millis reply.authority_ttl_ms))
          expired
    fail_if (ltb received p.started || leb p.request_deadline received || leb deadline received)
        expired
    ok deadline

-- The reply answers this request of this session.
pub record Answers (p : PendingRenewal) (reply : AuthorityRenewal) : Type 0 where
  pub request : p.request_id ≡ reply.request_id
  pub host : p.session.host_id ≡ reply.host_id
  pub epoch : p.session.host_epoch ≡ reply.host_epoch
  pub incarnation : p.session.control_plane_incarnation ≡ reply.control_plane_incarnation
  pub session : p.session.authority_session_id ≡ reply.authority_session_id

-- A reply to a request just made renews authority exactly when it answers that request and session
-- and comes in before the request times out and before the authority that it grants would end. The
-- new deadline is counted from the sending of the request, however late the reply comes.
pub accept_iff :
    (last_instant request_id : ℕ) (session : ExpectedAgentSession) (started timeout_ms : ℕ)
    (p : PendingRenewal) (reply : AuthorityRenewal) (received deadline : ℕ)
    → new last_instant request_id session started timeout_ms ≡ ok p
    → (accept last_instant p reply received ≡ ok deadline) ↔ (
        Answers p reply
        × (deadline ≡ started + from_millis reply.authority_ttl_ms)
        × (deadline ≤ last_instant)
        × (started ≤ received)
        × (received < started + from_millis timeout_ms)
        × (received < deadline))
unfolding new accept
accept_iff last_instant request_id session started timeout_ms p reply received deadline made =
    (λ e. ground arith, λ v. ground arith)
