-- ===== src/Registry/Handshake.antt =====
-- `handshake` of crates/gridops-core/src/fleet/registry/handshake.rs. The outer result is the
-- transaction, which fails or is committed; the inner one is the answer after a commit. The clock and
-- the end of a lease lie in the range of wire timestamps.
pub mod Kept
pub mod Recognised
pub mod Again
pub mod Fenced
pub mod Quarantined
use gridops.Prelude.{
  ℕ, Bool, true, false, not, ◌&&◌, ◌||◌, Option, none, some, List, [], ◌∷◌, ◌++◌, Result, ok, err,
  ◌>>=◌, ◌>>◌, fail_if, ok_or, map_err, leb, length, ◌==◌, if◌then◌else◌,
}
use gridops.Prelude.Int.{ℤ, pos, ◌+ℤ◌, ltb_ℤ}
use gridops.Domain.Host.{paused}
use gridops.Output.Authority.{
  not_found, AuthenticatedHost, HostRow, is_null, later_than, ensure_authenticated_generation,
}
use gridops.Registry.Rows.{update_where, exists_where, first_where, select_where}
use gridops.Registry.Settlement.{settle_unreceived}
use gridops.Registry.Observation.{
  InventoryError, registry, dependency_unavailable, identity_conflict, handshake_conflict,
  credential_conflict, session_conflict, conflicted, observing, supported, incompatible,
  HandshakeRequest, HandshakeResponse, ControlPlane, SessionRow, quarantined, RotationRow, Fleet,
  is_host, is_live, update_host, clear_host_observation, note_event, set_session,
}

abbrev pub observation_lease_millis : ℤ
observation_lease_millis = pos 90000

abbrev pub heartbeat_interval_millis : ℕ
heartbeat_interval_millis = 15000

-- Both sides speak version 1.
abbrev pub is_compatible : HandshakeRequest → ControlPlane → Bool
is_compatible r c =
    (leb r.protocol_min 1 && leb 1 r.protocol_max) && (leb c.protocol_min 1 && leb 1 c.protocol_max)

abbrev pub differs : Option ℕ → ℕ → Bool
differs none epoch = false
differs (some expected) epoch = not (expected == epoch)

abbrev pub same_lineage : SessionRow → ℕ → ℕ → Bool
same_lineage s epoch incarnation =
    s.host_epoch == epoch && s.control_plane_incarnation == incarnation

abbrev pub same_identity : SessionRow → HandshakeRequest → ℕ → ℕ → Bool
same_identity s r epoch incarnation =
    (s.session_id == r.agent_session_id && s.boot_id == r.boot_id)
    && same_lineage s epoch incarnation

-- A live session from another boot: the credential is in use on two machines at once.
unfoldable pub is_session_conflict : SessionRow → HandshakeRequest → HostRow → ℕ → ℤ → Bool
is_session_conflict s r h incarnation now =
    same_lineage s h.epoch incarnation
    && (not (s.boot_id == r.boot_id)
        && (ltb_ℤ now s.lease_expires_at || later_than h.authority_expires_at now))

abbrev pub is_rotation : SessionRow → AuthenticatedHost → RotationRow → Bool
is_rotation s a x =
    (x.host_id == a.host_id
      && x.old_credential_id == s.current_credential_id
      && x.old_generation == s.current_credential_generation)
    && (x.old_host_epoch == a.epoch && x.next_generation == a.generation)
    && (x.is_exchanged && is_null x.revoked_at)

-- The row that `advance_rotated_session_credential` updates.
abbrev pub is_advanced : SessionRow → AuthenticatedHost → SessionRow → Bool
is_advanced s a x =
    (x.host_id == a.host_id && x.session_id == s.session_id)
    && (x.current_credential_id == s.current_credential_id
        && x.current_credential_generation == s.current_credential_generation)
    && is_null x.ended_at

abbrev pub hand_over : AuthenticatedHost → SessionRow → SessionRow
hand_over a x = record x {
  current_credential_id = a.credential_id;
  current_credential_generation = a.generation;
}

unfoldable pub advance_rotated_session_credential :
    AuthenticatedHost → ℤ → SessionRow → Fleet → Result InventoryError Fleet
advance_rotated_session_credential a now s st = do
  fail_if
      (not (exists_where (is_rotation s a) st.rotations)
        || a.credential_id == s.current_credential_id
        || leb a.generation s.current_credential_generation)
      credential_conflict
  fail_if (not (length (select_where (is_advanced s a) st.sessions) == 1)) credential_conflict
  ok (
      note_event "fleet.observation.session_credential_advanced" a.host_id now
        (record st { sessions = update_where (is_advanced s a) (hand_over a) st.sessions }))

unfoldable pub handshake_response_from_row :
    SessionRow → HandshakeRequest → ℕ → ℕ → ℕ → HandshakeResponse
handshake_response_from_row s r host epoch incarnation = record {
  request_id = r.request_id;
  host_id = host;
  host_epoch = epoch;
  control_plane_incarnation = incarnation;
  agent_session_id = r.agent_session_id;
  boot_id = r.boot_id;
  negotiated_protocol = supported;
  state = s.handshake_state;
  lease = some (s.handshake_lease_expires_at, heartbeat_interval_millis);
  received_at = s.handshake_received_at;
}

-- The answer to an agent that does not speak version 1.
abbrev pub refusal : HandshakeRequest → ℕ → ℕ → ℕ → ℤ → HandshakeResponse
refusal r host epoch incarnation now = record {
  request_id = r.request_id;
  host_id = host;
  host_epoch = epoch;
  control_plane_incarnation = incarnation;
  agent_session_id = r.agent_session_id;
  boot_id = r.boot_id;
  negotiated_protocol = incompatible;
  state = conflicted;
  lease = none;
  received_at = now;
}

abbrev pub Committed : Type 0
Committed = Fleet × Result InventoryError HandshakeResponse

-- The branch of a session conflict, which is committed before it is returned.
unfoldable pub quarantine : ℕ → SessionRow → ℤ → Fleet → Fleet
quarantine host s now st = note_event "fleet.observation.session_conflict" host now (
    update_host host (λ h. record h { lifecycle_state = paused })
      (λ o. record o { integrity_state = quarantined })
      (clear_host_observation host
        (set_session s.session_id (λ x. record x { state = conflicted; ended_at = some now }) st)))

-- The session that an earlier one gives way to.
unfoldable pub end_session : ℕ → SessionRow → ℤ → Fleet → Fleet
end_session host s now st =
    clear_host_observation host
      (set_session s.session_id (λ x. record x { ended_at = some now }) st)

unfoldable pub new_session : AuthenticatedHost → HandshakeRequest → ℕ → ℕ → ℕ → ℤ → SessionRow
new_session a r epoch incarnation digest now = record {
  session_id = r.agent_session_id;
  host_id = a.host_id;
  host_epoch = epoch;
  boot_id = r.boot_id;
  control_plane_incarnation = incarnation;
  current_credential_id = a.credential_id;
  current_credential_generation = a.generation;
  initial_body_digest = digest;
  state = observing;
  ended_at = none;
  lease_expires_at = now +ℤ observation_lease_millis;
  handshake_received_at = now;
  handshake_lease_expires_at = now +ℤ observation_lease_millis;
  handshake_state = observing;
}

-- `if request.results_flushed`.
abbrev pub settled : Bool → ℕ → ℕ → ℕ → ℤ → Fleet → Fleet
settled false host epoch session now st = st
settled true host epoch session now st = record st {
  database = settle_unreceived host epoch session now st.database;
}

-- The new session of the host and what it resets.
unfoldable pub enter_session : HandshakeRequest → SessionRow → ℤ → Fleet → Fleet
enter_session r s now st = note_event "fleet.observation.session_established" s.host_id now (
    settled r.results_flushed s.host_id s.host_epoch s.session_id now (
      update_host s.host_id
        (λ h. record h { agent_session_id = some s.session_id; authority_expires_at = none })
        (λ o. record o {
          boot_id = some r.boot_id;
          agent_version = some r.agent_version;
          authority_incarnation = some s.control_plane_incarnation;
          inventory_complete = false;
        })
        (record st { sessions = st.sessions ++ (s ∷ []) })))

-- The answer that `handshake` gives for a new session.
unfoldable pub first_response : HandshakeRequest → ℕ → ℕ → ℕ → ℤ → HandshakeResponse
first_response r host epoch incarnation now = record {
  request_id = r.request_id;
  host_id = host;
  host_epoch = epoch;
  control_plane_incarnation = incarnation;
  agent_session_id = r.agent_session_id;
  boot_id = r.boot_id;
  negotiated_protocol = supported;
  state = observing;
  lease = some (now +ℤ observation_lease_millis, heartbeat_interval_millis);
  received_at = now;
}

-- The insertion, under the key of the table and one live session for each host, and what follows.
unfoldable pub establish :
    AuthenticatedHost → HandshakeRequest → ℕ → ℕ → ℕ → ℤ → Fleet → Result InventoryError Committed
establish a r epoch incarnation digest now st = do
  let s = new_session a r epoch incarnation digest now
  fail_if (exists_where (λ x. x.session_id == s.session_id || is_live a.host_id x) st.sessions)
      InventoryError.database
  ok (enter_session r s now st, ok (first_response r a.host_id epoch incarnation now))

abbrev pub is_own_credential : SessionRow → AuthenticatedHost → Bool
is_own_credential s a =
    s.current_credential_id == a.credential_id && s.current_credential_generation == a.generation

-- The branch of a session that is the same one.
unfoldable pub replay :
    AuthenticatedHost
    → HandshakeRequest
    → ℕ
    → ℕ
    → ℕ
    → ℤ
    → SessionRow
    → Fleet
    → Result InventoryError Committed
replay a r epoch incarnation digest now s st = do
  fail_if (not (s.initial_body_digest == digest)) handshake_conflict
  st' ← if is_own_credential s a then ok st else advance_rotated_session_credential a now s st
  ok (st', ok (handshake_response_from_row s r a.host_id epoch incarnation))

-- What becomes of a session that the host already has.
unfoldable pub meet :
    AuthenticatedHost
    → HandshakeRequest
    → HostRow
    → ℕ
    → ℕ
    → ℤ
    → SessionRow
    → Fleet
    → Result InventoryError Committed
meet a r h incarnation digest now s st =
    if same_identity s r h.epoch incarnation
    then replay a r h.epoch incarnation digest now s st
    else (if is_session_conflict s r h incarnation now
        then ok (quarantine a.host_id s now st, err session_conflict)
        else establish a r h.epoch incarnation digest now (end_session a.host_id s now st))

-- The negotiation of the protocol, and what becomes of a session that the host already has.
unfoldable pub welcome :
    AuthenticatedHost
    → HandshakeRequest
    → HostRow
    → ControlPlane
    → ℕ
    → ℤ
    → Fleet
    → Result InventoryError Committed
welcome a r h control digest now st =
    if not (is_compatible r control)
    then ok (st, ok (refusal r a.host_id h.epoch control.incarnation now))
    else elim (first_where (is_live a.host_id) st.sessions) [
      | none ↦ establish a r h.epoch control.incarnation digest now st
      | some s ↦ meet a r h control.incarnation digest now s st
    ]

-- `handshake_digest`: serde's JSON under SHA-256.
module _ (handshake_digest : HandshakeRequest → ℕ) where
  unfoldable pub handshake :
      AuthenticatedHost → HandshakeRequest → ℤ → Fleet → Result InventoryError Committed
  handshake a r now st = do
    map_err registry (ensure_authenticated_generation st.database.access a now)
    h ← ok_or (first_where (is_host a.host_id) st.database.access.hosts) (registry not_found)
    fail_if (differs r.expected_host_epoch h.epoch) identity_conflict
    control ← ok_or st.control dependency_unavailable
    welcome a r h control (handshake_digest r) now st
