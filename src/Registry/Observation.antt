-- ===== src/Registry/Observation.antt =====
-- What a handshake reads and writes, crates/gridops-core/src/fleet/registry/handshake.rs: its messages
-- (protocol/inventory.rs), the tables of observation sessions, and `clear_host_observation`.
use gridops.Prelude.{ℕ, Bool, false, ◌&&◌, Option, none, List, ◌==◌, String}
use gridops.Prelude.Int.{ℤ}
use gridops.Domain.Backend.{BackendReadiness, unknown}
use gridops.Output.Authority.{RegistryError, HostRow, is_null}
use gridops.Registry.Rows.{update_where}
use gridops.Registry.Tables.{Database, audit_and_event}

pub data InventoryError : Type 0 where
  registry : RegistryError → InventoryError
  database dependency_unavailable identity_conflict handshake_conflict credential_conflict :
      InventoryError
  session_conflict : InventoryError

pub data ObservationSessionState : Type 0 where
  observing reconciling ready conflicted : ObservationSessionState

pub data ProtocolNegotiation : Type 0 where
  supported incompatible : ProtocolNegotiation

pub record HandshakeRequest : Type 0 where
  pub request_id : ℕ
  pub agent_session_id : ℕ
  pub boot_id : ℕ
  pub protocol_min : ℕ
  pub protocol_max : ℕ
  pub agent_version : String
  pub expected_host_epoch : Option ℕ
  pub results_flushed : Bool

-- A lease is the time of its end and the interval of heartbeats.
pub record HandshakeResponse : Type 0 where
  pub request_id : ℕ
  pub host_id : ℕ
  pub host_epoch : ℕ
  pub control_plane_incarnation : ℕ
  pub agent_session_id : ℕ
  pub boot_id : ℕ
  pub negotiated_protocol : ProtocolNegotiation
  pub state : ObservationSessionState
  pub lease : Option (ℤ × ℕ)
  pub received_at : ℤ

-- `fleet_control_plane`.
pub record ControlPlane : Type 0 where
  pub incarnation : ℕ
  pub protocol_min : ℕ
  pub protocol_max : ℕ

-- `fleet_observation_sessions`.
pub record SessionRow : Type 0 where
  pub session_id : ℕ
  pub host_id : ℕ
  pub host_epoch : ℕ
  pub boot_id : ℕ
  pub control_plane_incarnation : ℕ
  pub current_credential_id : ℕ
  pub current_credential_generation : ℕ
  pub initial_body_digest : ℕ
  pub state : ObservationSessionState
  pub ended_at : Option ℤ
  pub lease_expires_at : ℤ
  pub handshake_received_at : ℤ
  pub handshake_lease_expires_at : ℤ
  pub handshake_state : ObservationSessionState

pub data IntegrityState : Type 0 where
  unverified verified quarantined : IntegrityState

-- The columns of `fleet_hosts` that describe what the agent of the host reported.
pub record ObservedHost : Type 0 where
  pub id : ℕ
  pub boot_id : Option ℕ
  pub agent_version : Option String
  pub authority_incarnation : Option ℕ
  pub inventory_complete : Bool
  pub integrity_state : IntegrityState

-- `host_backends`.
pub record BackendRow : Type 0 where
  pub host_id : ℕ
  pub readiness : BackendReadiness

pub data HelperState : Type 0 where
  helper_ready helper_unavailable helper_unknown : HelperState

-- `host_sessions`, and likewise `fleet_observed_interactive_sessions`.
pub record HelperRow : Type 0 where
  pub host_id : ℕ
  pub helper_state : HelperState

-- `host_credential_rotations`; a rotation stands in the phase `exchanged` or `acknowledged`, or not.
pub record RotationRow : Type 0 where
  pub host_id : ℕ
  pub old_credential_id : ℕ
  pub old_generation : ℕ
  pub old_host_epoch : ℕ
  pub next_generation : ℕ
  pub is_exchanged : Bool
  pub revoked_at : Option ℤ

pub record Fleet : Type 0 where
  pub database : Database
  pub observed : List ObservedHost
  pub backends : List BackendRow
  pub helpers : List HelperRow
  pub observed_helpers : List HelperRow
  pub sessions : List SessionRow
  pub rotations : List RotationRow
  pub control : Option ControlPlane

abbrev pub is_host : ℕ → HostRow → Bool
is_host id h = h.id == id

abbrev pub is_live : ℕ → SessionRow → Bool
is_live host s = s.host_id == host && is_null s.ended_at

-- `UPDATE fleet_hosts .. WHERE id=?`, in its two parts.
abbrev pub update_host : ℕ → (HostRow → HostRow) → (ObservedHost → ObservedHost) → Fleet → Fleet
update_host id change seen st = record st {
  database = record st.database {
    access = record st.database.access {
      hosts = update_where (is_host id) change st.database.access.hosts;
    };
  };
  observed = update_where (λ o. o.id == id) seen st.observed;
}

abbrev pub forget_helper : HelperRow → HelperRow
forget_helper r = record r { helper_state = helper_unknown }

unfoldable pub clear_host_observation : ℕ → Fleet → Fleet
clear_host_observation id st =
    let cleared =
      update_host id (λ h. record h { authority_expires_at = none })
        (λ o. record o { inventory_complete = false }) st in
    record cleared {
      backends =
          update_where (λ b. b.host_id == id) (λ b. record b { readiness = unknown }) st.backends;
      helpers = update_where (λ r. r.host_id == id) forget_helper st.helpers;
      observed_helpers = update_where (λ r. r.host_id == id) forget_helper st.observed_helpers;
    }

abbrev pub note_event : String → ℕ → ℤ → Fleet → Fleet
note_event action host now st = record st { database = audit_and_event action host now st.database }

abbrev pub set_session : ℕ → (SessionRow → SessionRow) → Fleet → Fleet
set_session id change st = record st {
  sessions = update_where (λ s. s.session_id == id) change st.sessions;
}
