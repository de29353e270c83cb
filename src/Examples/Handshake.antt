-- ===== src/Examples/Handshake.antt =====
-- A host whose agent restarts and shakes hands, crates/gridops-core/src/fleet/registry/handshake.rs.
use gridops.Prelude.{◌≡◌, refl, ◌&&◌, not, true, false, some, none, [], ◌∷◌, ℕ, ok, err}
use gridops.Prelude.Int.{pos}
use gridops.Domain.Host.{EnrollmentState-discrete, HostIntent-discrete}
use gridops.Domain.Backend.{ready}
use gridops.Output.Authority.{
  HostRow, is_current, count_hosts, count_current, ensure_authenticated_generation, has_authority,
}
use gridops.Registry.Rows.{update_where, exists_where, first_where, select_where}
use gridops.Registry.Tables.{
  CommandState-discrete, CommandKind-discrete, PlacementColumn-discrete, AllocationColumn-discrete,
  audit_and_event,
}
use gridops.Registry.Placements.{erase_bootstrap, release, move_if, keep_uncertain_while_unsettled}
use gridops.Registry.Results.{set_command}
use gridops.Registry.Settlement.{
  is_unreceived, drop_command, drop_all, touched_by, reopen_all, settle_unreceived,
}
use gridops.Registry.Observation.{
  is_host, ControlPlane, is_live, session_conflict, HandshakeRequest, HandshakeResponse, SessionRow,
  Fleet, observing, supported, unverified, helper_ready, clear_host_observation,
}
use gridops.Registry.Handshake.{
  welcome, is_session_conflict, first_response, new_session, end_session, enter_session, establish,
  meet, quarantine, handshake,
}
use gridops.Registry.Handshake.Again.{handshake-again}
use gridops.Registry.Handshake.Fenced.{OnlyForgets, handshake-IsFenced}
use gridops.Registry.Handshake.Quarantined.{IsHeldElsewhere, is_at_work, handshake-conflict}
use gridops.Examples.Registry.{tables, agent}

-- Session 50 of boot 70 is live.
abbrev live_session : SessionRow
live_session = record {
  session_id = 50;
  host_id = 1;
  host_epoch = 4;
  boot_id = 70;
  control_plane_incarnation = 8;
  current_credential_id = 2;
  current_credential_generation = 3;
  initial_body_digest = 1000;
  state = observing;
  ended_at = none;
  lease_expires_at = pos 150000;
  handshake_received_at = pos 60000;
  handshake_lease_expires_at = pos 150000;
  handshake_state = observing;
}

abbrev before : Fleet
before = record {
  database = tables;
  observed =
      record {
        id = 1;
        boot_id = some 70;
        agent_version = some "1.4.0";
        authority_incarnation = some 8;
        inventory_complete = true;
        integrity_state = unverified;
      }
      ∷ [];
  backends = record { host_id = 1; readiness = ready } ∷ [];
  helpers = record { host_id = 1; helper_state = helper_ready } ∷ [];
  observed_helpers = [];
  sessions = live_session ∷ [];
  rotations = [];
  control = some (record { incarnation = 8; protocol_min = 1; protocol_max = 1 });
}

-- The agent restarts on the same boot.
abbrev restart : HandshakeRequest
restart = record {
  request_id = 300;
  agent_session_id = 51;
  boot_id = 70;
  protocol_min = 1;
  protocol_max = 2;
  agent_version = "1.5.0";
  expected_host_epoch = some 4;
  results_flushed = true;
}

-- Another machine uses the credential.
abbrev intruder : HandshakeRequest
intruder = record restart { agent_session_id = 52; boot_id = 71 }

abbrev digest_of_request : HandshakeRequest → ℕ
digest_of_request r = r.request_id

abbrev after : Fleet
after = enter_session restart (new_session agent restart 4 8 300 (pos 80000)) (pos 80000) (
    clear_host_observation 1
      (record before { sessions = record live_session { ended_at = some (pos 80000) } ∷ [] }))

abbrev granted : HandshakeResponse
granted = first_response restart 1 4 8 (pos 80000)

welcomed : handshake digest_of_request agent restart (pos 80000) before ≡ ok (after, ok granted)
unfolding handshake welcome meet is_session_conflict establish end_session update_where exists_where
    first_where ensure_authenticated_generation count_current count_hosts is_current
    EnrollmentState-discrete HostIntent-discrete first_response new_session clear_host_observation
welcomed = refl

still_current : ensure_authenticated_generation after.database.access agent (pos 95000) ≡ ok tt
unfolding enter_session new_session clear_host_observation settle_unreceived is_unreceived
    drop_command drop_all touched_by reopen_all keep_uncertain_while_unsettled erase_bootstrap
    release move_if set_command audit_and_event update_where exists_where first_where select_where
    ensure_authenticated_generation count_current count_hosts is_current EnrollmentState-discrete
    HostIntent-discrete CommandState-discrete CommandKind-discrete PlacementColumn-discrete
    AllocationColumn-discrete
still_current = refl

spoken : granted.negotiated_protocol ≡ supported
unfolding first_response
spoken = refl

handshake-again_example :
    handshake digest_of_request agent restart (pos 95000) after ≡ ok (after, ok granted)
handshake-again_example =
    handshake-again digest_of_request agent restart (pos 80000) (pos 95000) before after granted
      welcomed spoken still_current

abbrev fenced : Fleet
fenced = quarantine 1 live_session (pos 80000) before

refused :
    handshake digest_of_request agent intruder (pos 80000) before
    ≡ ok (fenced, err session_conflict)
unfolding handshake welcome meet is_session_conflict first_where ensure_authenticated_generation
    count_current count_hosts is_current EnrollmentState-discrete HostIntent-discrete
refused = refl

handshake-IsFenced_example :
    (has_authority 50 (pos 90000) 1 fenced.database.access.hosts
        && not (has_authority 50 (pos 90000) 1 before.database.access.hosts)
      ≡ false)
    × OnlyForgets before.backends fenced.backends
handshake-IsFenced_example =
    handshake-IsFenced digest_of_request agent intruder (pos 80000) before fenced
      (err session_conflict) 50 1 (pos 90000) refused

handshake-conflict_example :
    (session_conflict ≡ session_conflict)
    × ((h : HostRow) × (control : ControlPlane) × (s : SessionRow) × (first_where
            (is_host 1)
            before.database.access.hosts
          ≡ some h)
        × (before.control ≡ some control)
        × (first_where (is_live 1) before.sessions ≡ some s)
        × IsHeldElsewhere s intruder h control (pos 80000))
    × (has_authority 50 (pos 90000) 1 fenced.database.access.hosts ≡ false)
    × (exists_where (is_at_work 1) fenced.database.access.hosts ≡ false)
handshake-conflict_example =
    handshake-conflict digest_of_request agent intruder (pos 80000) before fenced session_conflict
      50 (pos 90000) refused
