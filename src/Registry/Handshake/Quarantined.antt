-- ===== src/Registry/Handshake/Quarantined.antt =====
-- The conflict of two sessions in crates/gridops-core/src/fleet/registry/handshake.rs.
use gridops.Prelude.{
  Option, ◌⊎◌, ℕ, ◌≡◌, refl, Bool, true, false, not, ◌&&◌, Bool-cases, inl, inr, none, some,
  Option-cases, List, [], ◌∷◌, ok, err, >>=-eq-ok, fail_if, ◌==◌, eqb, if◌then◌else◌, arith, ◌≢◌,
}
use gridops.Prelude.Int.{ℤ, ◌<ℤ◌, ltb_ℤ}
use gridops.Domain.Host.{HostIntent-discrete, paused}
use gridops.Output.Authority.{AuthenticatedHost, HostRow, later_than, has_authority}
use gridops.Registry.Rows.{update_where, exists_where, first_where}
use gridops.Registry.Tables.{audit_and_event}
use gridops.Registry.Observation.{
  InventoryError, handshake_conflict, session_conflict, HandshakeRequest, ControlPlane, SessionRow,
  Fleet, is_host, is_live, clear_host_observation,
}
use gridops.Registry.Handshake.{
  welcome, is_compatible, same_identity, is_session_conflict, is_own_credential,
  advance_rotated_session_credential, first_response, enter_session, new_session, establish, replay,
  meet, end_session, quarantine, Committed, handshake,
}
use gridops.Registry.Handshake.Kept.{handshake-Reached, let_through}

abbrev pub is_at_work : ℕ → HostRow → Bool
is_at_work id h = is_host id h && not (eqb HostIntent-discrete h.lifecycle_state paused)

-- Why a handshake was refused after its commit.
record IsConflict (a : AuthenticatedHost) (r : HandshakeRequest) (incarnation : ℕ) (now : ℤ)
    (st st' : Fleet) (h : HostRow) (s : SessionRow) (x : InventoryError) : Type 0 where
  named : x ≡ session_conflict
  met : is_session_conflict s r h incarnation now ≡ true
  fenced : st' ≡ quarantine a.host_id s now st

fenced_hosts :
    (session id : ℕ) (t : ℤ) (hs : List HostRow)
    → let hs' =
        update_where
          (is_host id)
          (λ h. record h { lifecycle_state = paused })
          (update_where (is_host id) (λ h. record h { authority_expires_at = none }) hs) in
      (has_authority session t id hs' ≡ false) × (exists_where (is_at_work id) hs' ≡ false)
unfolding has_authority update_where exists_where HostIntent-discrete
fenced_hosts session id t [] = (refl, refl)
fenced_hosts session id t (h ∷ hs) =
    let rest = fenced_hosts session id t hs in
    elim (Bool-cases (h.id == id)) [
      | inl here ↦ (ground arith, ground arith)
      | inr there ↦ (ground arith, ground arith)
    ]

quarantine-hosts :
    (session id : ℕ) (t : ℤ) (s : SessionRow) (now : ℤ) (st : Fleet)
    → (has_authority session t id (quarantine id s now st).database.access.hosts ≡ false)
      × (exists_where (is_at_work id) (quarantine id s now st).database.access.hosts ≡ false)
unfolding quarantine clear_host_observation audit_and_event
quarantine-hosts session id t s now st = fenced_hosts session id t st.database.access.hosts

-- A session that is established, or found to be the same, is an answer.
establish_answers :
    (a : AuthenticatedHost) (r : HandshakeRequest) (epoch incarnation digest : ℕ) (now : ℤ)
    (st st' : Fleet) (x : InventoryError)
    → establish a r epoch incarnation digest now st ≢ ok (st', err x)
unfolding establish
establish_answers a r epoch incarnation digest now st st' x e =
    let s = new_session a r epoch incarnation digest now in
    let committed : Committed =
      (enter_session r s now st, ok (first_response r a.host_id epoch incarnation now)) in
    cc (let_through _ InventoryError.database committed (st', err x) e)

replay_answers :
    (a : AuthenticatedHost) (r : HandshakeRequest) (epoch incarnation digest : ℕ) (now : ℤ)
    (s : SessionRow) (st st' : Fleet) (x : InventoryError)
    → replay a r epoch incarnation digest now s st ≢ ok (st', err x)
unfolding replay
replay_answers a r epoch incarnation digest now s st st' x e =
    let (u, checked, e1) =
      >>=-eq-ok (fail_if (not (s.initial_body_digest == digest)) handshake_conflict) _ e in
    let (mid, moved, e2) =
      >>=-eq-ok
        (if is_own_credential s a then ok st else advance_rotated_session_credential a now s st) _
        e1 in
    cc e2

meet-IsConflict :
    (a : AuthenticatedHost) (r : HandshakeRequest) (h : HostRow) (incarnation digest : ℕ) (now : ℤ)
    (s : SessionRow) (st st' : Fleet) (x : InventoryError)
    → meet a r h incarnation digest now s st ≡ ok (st', err x)
    → IsConflict a r incarnation now st st' h s x
unfolding meet
meet-IsConflict a r h incarnation digest now s st st' x e =
    elim (Bool-cases (same_identity s r h.epoch incarnation)) [
      | inl same ↦
          absurd (replay_answers a r h.epoch incarnation digest now s st st' x (rw same at e))
      | inr other ↦ elim (Bool-cases (is_session_conflict s r h incarnation now)) [
        | inl conflict ↦
            let fenced = rw (other, conflict) at e in
            record { named = cc fenced; met = conflict; fenced = cc fenced }
        | inr replaced ↦ absurd (
            establish_answers a r h.epoch incarnation digest now (end_session a.host_id s now st)
              st' x (rw (other, replaced) at e))
      ]
    ]

-- A live session of the same host epoch and incarnation that another machine holds: it is from
-- another boot, and its lease or the work authority of its host runs.
pub record IsHeldElsewhere (s : SessionRow) (r : HandshakeRequest) (h : HostRow)
    (control : ControlPlane) (now : ℤ) : Type 0 where
  pub epoch : s.host_epoch ≡ h.epoch
  pub incarnation : s.control_plane_incarnation ≡ control.incarnation
  pub boot : ¬ (s.boot_id ≡ r.boot_id)
  pub holds :
      (now <ℤ s.lease_expires_at) ⊎ ((t : ℤ) × (h.authority_expires_at ≡ some t) × (now <ℤ t))

runs_later :
    (at : Option ℤ) (now : ℤ) → later_than at now ≡ true → (t : ℤ) × (at ≡ some t) × (now <ℤ t)
runs_later none now e = cc e
runs_later (some t) now e = (t, refl, ground arith)

conflict-IsHeldElsewhere :
    (s : SessionRow) (r : HandshakeRequest) (h : HostRow) (control : ControlPlane) (now : ℤ)
    → is_session_conflict s r h control.incarnation now ≡ true
    → IsHeldElsewhere s r h control now
unfolding is_session_conflict
conflict-IsHeldElsewhere s r h control now e = record {
  epoch = ground arith;
  incarnation = ground arith;
  boot = λ same. ground arith;
  holds = elim (Bool-cases (ltb_ℤ now s.lease_expires_at)) [
    | inl leased ↦ inl (ground arith)
    | inr lapsed ↦ inr (runs_later h.authority_expires_at now (ground arith))
  ];
}

welcome-conflict :
    (a : AuthenticatedHost) (r : HandshakeRequest) (h : HostRow) (control : ControlPlane)
    (digest : ℕ) (now : ℤ) (st st' : Fleet) (x : InventoryError) (session : ℕ) (t : ℤ)
    → welcome a r h control digest now st ≡ ok (st', err x)
    → (x ≡ session_conflict)
      × ((s : SessionRow) × (first_where (is_live a.host_id) st.sessions ≡ some s)
          × IsHeldElsewhere s r h control now)
      × (has_authority session t a.host_id st'.database.access.hosts ≡ false)
      × (exists_where (is_at_work a.host_id) st'.database.access.hosts ≡ false)
unfolding welcome
welcome-conflict a r h control digest now st st' x session t e =
    elim (Bool-cases (is_compatible r control)) [
      | inr unspoken ↦ let refused = rw unspoken at e in absurd (cc refused)
      | inl version ↦ elim (Option-cases (first_where (is_live a.host_id) st.sessions)) [
        | inl fresh ↦ absurd (
            establish_answers a r h.epoch control.incarnation digest now st st' x
              (rw (version, fresh) at e))
        | inr (s, live) ↦
            let c =
              meet-IsConflict a r h control.incarnation digest now s st st' x
                (rw (version, live) at e) in
            let hosts = quarantine-hosts session a.host_id t s now st in
            (
              c.named,
              (s, live, conflict-IsHeldElsewhere s r h control now c.met),
              rw (c.fenced) (hosts.0),
              rw (c.fenced) (hosts.1),
            )
      ]
    ]

-- A handshake that is refused after its commit met a live session of the host, of the host's epoch
-- and the control plane's incarnation, that is from another boot and whose lease, or whose host's work
-- authority, still runs. Afterwards the host is paused, and no session, the one that was live included,
-- has work authority on it at any time.
pub handshake-conflict :
    (handshake_digest : HandshakeRequest → ℕ) (a : AuthenticatedHost) (r : HandshakeRequest)
    (now : ℤ) (st st' : Fleet) (x : InventoryError) (session : ℕ) (t : ℤ)
    → handshake handshake_digest a r now st ≡ ok (st', err x)
    → (x ≡ session_conflict)
      × ((h : HostRow) × (control : ControlPlane) × (s : SessionRow) × (first_where
              (is_host a.host_id)
              st.database.access.hosts
            ≡ some h)
          × (st.control ≡ some control)
          × (first_where (is_live a.host_id) st.sessions ≡ some s)
          × IsHeldElsewhere s r h control now)
      × (has_authority session t a.host_id st'.database.access.hosts ≡ false)
      × (exists_where (is_at_work a.host_id) st'.database.access.hosts ≡ false)
handshake-conflict handshake_digest a r now st st' x session t e =
    let way = handshake-Reached handshake_digest a r now st (st', err x) e in
    let (named, (s, live, held), unauthorized, idle) =
      welcome-conflict a r way.h way.control _ now st st' x session t way.welcomed in
    (named, (way.h, way.control, s, way.found, way.plane, live, held), unauthorized, idle)
