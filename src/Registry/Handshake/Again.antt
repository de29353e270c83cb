-- ===== src/Registry/Handshake/Again.antt =====
-- A handshake of crates/gridops-core/src/fleet/registry/handshake.rs that is sent again.
use gridops.Prelude.{
  ℕ, ◌≡◌, refl, ◌∙◌, true, false, not, Bool-cases, inl, inr, none, some, Option-cases, ok,
  >>=-eq-ok, fail_if, ◌==◌, arith,
}
use gridops.Prelude.Int.{ℤ}
use gridops.Output.Authority.{AuthenticatedHost, HostRow, ensure_authenticated_generation}
use gridops.Registry.Rows.{first_where, first_where-test}
use gridops.Registry.Tables.{audit_and_event}
use gridops.Registry.Observation.{
  handshake_conflict, supported, HandshakeRequest, HandshakeResponse, ControlPlane, SessionRow,
  Fleet, is_host, is_live, clear_host_observation,
}
use gridops.Registry.Handshake.{
  welcome, is_compatible, differs, same_identity, is_own_credential, is_session_conflict,
  is_advanced, hand_over, advance_rotated_session_credential, handshake_response_from_row, replay,
  meet, end_session, handshake,
}
use gridops.Registry.Handshake.Kept.{
  handshake-Reached, handed_over, advance-moves, first_where-update,
}
use gridops.Registry.Handshake.Recognised.{recognised, established}

is_advanced_self :
    (s : SessionRow) (a : AuthenticatedHost) → is_live a.host_id s ≡ true → is_advanced s a s ≡ true
is_advanced_self s a live = ground arith

module _ (handshake_digest : HandshakeRequest → ℕ) where
  replayed :
      (a : AuthenticatedHost) (r : HandshakeRequest) (now later : ℤ) (st st' : Fleet) (h : HostRow)
      (control : ControlPlane) (s : SessionRow) (resp : HandshakeResponse)
      → first_where (is_host a.host_id) st.database.access.hosts ≡ some h
      → differs r.expected_host_epoch h.epoch ≡ false
      → st.control ≡ some control
      → is_compatible r control ≡ true
      → first_where (is_live a.host_id) st.sessions ≡ some s
      → same_identity s r h.epoch control.incarnation ≡ true
      → replay a r h.epoch control.incarnation (handshake_digest r) now s st ≡ ok (st', ok resp)
      → ensure_authenticated_generation st'.database.access a later ≡ ok tt
      → handshake handshake_digest a r later st' ≡ ok (st', ok resp)
  unfolding replay advance_rotated_session_credential audit_and_event handshake_response_from_row
  replayed a r now later st st' h control s resp found epochs plane version live identity e
        authentic =
      let (u, checked, e1) =
        >>=-eq-ok (fail_if (not (s.initial_body_digest == handshake_digest r)) handshake_conflict) _
          e in
      let body : (s.initial_body_digest == handshake_digest r) ≡ true = ground arith in
      elim (Bool-cases (is_own_credential s a)) [
        | inl own ↦
            let e2 = rw own at e1 in
            let tables : st ≡ st' = cc e2 in
            let answer : handshake_response_from_row s r a.host_id h.epoch control.incarnation
                ≡ resp =
              cc e2 in
            rw (← tables, ← answer)
              (recognised handshake_digest a r later st h control s (rw (← tables) at authentic)
                (record {
                  host = found;
                  epoch = epochs;
                  plane = plane;
                  version = version;
                  session = live;
                  identity = identity;
                  body = body;
                  credential = own;
                }))
        | inr other ↦
            let (mid, moved, e2) =
              >>=-eq-ok (advance_rotated_session_credential a now s st) _ (rw other at e1) in
            let there = advance-moves a now s st mid moved in
            let tables : mid ≡ st' = cc e2 in
            let answer : handshake_response_from_row s r a.host_id h.epoch control.incarnation
                ≡ resp =
              cc e2 in
            let shown = first_where-test (is_live a.host_id) st.sessions s live in
            let last : handed_over a now s st ≡ st' = there ∙ tables in
            rw (← last, ← answer)
              (recognised handshake_digest a r later (handed_over a now s st) h control
                (hand_over a s) (rw (← last) at authentic)
                (record {
                  host = found;
                  epoch = epochs;
                  plane = plane;
                  version = version;
                  session =
                      first_where-update (is_live a.host_id) (is_advanced s a) (hand_over a)
                        st.sessions s (λ y. refl) live
                      ∙ rw (is_advanced_self s a shown) refl;
                  identity = identity;
                  body = body;
                  credential = ground arith;
                }))
      ]

  met :
      (a : AuthenticatedHost) (r : HandshakeRequest) (now later : ℤ) (st st' : Fleet) (h : HostRow)
      (control : ControlPlane) (s : SessionRow) (resp : HandshakeResponse)
      → first_where (is_host a.host_id) st.database.access.hosts ≡ some h
      → differs r.expected_host_epoch h.epoch ≡ false
      → st.control ≡ some control
      → is_compatible r control ≡ true
      → first_where (is_live a.host_id) st.sessions ≡ some s
      → meet a r h control.incarnation (handshake_digest r) now s st ≡ ok (st', ok resp)
      → ensure_authenticated_generation st'.database.access a later ≡ ok tt
      → handshake handshake_digest a r later st' ≡ ok (st', ok resp)
  unfolding meet end_session clear_host_observation
  met a r now later st st' h control s resp found epochs plane version live e authentic =
      elim (Bool-cases (same_identity s r h.epoch control.incarnation)) [
        | inl same ↦
            replayed a r now later st st' h control s resp found epochs plane version live same
              (rw same at e) authentic
        | inr other ↦ elim (Bool-cases (is_session_conflict s r h control.incarnation now)) [
          | inl conflict ↦ let fenced = rw (other, conflict) at e in absurd (cc fenced)
          | inr replaced ↦
              let here = first_where-test (is_host a.host_id) st.database.access.hosts h found in
              established handshake_digest a r now later (end_session a.host_id s now st) st'
                (record h { authority_expires_at = none }) control resp
                (first_where-update (is_host a.host_id) (is_host a.host_id)
                    (λ h. record h { authority_expires_at = none }) st.database.access.hosts h
                    (λ y. refl) found
                  ∙ rw here refl)
                epochs plane version (rw (other, replaced) at e) authentic
        ]
      ]

  welcomed_again :
      (a : AuthenticatedHost) (r : HandshakeRequest) (now later : ℤ) (st st' : Fleet) (h : HostRow)
      (control : ControlPlane) (resp : HandshakeResponse)
      → first_where (is_host a.host_id) st.database.access.hosts ≡ some h
      → differs r.expected_host_epoch h.epoch ≡ false
      → st.control ≡ some control
      → resp.negotiated_protocol ≡ supported
      → welcome a r h control (handshake_digest r) now st ≡ ok (st', ok resp)
      → ensure_authenticated_generation st'.database.access a later ≡ ok tt
      → handshake handshake_digest a r later st' ≡ ok (st', ok resp)
  unfolding welcome
  welcomed_again a r now later st st' h control resp found epochs plane spoken e authentic =
      elim (Bool-cases (is_compatible r control)) [
        | inr unspoken ↦ let refused = rw unspoken at e in absurd (cc (refused, spoken))
        | inl version ↦ elim (Option-cases (first_where (is_live a.host_id) st.sessions)) [
          | inl fresh ↦
              established handshake_digest a r now later st st' h control resp found epochs plane
                version (rw (version, fresh) at e) authentic
          | inr (s, live) ↦
              met a r now later st st' h control s resp found epochs plane version live
                (rw (version, live) at e) authentic
        ]
      ]

  -- A handshake that was answered in the protocol that both sides speak is answered in the same way
  -- when it comes again, and writes nothing, at any time at which its host is still authenticated:
  -- the lease is the one first granted, not one that starts anew.
  pub handshake-again :
      (a : AuthenticatedHost) (r : HandshakeRequest) (now later : ℤ) (st st' : Fleet)
      (resp : HandshakeResponse)
      → handshake handshake_digest a r now st ≡ ok (st', ok resp)
      → resp.negotiated_protocol ≡ supported
      → ensure_authenticated_generation st'.database.access a later ≡ ok tt
      → handshake handshake_digest a r later st' ≡ ok (st', ok resp)
  handshake-again a r now later st st' resp e spoken authentic =
      let way = handshake-Reached handshake_digest a r now st (st', ok resp) e in
      welcomed_again a r now later st st' way.h way.control resp way.found way.epochs way.plane
        spoken way.welcomed authentic
