-- ===== src/Registry/Handshake/Recognised.antt =====
-- A handshake of crates/gridops-core/src/fleet/registry/handshake.rs that knows its session.
use gridops.Prelude.{
  ℕ, ◌≡◌, refl, ◌∙◌, ap, true, false, ◌||◌, none, some, List, [], ◌∷◌, ◌++◌, ok, >>=-eq-ok,
  fail_if-ok, fail_if, ◌==◌, arith,
}
use gridops.Prelude.Int.{ℤ}
use gridops.Output.Authority.{Registry, AuthenticatedHost, HostRow, ensure_authenticated_generation}
use gridops.Registry.Rows.{exists_where, first_where, first_where-test}
use gridops.Registry.Tables.{audit_and_event}
use gridops.Registry.Observation.{
  InventoryError, HandshakeRequest, HandshakeResponse, ControlPlane, SessionRow, Fleet, is_host,
  is_live, update_host,
}
use gridops.Registry.Handshake.{
  welcome, is_compatible, differs, same_identity, is_own_credential, handshake_response_from_row,
  first_response, new_session, enter_session, establish, replay, meet, handshake,
}
use gridops.Registry.Handshake.Kept.{settled-kept, first_where-update, first_where-last}

-- What a handshake finds when it knows the session and the digest of the request.
pub record Recognises (digest : ℕ) (a : AuthenticatedHost) (r : HandshakeRequest) (st : Fleet)
    (h : HostRow) (control : ControlPlane) (s : SessionRow) : Type 0 where
  pub host : first_where (is_host a.host_id) st.database.access.hosts ≡ some h
  pub epoch : differs r.expected_host_epoch h.epoch ≡ false
  pub plane : st.control ≡ some control
  pub version : is_compatible r control ≡ true
  pub session : first_where (is_live a.host_id) st.sessions ≡ some s
  pub identity : same_identity s r h.epoch control.incarnation ≡ true
  pub body : (s.initial_body_digest == digest) ≡ true
  pub credential : is_own_credential s a ≡ true

entered-Recognises :
    (digest : ℕ) (a : AuthenticatedHost) (r : HandshakeRequest) (now : ℤ) (st : Fleet) (h : HostRow)
    (control : ControlPlane)
    → first_where (is_host a.host_id) st.database.access.hosts ≡ some h
    → differs r.expected_host_epoch h.epoch ≡ false
    → st.control ≡ some control
    → is_compatible r control ≡ true
    → exists_where (is_live a.host_id) st.sessions ≡ false
    → let s = new_session a r h.epoch control.incarnation digest now in
      Recognises digest a r
        (enter_session r s now st)
        (record h { agent_session_id = some r.agent_session_id; authority_expires_at = none })
        control
        s
unfolding enter_session audit_and_event new_session
entered-Recognises digest a r now st h control found epochs plane version none_yet =
    let s = new_session a r h.epoch control.incarnation digest now in
    let kept = settled-kept r.results_flushed a.host_id h.epoch r.agent_session_id now (
      update_host a.host_id
        (λ h. record h { agent_session_id = some r.agent_session_id; authority_expires_at = none })
        (λ o. record o {
          boot_id = some r.boot_id;
          agent_version = some r.agent_version;
          authority_incarnation = some control.incarnation;
          inventory_complete = false;
        })
        (record st { sessions = st.sessions ++ (s ∷ []) })) in
    let here = first_where-test (is_host a.host_id) st.database.access.hosts h found in
    record {
      host =
          ap (λ (x : Registry). first_where (is_host a.host_id) x.hosts) kept.0
          ∙ (first_where-update (is_host a.host_id) (is_host a.host_id)
                (λ h. record h {
                  agent_session_id = some r.agent_session_id;
                  authority_expires_at = none;
                })
                st.database.access.hosts h (λ y. refl) found
              ∙ rw here refl);
      epoch = epochs;
      plane = kept.2 ∙ plane;
      version = version;
      session =
          ap (first_where (is_live a.host_id)) kept.1
          ∙ first_where-last (is_live a.host_id) st.sessions s none_yet (ground arith);
      identity = ground arith;
      body = ground arith;
      credential = ground arith;
    }

none_live :
    (id host : ℕ) (xs : List SessionRow)
    → exists_where (λ x. x.session_id == id || is_live host x) xs ≡ false
    → exists_where (is_live host) xs ≡ false
unfolding exists_where
none_live id host [] e = refl
none_live id host (x ∷ xs) e = ground (arith, none_live id host xs)

module _ (handshake_digest : HandshakeRequest → ℕ) where
  pub recognised :
      (a : AuthenticatedHost) (r : HandshakeRequest) (now : ℤ) (st : Fleet) (h : HostRow)
      (control : ControlPlane) (s : SessionRow)
      → ensure_authenticated_generation st.database.access a now ≡ ok tt
      → Recognises (handshake_digest r) a r st h control s
      → handshake handshake_digest a r now st
        ≡ ok (st, ok (handshake_response_from_row s r a.host_id h.epoch control.incarnation))
  unfolding handshake welcome meet replay
  recognised a r now st h control s authentic known =
      let host = known.host in
      let epoch = known.epoch in
      let plane = known.plane in
      let version = known.version in
      let session = known.session in
      let identity = known.identity in
      let body = known.body in let credential = known.credential in ground arith

  pub established :
      (a : AuthenticatedHost) (r : HandshakeRequest) (now later : ℤ) (st st' : Fleet) (h : HostRow)
      (control : ControlPlane) (resp : HandshakeResponse)
      → first_where (is_host a.host_id) st.database.access.hosts ≡ some h
      → differs r.expected_host_epoch h.epoch ≡ false
      → st.control ≡ some control
      → is_compatible r control ≡ true
      → establish a r h.epoch control.incarnation (handshake_digest r) now st ≡ ok (st', ok resp)
      → ensure_authenticated_generation st'.database.access a later ≡ ok tt
      → handshake handshake_digest a r later st' ≡ ok (st', ok resp)
  unfolding establish new_session handshake_response_from_row first_response
  established a r now later st st' h control resp found epochs plane version e authentic =
      let s = new_session a r h.epoch control.incarnation (handshake_digest r) now in
      let (u, free, e1) =
        >>=-eq-ok
          (fail_if
            (exists_where (λ x. x.session_id == r.agent_session_id || is_live a.host_id x)
              st.sessions)
            InventoryError.database)
          _ e in
      let none_yet =
        none_live r.agent_session_id a.host_id st.sessions
          (fail_if-ok _ InventoryError.database free) in
      let tables : enter_session r s now st ≡ st' = cc e1 in
      let first : first_response r a.host_id h.epoch control.incarnation now ≡ resp = cc e1 in
      let answer : handshake_response_from_row s r a.host_id h.epoch control.incarnation ≡ resp =
        first in
      let known =
        entered-Recognises (handshake_digest r) a r now st h control found epochs plane version
          none_yet in
      rw (← tables, ← answer)
        (recognised a r later (enter_session r s now st) _ control s (rw (← tables) at authentic)
          known)
