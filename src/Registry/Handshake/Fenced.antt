-- ===== src/Registry/Handshake/Fenced.antt =====
-- The work authority and the readiness that a handshake of
-- crates/gridops-core/src/fleet/registry/handshake.rs leaves.
use gridops.Prelude.{
  ℕ, ◌≡◌, refl, ap, Bool, true, false, not, ◌&&◌, Bool-cases, inl, inr, ◌⊎◌, none, some,
  Option-cases, List, [], ◌∷◌, Result, ok, >>=-eq-ok, fail_if, ◌==◌, arith,
}
use gridops.Prelude.Int.{ℤ}
use gridops.Domain.Backend.{unknown}
use gridops.Domain.Host.{paused}
use gridops.Output.Authority.{AuthenticatedHost, HostRow, holds, later_than, has_authority}
use gridops.Registry.Rows.{update_where, first_where}
use gridops.Registry.Tables.{audit_and_event}
use gridops.Registry.Observation.{
  InventoryError, handshake_conflict, HandshakeRequest, HandshakeResponse, ControlPlane, SessionRow,
  BackendRow, Fleet, is_host, is_live, clear_host_observation, set_session,
}
use gridops.Registry.Handshake.{
  welcome, is_compatible, same_identity, is_own_credential, is_session_conflict,
  advance_rotated_session_credential, first_response, new_session, enter_session, establish, replay,
  meet, end_session, quarantine, Committed, handshake,
}
use gridops.Registry.Handshake.Kept.{handshake-Reached, settled-kept, let_through, advance-moves}

-- Row by row, a backend is as it was or of unknown readiness.
abbrev pub OnlyForgets : List BackendRow → List BackendRow → Type 0
OnlyForgets [] [] = Unit
OnlyForgets [] (c ∷ cs) = ⊥
OnlyForgets (b ∷ bs) [] = ⊥
OnlyForgets (b ∷ bs) (c ∷ cs) =
    ((c ≡ b) ⊎ (c ≡ record b { readiness = unknown })) × OnlyForgets bs cs

OnlyForgets-refl : (bs : List BackendRow) → OnlyForgets bs bs
OnlyForgets-refl [] = tt
OnlyForgets-refl (b ∷ bs) = (inl refl, OnlyForgets-refl bs)

OnlyForgets-update :
    (id : ℕ) (bs : List BackendRow)
    → OnlyForgets bs
        (update_where (λ b. b.host_id == id) (λ b. record b { readiness = unknown }) bs)
unfolding update_where
OnlyForgets-update id [] = tt
OnlyForgets-update id (b ∷ bs) = elim (Bool-cases (b.host_id == id)) [
  | inl hit ↦ rw hit (inr refl, OnlyForgets-update id bs)
  | inr miss ↦ rw miss (inl refl, OnlyForgets-update id bs)
]

abbrev has_row : ℕ → ℤ → HostRow → Bool
has_row session t h = holds h.agent_session_id session && later_than h.authority_expires_at t

-- An update that raises the authority of no row raises none in the table.
has_authority-update :
    (session : ℕ) (t : ℤ) (host id : ℕ) (change : HostRow → HostRow) (hs : List HostRow)
    → ((h : HostRow) → (change h).id ≡ h.id)
    → ((h : HostRow) → has_row session t (change h) ≡ true → has_row session t h ≡ true)
    → has_authority session t host (update_where (is_host id) change hs) ≡ true
    → has_authority session t host hs ≡ true
unfolding has_authority update_where
has_authority-update session t host id change [] same lower e = cc
has_authority-update session t host id change (h ∷ hs) same lower e =
    let rest = has_authority-update session t host id change hs same lower in
    ground (arith, same h, lower h, rest)

-- What a handshake may do to its tables.
record IsFenced (session host : ℕ) (t : ℤ) (st st' : Fleet) : Type 0 where
  authority :
      has_authority session t host st'.database.access.hosts ≡ true
      → has_authority session t host st.database.access.hosts ≡ true
  backends : OnlyForgets st.backends st'.backends

IsFenced-same : (session host : ℕ) (t : ℤ) (st : Fleet) → IsFenced session host t st st
IsFenced-same session host t st = record {
  authority = λ e. e;
  backends = OnlyForgets-refl st.backends;
}

module _ (session host : ℕ) (t : ℤ) where
  clear-IsFenced : (id : ℕ) (st : Fleet) → IsFenced session host t st (clear_host_observation id st)
  unfolding clear_host_observation
  clear-IsFenced id st = record {
    authority =
        has_authority-update session t host id (λ h. record h { authority_expires_at = none })
          st.database.access.hosts (λ h. refl) (λ h e. ground arith);
    backends = OnlyForgets-update id st.backends;
  }

  quarantine-IsFenced :
      (id : ℕ) (s : SessionRow) (now : ℤ) (st : Fleet)
      → IsFenced session host t st (quarantine id s now st)
  unfolding quarantine audit_and_event clear_host_observation
  quarantine-IsFenced id s now st = record {
    authority = λ e.
        has_authority-update session t host id (λ h. record h { authority_expires_at = none })
          st.database.access.hosts (λ h. refl) (λ h e. ground arith)
          (has_authority-update session t host id (λ h. record h { lifecycle_state = paused })
            (update_where (is_host id) (λ h. record h { authority_expires_at = none })
              st.database.access.hosts)
            (λ h. refl) (λ h e. e) e);
    backends = OnlyForgets-update id st.backends;
  }

  enter-authority :
      (r : HandshakeRequest) (s : SessionRow) (now : ℤ) (st : Fleet)
      → has_authority session t host (enter_session r s now st).database.access.hosts ≡ true
      → has_authority session t host st.database.access.hosts ≡ true
  unfolding enter_session audit_and_event
  enter-authority r s now st e =
      has_authority-update session t host s.host_id
        (λ h. record h { agent_session_id = some s.session_id; authority_expires_at = none })
        st.database.access.hosts (λ h. refl) (λ h e. ground arith)
        (rw ((settled-kept r.results_flushed s.host_id s.host_epoch s.session_id now _).0) at e)

  enter-backends :
      (r : HandshakeRequest) (s : SessionRow) (now : ℤ) (st : Fleet)
      → (enter_session r s now st).backends ≡ st.backends
  unfolding enter_session
  enter-backends r s now st =
      (settled-kept r.results_flushed s.host_id s.host_epoch s.session_id now _).3

  establish-backends :
      (a : AuthenticatedHost) (r : HandshakeRequest) (epoch incarnation digest : ℕ) (now : ℤ)
      (st st' : Fleet) (answer : Result InventoryError HandshakeResponse)
      → establish a r epoch incarnation digest now st ≡ ok (st', answer)
      → (has_authority session t host st'.database.access.hosts ≡ true
          → has_authority session t host st.database.access.hosts ≡ true)
        × (st'.backends ≡ st.backends)
  unfolding establish
  establish-backends a r epoch incarnation digest now st st' answer e =
      let s = new_session a r epoch incarnation digest now in
      let committed : Committed =
        (enter_session r s now st, ok (first_response r a.host_id epoch incarnation now)) in
      let tables : enter_session r s now st ≡ st' =
        ap (λ (c : Committed). c.0)
          (let_through _ InventoryError.database committed (st', answer) e) in
      rw (← tables) (enter-authority r s now st, enter-backends r s now st)

  replay-IsFenced :
      (a : AuthenticatedHost) (r : HandshakeRequest) (epoch incarnation digest : ℕ) (now : ℤ)
      (s : SessionRow) (st st' : Fleet) (answer : Result InventoryError HandshakeResponse)
      → replay a r epoch incarnation digest now s st ≡ ok (st', answer)
      → IsFenced session host t st st'
  unfolding replay audit_and_event
  replay-IsFenced a r epoch incarnation digest now s st st' answer e =
      let (u, checked, e1) =
        >>=-eq-ok (fail_if (not (s.initial_body_digest == digest)) handshake_conflict) _ e in
      elim (Bool-cases (is_own_credential s a)) [
        | inl own ↦
            let e2 = rw own at e1 in
            let tables : st ≡ st' = cc e2 in rw (← tables) (IsFenced-same session host t st)
        | inr other ↦
            let (mid, moved, e2) =
              >>=-eq-ok (advance_rotated_session_credential a now s st) _ (rw other at e1) in
            let tables : mid ≡ st' = cc e2 in
            rw (← tables, ← advance-moves a now s st mid moved)
              (record { authority = λ e. e; backends = OnlyForgets-refl st.backends })
      ]

  meet-IsFenced :
      (a : AuthenticatedHost) (r : HandshakeRequest) (h : HostRow) (incarnation digest : ℕ)
      (now : ℤ) (s : SessionRow) (st st' : Fleet) (answer : Result InventoryError HandshakeResponse)
      → meet a r h incarnation digest now s st ≡ ok (st', answer)
      → IsFenced session host t st st'
  unfolding meet end_session
  meet-IsFenced a r h incarnation digest now s st st' answer e =
      elim (Bool-cases (same_identity s r h.epoch incarnation)) [
        | inl same ↦
            replay-IsFenced a r h.epoch incarnation digest now s st st' answer (rw same at e)
        | inr other ↦ elim (Bool-cases (is_session_conflict s r h incarnation now)) [
          | inl conflict ↦
              let fenced = rw (other, conflict) at e in
              let tables : quarantine a.host_id s now st ≡ st' = cc fenced in
              rw (← tables) (quarantine-IsFenced a.host_id s now st)
          | inr replaced ↦
              let ended = set_session s.session_id (λ x. record x { ended_at = some now }) st in
              let first = clear-IsFenced a.host_id ended in
              let then_new =
                establish-backends a r h.epoch incarnation digest now
                  (end_session a.host_id s now st) st' answer (rw (other, replaced) at e) in
              record {
                authority = λ e. first.authority (then_new.0 e);
                backends = rw (then_new.1) (first.backends);
              }
        ]
      ]

  welcome-IsFenced :
      (a : AuthenticatedHost) (r : HandshakeRequest) (now : ℤ) (st st' : Fleet) (h : HostRow)
      (control : ControlPlane) (digest : ℕ) (answer : Result InventoryError HandshakeResponse)
      → welcome a r h control digest now st ≡ ok (st', answer)
      → IsFenced session host t st st'
  unfolding welcome
  welcome-IsFenced a r now st st' h control digest answer e =
      elim (Bool-cases (is_compatible r control)) [
        | inr unspoken ↦
            let refused = rw unspoken at e in
            let tables : st ≡ st' = cc refused in rw (← tables) (IsFenced-same session host t st)
        | inl version ↦ elim (Option-cases (first_where (is_live a.host_id) st.sessions)) [
          | inl fresh ↦
              let entered =
                establish-backends a r h.epoch control.incarnation digest now st st' answer
                  (rw (version, fresh) at e) in
              record {
                authority = entered.0;
                backends = rw (entered.1) (OnlyForgets-refl st.backends);
              }
          | inr (s, live) ↦
              meet-IsFenced a r h control.incarnation digest now s st st' answer
                (rw (version, live) at e)
        ]
      ]

-- However a handshake ends, no session has work authority on a host afterwards that it did not have
-- before, and every backend is as it was or of unknown readiness.
pub handshake-IsFenced :
    (handshake_digest : HandshakeRequest → ℕ) (a : AuthenticatedHost) (r : HandshakeRequest)
    (now : ℤ) (st st' : Fleet) (answer : Result InventoryError HandshakeResponse) (session host : ℕ)
    (t : ℤ)
    → handshake handshake_digest a r now st ≡ ok (st', answer)
    → (has_authority session t host st'.database.access.hosts
          && not (has_authority session t host st.database.access.hosts)
        ≡ false)
      × OnlyForgets st.backends st'.backends
handshake-IsFenced handshake_digest a r now st st' answer session host t e =
    let way = handshake-Reached handshake_digest a r now st (st', answer) e in
    let fenced =
      welcome-IsFenced session host t a r now st st' way.h way.control _ answer way.welcomed in
    (
      elim (Bool-cases (has_authority session t host st'.database.access.hosts)) [
        | inl has ↦ rw (has, fenced.authority has) refl
        | inr lacks ↦ rw lacks refl
      ],
      fenced.backends,
    )
