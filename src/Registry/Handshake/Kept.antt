-- ===== src/Registry/Handshake/Kept.antt =====
-- What the settlement of a handshake leaves alone, and queries after an update,
-- crates/gridops-core/src/fleet/registry/handshake.rs.
use gridops.Prelude.{
  ℕ, ◌≡◌, refl, ◌∙◌, Bool, true, false, Bool-cases, inl, inr, Option, none, some, List, [], ◌∷◌,
  ◌++◌, if◌then◌else◌, arith, ok, ◌>>◌, fail_if, ok_or, map_err, >>=-eq-ok, ok_or-ok, fail_if-ok,
}
use gridops.Prelude.Int.{ℤ}
use gridops.Output.Authority.{
  AuthenticatedHost, HostRow, not_found, ensure_authenticated_generation,
}
use gridops.Registry.Rows.{update_where, exists_where, first_where, select_where}
use gridops.Registry.Tables.{CommandKind, CommandRow, Database, audit_and_event}
use gridops.Registry.Placements.{erase_bootstrap, release, move_if, keep_uncertain_while_unsettled}
use gridops.Registry.Results.{set_command}
use gridops.Registry.Settlement.{
  is_creation, is_unreceived, drop_placement, drop_command, drop_all, reopen_all, touched_by,
  settle_unreceived,
}
use gridops.Registry.Observation.{
  SessionRow, Fleet, credential_conflict, note_event, registry, identity_conflict,
  dependency_unavailable, HandshakeRequest, ControlPlane, is_host,
}
use gridops.Registry.Handshake.{
  settled, is_advanced, hand_over, advance_rotated_session_credential, differs, welcome, Committed,
  handshake,
}

drop_placement-access :
    (kind : CommandKind) (p : Option ℕ) (now : ℤ) (db : Database)
    → (drop_placement kind p now db).access ≡ db.access
unfolding move_if release erase_bootstrap
drop_placement-access kind none now db = refl
drop_placement-access kind (some p) now db = elim (Bool-cases (is_creation kind)) [
  | inl made ↦ rw made refl
  | inr other ↦ rw other refl
]

drop_command-access :
    (c : CommandRow) (now : ℤ) (db : Database) → (drop_command c now db).access ≡ db.access
unfolding drop_command set_command audit_and_event
drop_command-access c now db = drop_placement-access c.kind c.placement_id now _

drop_all-access :
    (cs : List CommandRow) (now : ℤ) (db : Database) → (drop_all cs now db).access ≡ db.access
unfolding drop_all
drop_all-access [] now db = refl
drop_all-access (c ∷ cs) now db = drop_all-access cs now _ ∙ drop_command-access c now db

reopen_all-access :
    (ps : List ℕ) (now : ℤ) (db : Database) → (reopen_all ps now db).access ≡ db.access
unfolding reopen_all keep_uncertain_while_unsettled move_if
reopen_all-access [] now db = refl
reopen_all-access (p ∷ ps) now db = reopen_all-access ps now _

pub settle_unreceived-access :
    (host epoch session : ℕ) (now : ℤ) (db : Database)
    → (settle_unreceived host epoch session now db).access ≡ db.access
unfolding settle_unreceived
settle_unreceived-access host epoch session now db =
    let rows = select_where (is_unreceived host epoch session db.results) db.commands in
    reopen_all-access (touched_by rows) now _ ∙ drop_all-access rows now db

-- What the settlement of unreceived commands leaves of the tables around the commands.
pub settled-kept :
    (b : Bool) (host epoch session : ℕ) (now : ℤ) (st : Fleet)
    → ((settled b host epoch session now st).database.access ≡ st.database.access)
      × ((settled b host epoch session now st).sessions ≡ st.sessions)
      × ((settled b host epoch session now st).control ≡ st.control)
      × ((settled b host epoch session now st).backends ≡ st.backends)
settled-kept false host epoch session now st = (refl, refl, refl, refl)
settled-kept true host epoch session now st =
    (settle_unreceived-access host epoch session now st.database, refl, refl, refl)

-- What a handshake that is committed has found on its way.
pub record Reached (digest : ℕ) (a : AuthenticatedHost) (r : HandshakeRequest) (now : ℤ)
    (st : Fleet) (out : Committed) : Type 0 where
  pub h : HostRow
  pub control : ControlPlane
  pub found : first_where (is_host a.host_id) st.database.access.hosts ≡ some h
  pub epochs : differs r.expected_host_epoch h.epoch ≡ false
  pub plane : st.control ≡ some control
  pub welcomed : welcome a r h control digest now st ≡ ok out

pub handshake-Reached :
    (handshake_digest : HandshakeRequest → ℕ) (a : AuthenticatedHost) (r : HandshakeRequest)
    (now : ℤ) (st : Fleet) (out : Committed)
    → handshake handshake_digest a r now st ≡ ok out
    → Reached (handshake_digest r) a r now st out
unfolding handshake
handshake-Reached handshake_digest a r now st out e =
    let (u, current, e1) =
      >>=-eq-ok (map_err registry (ensure_authenticated_generation st.database.access a now)) _ e in
    let (h, found, e2) =
      >>=-eq-ok
        (ok_or (first_where (is_host a.host_id) st.database.access.hosts) (registry not_found)) _
        e1 in
    let (u', epochs, e3) =
      >>=-eq-ok (fail_if (differs r.expected_host_epoch h.epoch) identity_conflict) _ e2 in
    let (control, plane, e4) = >>=-eq-ok (ok_or st.control dependency_unavailable) _ e3 in
    record {
      h = h;
      control = control;
      found =
          ok_or-ok (first_where (is_host a.host_id) st.database.access.hosts) (registry not_found)
            found;
      epochs = fail_if-ok (differs r.expected_host_epoch h.epoch) identity_conflict epochs;
      plane = ok_or-ok st.control dependency_unavailable plane;
      welcomed = e4;
    }

-- What a guard lets through.
pub let_through {ℓ κ} :
    {E : Type ℓ} {A : Type κ} (b : Bool) (e : E) (x out : A)
    → (fail_if b e >> ok x) ≡ ok out
    → x ≡ out
let_through true e x out h = cc
let_through false e x out h = cc h

-- What two guards let through.
pub guarded {ℓ κ} :
    {E : Type ℓ} {A : Type κ} (b c : Bool) (e e' : E) (x out : A)
    → (fail_if b e >> (fail_if c e' >> ok x)) ≡ ok out
    → x ≡ out
guarded true c e e' x out h = cc
guarded false true e e' x out h = cc
guarded false false e e' x out h = cc h

-- The session whose credential was rotated.
abbrev pub handed_over : AuthenticatedHost → ℤ → SessionRow → Fleet → Fleet
handed_over a now s st =
    note_event "fleet.observation.session_credential_advanced" a.host_id now
      (record st { sessions = update_where (is_advanced s a) (hand_over a) st.sessions })

pub advance-moves :
    (a : AuthenticatedHost) (now : ℤ) (s : SessionRow) (st mid : Fleet)
    → advance_rotated_session_credential a now s st ≡ ok mid
    → handed_over a now s st ≡ mid
unfolding advance_rotated_session_credential
advance-moves a now s st mid e = guarded _ _ credential_conflict credential_conflict _ mid e

module _ {ℓ} {A : Type ℓ} (test : A → Bool) where
  -- A row that a query finds is found again after an update that its test does not see.
  pub first_where-update :
      (chosen : A → Bool) (change : A → A) (xs : List A) (x : A)
      → ((y : A) → test (change y) ≡ test y)
      → first_where test xs ≡ some x
      → first_where test (update_where chosen change xs) ≡ some (if chosen x then change x else x)
  unfolding first_where update_where
  first_where-update chosen change [] x same e = cc
  first_where-update chosen change (y ∷ ys) x same e = elim (Bool-cases (test y)) [
    | inl hit ↦
        let found : y ≡ x = ground arith in
        elim (Bool-cases (chosen y)) [
          | inl in_set ↦ rw in_set (rw (same y, hit) (rw (← found) (rw in_set refl)))
          | inr out ↦ rw out (rw hit (rw (← found) (rw out refl)))
        ]
    | inr miss ↦
        let rest = first_where-update chosen change ys x same (rw miss at e) in
        elim (Bool-cases (chosen y)) [
          | inl in_set ↦ rw in_set (rw (same y, miss) rest)
          | inr out ↦ rw out (rw miss rest)
        ]
  ]

  pub first_where-last :
      (xs : List A) (x : A)
      → exists_where test xs ≡ false
      → test x ≡ true
      → first_where test (xs ++ (x ∷ [])) ≡ some x
  unfolding first_where exists_where
  first_where-last [] x none_yet hit = rw hit refl
  first_where-last (y ∷ ys) x none_yet hit = ground (arith, first_where-last ys x)
