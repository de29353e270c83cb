-- ===== src/Output/Authority/Laws.antt =====
-- What an authorized write of crates/gridops-core/src/fleet/registry/output.rs shows of the rows.
use mathlib.Core.List.{Memᴰ}
use gridops.Prelude.{
  ℕ, ◌<◌, ◌≡◌, ◌≢◌, refl, true, Bool-cases, inl, inr, ◌⊎◌, ◌||◌, Option, none, some, List, [], ◌∷◌,
  ok, ◌==◌, ==_iff, ◌&&◌, arith, dec_lt,
}
use gridops.Prelude.Int.{ℤ, ◌<ℤ◌}
use gridops.Domain.Host.{revoked, retired}
use gridops.Output.Authority.{
  HostRow, Credential, PlacementRow, Registry, AuthenticatedHost, is_current, count_hosts,
  count_current, ensure_authenticated_generation, has_authority, find_runner, holds, is_null,
  later_than, joined, authorize_output,
}

-- A write that is authorized: a live credential of the host in its current epoch, the host's own
-- live session, and a placement of that host and epoch with an existing runner.
pub record Owns (r : Registry) (a : AuthenticatedHost) (session placement : ℕ) (now : ℤ)
    (runner : ℕ) : Type 0 where
  pub credential : Credential
  pub credential_listed : Memᴰ credential r.credentials
  pub credential_host : credential.host_id ≡ a.host_id
  pub credential_is : credential.id ≡ a.credential_id
  pub credential_epoch : credential.host_epoch ≡ a.epoch
  pub credential_generation : credential.generation ≡ a.generation
  pub credential_live : credential.revoked_at ≡ none
  pub credential_overlap :
      (credential.overlap_expires_at ≡ none)
      ⊎ ((t : ℤ) × (credential.overlap_expires_at ≡ some t) × (now <ℤ t))
  pub host : HostRow
  pub host_listed : Memᴰ host r.hosts
  pub host_is : host.id ≡ a.host_id
  pub host_epoch : host.epoch ≡ a.epoch
  pub host_enrolled : host.enrollment_state ≢ revoked
  pub host_kept : host.lifecycle_state ≢ retired
  pub session_host : HostRow
  pub session_listed : Memᴰ session_host r.hosts
  pub session_is : session_host.id ≡ a.host_id
  pub session_current : session_host.agent_session_id ≡ some session
  pub expires_at : ℤ
  pub authority : session_host.authority_expires_at ≡ some expires_at
  pub authority_live : now <ℤ expires_at
  pub row : PlacementRow
  pub row_listed : Memᴰ row r.placements
  pub row_is : row.id ≡ placement
  pub row_host : row.host_id ≡ a.host_id
  pub row_epoch : row.host_epoch ≡ a.epoch
  pub row_runner : row.runner_id ≡ some runner

counted :
    (r : Registry) (a : AuthenticatedHost) (now : ℤ)
    → ensure_authenticated_generation r a now ≡ ok tt
    → 0 < count_current a now r.hosts r.credentials
unfolding ensure_authenticated_generation
counted r a now e = ground arith

-- A time that is unset or still to come.
overlap :
    (o : Option ℤ) (now : ℤ)
    → (is_null o || later_than o now) ≡ true
    → (o ≡ none) ⊎ ((t : ℤ) × (o ≡ some t) × (now <ℤ t))
overlap none now e = inl refl
overlap (some t) now e = inr (t, refl, ground arith)

is_current_lem :
    (a : AuthenticatedHost) (now : ℤ) (c : Credential) (h : HostRow)
    → is_current a now c h ≡ true
    → (c.host_id ≡ a.host_id)
      × (c.generation ≡ a.generation)
      × (c.revoked_at ≡ none)
      × (h.id ≡ a.host_id)
      × (h.epoch ≡ a.epoch)
      × (h.enrollment_state ≢ revoked)
      × (h.lifecycle_state ≢ retired)
      × (c.id ≡ a.credential_id)
      × (c.host_epoch ≡ a.epoch)
      × ((c.overlap_expires_at ≡ none) ⊎ ((t : ℤ) × (c.overlap_expires_at ≡ some t) × (now <ℤ t)))
unfolding is_current
is_current_lem a now c h e = (
  ground arith,
  ground arith,
  ground arith,
  ground arith,
  ground arith,
  λ x. ground arith,
  λ x. ground arith,
  ground arith,
  ground arith,
  overlap c.overlap_expires_at now (ground arith),
)

current_host :
    (a : AuthenticatedHost) (now : ℤ) (c : Credential) (hs : List HostRow)
    → 0 < count_hosts a now c hs
    → (h : HostRow) × Memᴰ h hs × (is_current a now c h ≡ true)
unfolding count_hosts
current_host a now c [] pos = absurd (omega arith)
current_host a now c (h ∷ hs) pos = elim (Bool-cases (is_current a now c h)) [
  | inl here ↦ (h, Memᴰ.head refl, here)
  | inr other ↦
      let (g, listed, found) = current_host a now c hs (ground arith) in
      (g, Memᴰ.tail listed, found)
]

current_credential :
    (a : AuthenticatedHost) (now : ℤ) (hs : List HostRow) (cs : List Credential)
    → 0 < count_current a now hs cs
    → (c : Credential) × Memᴰ c cs × (0 < count_hosts a now c hs)
unfolding count_current
current_credential a now hs [] pos = absurd (omega arith)
current_credential a now hs (c ∷ cs) pos = elim (dec_lt 0 (count_hosts a now c hs)) [
  | yes here ↦ (c, Memᴰ.head refl, here)
  | no other ↦
      let (g, listed, found) = current_credential a now hs cs (omega arith) in
      (g, Memᴰ.tail listed, found)
]

is_later : (o : Option ℤ) (now : ℤ) → later_than o now ≡ true → (t : ℤ) × (o ≡ some t) × (now <ℤ t)
is_later none now e = ground arith
is_later (some t) now e = (t, refl, ground arith)

does_hold : (o : Option ℕ) (x : ℕ) → holds o x ≡ true → o ≡ some x
does_hold none x e = ground arith
does_hold (some y) x e = ground arith

is_joined : (o : Option ℕ) (runners : List ℕ) (r : ℕ) → joined o runners ≡ some r → o ≡ some r
is_joined none runners r e = ground arith
is_joined (some x) runners r e = ground arith

session_row :
    (session : ℕ) (now : ℤ) (id : ℕ) (hs : List HostRow)
    → has_authority session now id hs ≡ true
    → (h : HostRow) × Memᴰ h hs
      × (h.id ≡ id)
      × (h.agent_session_id ≡ some session)
      × (later_than h.authority_expires_at now ≡ true)
unfolding has_authority
session_row session now id [] e = ground arith
session_row session now id (h ∷ hs) e = elim (Bool-cases (h.id == id)) [
  | inl here ↦
      let both : (holds h.agent_session_id session ≡ true)
          × (later_than h.authority_expires_at now ≡ true) =
        ground arith in
      (
        h,
        Memᴰ.head refl,
        (==_iff h.id id).0 here,
        does_hold h.agent_session_id session both.0,
        both.1,
      )
  | inr other ↦
      let found = session_row session now id hs (ground arith) in
      (found.0, Memᴰ.tail found.1, found.2, found.3, found.4)
]

runner_row :
    (id host epoch : ℕ) (runners : List ℕ) (ps : List PlacementRow) (r : ℕ)
    → find_runner id host epoch runners ps ≡ some r
    → (p : PlacementRow) × Memᴰ p ps
      × (p.id ≡ id)
      × (p.host_id ≡ host)
      × (p.host_epoch ≡ epoch)
      × (p.runner_id ≡ some r)
unfolding find_runner
runner_row id host epoch runners [] r e = ground arith
runner_row id host epoch runners (p ∷ ps) r e =
    elim (Bool-cases (p.id == id && p.host_id == host && p.host_epoch == epoch)) [
      | inl here ↦
          let keys : (p.id ≡ id) × (p.host_id ≡ host) × (p.host_epoch ≡ epoch) = ground arith in
          let linked : joined p.runner_id runners ≡ some r = ground arith in
          (p, Memᴰ.head refl, keys.0, keys.1, keys.2, is_joined p.runner_id runners r linked)
      | inr other ↦
          let found = runner_row id host epoch runners ps r (ground arith) in
          (found.0, Memᴰ.tail found.1, found.2, found.3, found.4, found.5)
    ]

-- Output is accepted only from the host that owns the placement in its current epoch. The caller's
-- credential is listed for this host, epoch and generation, is not revoked, and its overlap, if it
-- has one, has not expired; the host is listed in that epoch, neither revoked nor retired; the
-- session is the host's own with work authority left, and the placement is this host's from this
-- epoch and has a runner, which is the one returned.
pub authorize_output-Owns :
    (r : Registry) (a : AuthenticatedHost) (session placement : ℕ) (now : ℤ) (runner : ℕ)
    → authorize_output r a session placement now ≡ ok runner
    → Owns r a session placement now runner
unfolding authorize_output
authorize_output-Owns r a session placement now runner e =
    let parts : (ensure_authenticated_generation r a now ≡ ok tt)
        × (has_authority session now a.host_id r.hosts ≡ true)
        × (find_runner placement a.host_id a.epoch r.runners r.placements ≡ some runner) =
      ground arith in
    let (c, c_listed, many) =
      current_credential a now r.hosts r.credentials (counted r a now parts.0) in
    let (h, h_listed, current) = current_host a now c r.hosts many in
    let row = is_current_lem a now c h current in
    let s = session_row session now a.host_id r.hosts parts.1 in
    let t = is_later (s.0).authority_expires_at now s.4 in
    let p = runner_row placement a.host_id a.epoch r.runners r.placements runner parts.2 in
    record {
      credential = c;
      credential_listed = c_listed;
      credential_host = row.0;
      credential_generation = row.1;
      credential_is = row.7;
      credential_epoch = row.8;
      credential_overlap = row.9;
      credential_live = row.2;
      host = h;
      host_listed = h_listed;
      host_is = row.3;
      host_epoch = row.4;
      host_enrolled = row.5;
      host_kept = row.6;
      session_host = s.0;
      session_listed = s.1;
      session_is = s.2;
      session_current = s.3;
      expires_at = t.0;
      authority = t.1;
      authority_live = t.2;
      row = p.0;
      row_listed = p.1;
      row_is = p.2;
      row_host = p.3;
      row_epoch = p.4;
      row_runner = p.5;
    }
