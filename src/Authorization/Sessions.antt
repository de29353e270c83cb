-- ===== src/Authorization/Sessions.antt =====
-- Interactive and sandbox proofs of crates/gridops-core/src/fleet/authorization.rs.
use gridops.Prelude.{ℕ, ◌≡◌, ◌↔◌, true, none, some, ok, arith, sym, ◌∙◌}
use gridops.Prelude.Int.{ℤ}
use gridops.Domain.Kinds.{docker, linux}
use gridops.Domain.Target.{CiTarget}
use gridops.Authorization.{
  GrantSnapshot, SessionGrantSnapshot, InteractiveSessionProof, OwnedFixPlacement,
  ExecuteSandboxProof, interactive_session, execute_sandbox, is_ready, authorize,
  authorize_interactive, authorize_sandbox, recheck,
}
use gridops.Authorization.Laws.{Covers, validate_iff}

-- Exactly what an interactive proof takes.
pub record Interactive (g : GrantSnapshot) (host : ℕ) (target : CiTarget) (s : SessionGrantSnapshot)
    (now : ℤ) : Type 0 where
  pub ready : is_ready s ≡ true
  pub current : g.session ≡ some s
  pub same_host : s.host_id ≡ host
  pub same_target : s.target ≡ target
  pub covered : Covers g host (some target) interactive_session now

abbrev pub interactive_proof :
    GrantSnapshot → ℕ → CiTarget → SessionGrantSnapshot → InteractiveSessionProof
interactive_proof g host target s = record {
  proof = record {
    principal = g.principal;
    host_id = host;
    target = some target;
    capability = interactive_session;
    revision = g.revision;
    expires_at_millis = g.expires_at_millis;
    session = some s;
  };
  session_id = s.session_id;
}

-- An interactive proof is minted exactly when the session is ready, is the grant's own session, is
-- on that host and target, and the grant covers the request; the proof then carries the session.
pub authorize_interactive_iff :
    (g : GrantSnapshot) (host : ℕ) (target : CiTarget) (s : SessionGrantSnapshot) (now : ℤ)
    (q : InteractiveSessionProof)
    → (authorize_interactive g host target s now ≡ ok q)
      ↔ (Interactive g host target s now × (q ≡ interactive_proof g host target s))
unfolding authorize_interactive authorize
authorize_interactive_iff g host target s now q = (
  λ e. ground (arith, (validate_iff g host (some target) interactive_session now).0),
  λ v. ground (arith, (validate_iff g host (some target) interactive_session now).1),
)

-- The recheck of such a proof, spelled out.
recheck_interactive :
    (g h : GrantSnapshot) (host : ℕ) (target : CiTarget) (s : SessionGrantSnapshot) (now : ℤ)
    → s.host_id ≡ host
    → s.target ≡ target
    → (recheck h (interactive_proof g host target s).proof now ≡ ok tt) ↔ (
        Interactive h host target s now
        × (interactive_proof g host target s ≡ interactive_proof h host target s))
unfolding recheck
recheck_interactive g h host target s now hh ht = (
  λ e. ground (arith, (validate_iff h host (some target) interactive_session now).0),
  λ v. ground (arith, (validate_iff h host (some target) interactive_session now).1),
)

-- An interactive proof passes the recheck of a grant exactly when that grant would mint it again
-- at that moment for the same session.
pub recheck_interactive_iff :
    (g h : GrantSnapshot) (host : ℕ) (target : CiTarget) (s : SessionGrantSnapshot) (minted now : ℤ)
    (q : InteractiveSessionProof)
    → authorize_interactive g host target s minted ≡ ok q
    → (recheck h q.proof now ≡ ok tt) ↔ (authorize_interactive h host target s now ≡ ok q)
recheck_interactive_iff g h host target s minted now q m =
    let (v, e) = (authorize_interactive_iff g host target s minted q).0 m in
    let spelled = recheck_interactive g h host target s now v.same_host v.same_target in
    let again = authorize_interactive_iff h host target s now q in
    (
      λ r. again.1 (let w = spelled.0 (rw e at r) in (w.0, e ∙ w.1)),
      λ r. let w = again.0 r in rw e (spelled.1 (w.0, sym e ∙ w.1)),
    )

-- A sandbox proof is minted exactly for a Linux Docker placement on the grant's own host and
-- target that the grant covers.
pub authorize_sandbox_iff :
    (g : GrantSnapshot) (p : OwnedFixPlacement) (now : ℤ) (q : ExecuteSandboxProof)
    → (authorize_sandbox g p now ≡ ok q) ↔ (
        (p.runtime ≡ docker)
        × (p.execution_os ≡ linux)
        × Covers g p.host_id (some p.target) execute_sandbox now
        × (q.placement ≡ p)
        × (q.proof.session ≡ none)
        × (q.proof.capability ≡ execute_sandbox)
        × (q.proof.host_id ≡ g.host_id)
        × (q.proof.target ≡ some p.target)
        × (q.proof.principal ≡ g.principal)
        × (q.proof.revision ≡ g.revision)
        × (q.proof.expires_at_millis ≡ g.expires_at_millis))
unfolding authorize_sandbox authorize
authorize_sandbox_iff g p now q = (
  λ e. ground (arith, (validate_iff g p.host_id (some p.target) execute_sandbox now).0),
  λ v. ground (arith, (validate_iff g p.host_id (some p.target) execute_sandbox now).1),
)
