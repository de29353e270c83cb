-- ===== src/Authorization/Laws.antt =====
-- What a proof of crates/gridops-core/src/fleet/authorization.rs is worth.
use gridops.Prelude.{ℕ, ◌≡◌, ◌≢◌, ◌↔◌, ◌⊎◌, true, false, Option, none, ok, arith}
use gridops.Prelude.Int.{ℤ, ◌<ℤ◌, ◌≤ℤ◌}
use gridops.Domain.Target.{CiTarget}
use gridops.Authorization.{
  GrantSnapshot, Capability, AuthorizationProof, contains, validate, authorize, recheck,
}

-- What the grant must say of a request.
pub record Covers (g : GrantSnapshot) (host : ℕ) (target : Option CiTarget)
    (capability : Capability) (now : ℤ) : Type 0 where
  pub live : g.revoked ≡ false
  pub in_time : now <ℤ g.expires_at_millis
  pub same_host : g.host_id ≡ host
  pub same_target : g.target ≡ target
  pub capable : contains g.capabilities capability ≡ true

pub validate_iff :
    (g : GrantSnapshot) (host : ℕ) (target : Option CiTarget) (c : Capability) (now : ℤ)
    → (validate g host target c now ≡ ok tt) ↔ Covers g host target c now
unfolding validate
validate_iff g host target c now = (λ e. ground arith, λ v. ground arith)

-- A grant mints a proof exactly for the requests that it covers, and the proof records the
-- request, the grant's principal, revision and expiry, and no session.
pub authorize_iff :
    (g : GrantSnapshot) (host : ℕ) (target : Option CiTarget) (c : Capability) (now : ℤ)
    (p : AuthorizationProof)
    → (authorize g host target c now ≡ ok p) ↔ (
        Covers g host target c now
        × (p ≡ record {
          principal = g.principal;
          host_id = host;
          target = target;
          capability = c;
          revision = g.revision;
          expires_at_millis = g.expires_at_millis;
          session = none;
        }))
unfolding authorize
authorize_iff g host target c now p = (
  λ e. ground (arith, (validate_iff g host target c now).0),
  λ v. ground (arith, (validate_iff g host target c now).1),
)

-- A proof without a session passes the recheck against a grant exactly when that grant would, at the
-- same time, mint the very same proof for the proof's host, target and capability.
pub recheck_iff_authorize :
    (g : GrantSnapshot) (p : AuthorizationProof) (now : ℤ)
    → p.session ≡ none
    → (recheck g p now ≡ ok tt) ↔ (authorize g p.host_id p.target p.capability now ≡ ok p)
unfolding recheck authorize
recheck_iff_authorize g p now s = (λ e. ground arith, λ e. ground arith)

-- A revoked or expired grant authorizes nothing and lets no proof through, whatever the proof
-- says.
pub dead_grant_refuses :
    (g : GrantSnapshot) (host : ℕ) (target : Option CiTarget) (c : Capability) (now : ℤ)
    (p : AuthorizationProof)
    → (g.revoked ≡ true) ⊎ (g.expires_at_millis ≤ℤ now)
    → (recheck g p now ≢ ok tt) × (authorize g host target c now ≢ ok p)
unfolding recheck authorize validate
dead_grant_refuses g host target c now p dead = (λ e. ground arith, λ e. ground arith)
