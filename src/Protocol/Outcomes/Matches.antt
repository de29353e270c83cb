-- ===== src/Protocol/Outcomes/Matches.antt =====
-- What `validate_against` of crates/gridops-core/src/fleet/protocol/outcomes.rs accepts.
use gridops.Prelude.{
  ℕ, ◌≤◌, ◌≡◌, refl, ap, ◌↔◌, true, Option, none, some, List, [], ok, eqb_iff, length, arith,
  String_discrete,
}
use gridops.HostAgent.Journal.{LocalResourceIdentity, LocalResourceIdentity-discrete}
use gridops.Protocol.Chunks.{StreamReference, log, artifact, TransferChunk}
use gridops.Protocol.Outcomes.{
  CommandScope, host_scope, placement_scope, CommandScope-discrete, SandboxFileAction, read_file,
  write_file, SandboxFileAction-discrete, SandboxArtifactAction, publish, fetch,
  SandboxArtifactAction-discrete, AgentOperation, SandboxFileResult, read_result, written,
  SandboxArtifactResult, published, fetched, SuccessEvidence, CommandOutcome, CommandIdentity,
  AgentCommandEnvelope, AgentCommandResult, scope_generation_matches, is_resource, is_artifact,
  chunk_matches, file_result_matches, artifact_result_matches, evidence_matches, outcome_matches,
  same_command, validate_against,
}

is_resource_iff :
    (o : Option LocalResourceIdentity) (x : LocalResourceIdentity)
    → (is_resource o x ≡ true) ↔ (o ≡ some x)
is_resource_iff none x = (λ h. cc, λ h. cc h)
is_resource_iff (some y) x =
    let same = eqb_iff LocalResourceIdentity-discrete y x in
    (λ h. ap some (same.0 h), λ h. same.1 (cc h))

is_artifact_iff : (s : StreamReference) (id : ℕ) → (is_artifact s id ≡ true) ↔ (s ≡ artifact id)
is_artifact_iff (log i) id = (λ h. cc, λ h. cc h)
is_artifact_iff (artifact i) id = ground arith

same_command_iff : (a b : CommandIdentity) → (same_command a b ≡ true) ↔ (a ≡ b)
unfolding same_command
same_command_iff a b =
    let scoped = eqb_iff CommandScope-discrete a.scope b.scope in
    (λ h. ground (arith, scoped.0 (ground arith)), λ h. ground (arith, scoped.1 (ground arith)))

-- The generation that a result of a scope has to name.
abbrev pub generation_of : CommandScope → Option ℕ
generation_of host_scope = none
generation_of (placement_scope p b g) = some g

scope_generation_iff :
    (scope : CommandScope) (g : Option ℕ)
    → (scope_generation_matches scope g ≡ true) ↔ (g ≡ generation_of scope)
unfolding scope_generation_matches
scope_generation_iff host_scope none = (λ h. refl, λ h. refl)
scope_generation_iff host_scope (some g) = (λ h. cc, λ h. cc h)
scope_generation_iff (placement_scope p b x) none = (λ h. cc, λ h. cc h)
scope_generation_iff (placement_scope p b x) (some g) = ground arith

module _ (sha256 : List ℕ → ℕ) where
  -- The chunk that an action asked for, of the placement that the command is about.
  pub record IsChunk (chunk : TransferChunk) (offset most size digest : ℕ) (scope : CommandScope)
      : Type 0 where
    pub from : chunk.offset ≡ offset
    pub sized : size ≡ length chunk.bytes
    pub few : size ≤ most
    pub hashed : digest ≡ sha256 chunk.bytes
    pub owned :
        scope
        ≡ placement_scope chunk.owner.placement_id chunk.owner.backend_id chunk.owner.generation

  abbrev pub FileProves : SandboxFileAction → SandboxFileResult → CommandScope → Type 0
  FileProves (read_file path offset most) (read_result none size digest) scope =
      (size ≡ 0) × (digest ≡ sha256 [])
  FileProves (read_file path offset most) (read_result (some chunk) size digest) scope =
      IsChunk chunk offset most size digest scope
  FileProves (write_file path id expected digest) (written r) scope =
      (r.artifact_id ≡ id) × (r.size_bytes ≡ expected) × (r.digest ≡ digest)
  FileProves _ _ scope = ⊥

  abbrev pub ArtifactProves : SandboxArtifactAction → SandboxArtifactResult → CommandScope → Type 0
  ArtifactProves (publish path id) (published r) scope = r.artifact_id ≡ id
  ArtifactProves (fetch id offset most) (fetched chunk size digest) scope =
      (chunk.stream ≡ artifact id) × IsChunk chunk offset most size digest scope
  ArtifactProves _ _ scope = ⊥

  -- The evidence that an operation succeeded.
  abbrev pub Proves : CommandScope → AgentOperation → SuccessEvidence → Type 0
  Proves scope AgentOperation.prepare_environment (SuccessEvidence.prepared id) = Unit
  Proves scope (AgentOperation.start_runner e p r) (SuccessEvidence.runner_started e' p' r' local) =
      (e ≡ e') × (p ≡ p') × (r ≡ r')
  Proves scope AgentOperation.inspect_host (SuccessEvidence.inspected local) = Unit
  Proves scope (AgentOperation.inspect x) (SuccessEvidence.inspected local) = local ≡ some x
  Proves scope AgentOperation.drain_host (SuccessEvidence.drained local) = local ≡ none
  Proves scope (AgentOperation.drain x) (SuccessEvidence.drained local) = local ≡ some x
  Proves scope (AgentOperation.stop x) (SuccessEvidence.stopped local) = x ≡ local
  Proves scope (AgentOperation.cleanup x) (SuccessEvidence.cleaned local absent excluded) =
      (x ≡ local) × (absent ≡ local) × (excluded ≡ local)
  Proves scope (AgentOperation.upgrade_agent m v) (SuccessEvidence.agent_upgraded m' v') =
      (m ≡ m') × (v ≡ v')
  Proves scope (AgentOperation.execute_sandbox x) (SuccessEvidence.sandbox_executed local) =
      x ≡ local
  Proves scope (AgentOperation.sandbox_file x action)
        (SuccessEvidence.sandbox_file_applied local action' r) =
      (x ≡ local) × (action ≡ action') × FileProves action r scope
  Proves scope (AgentOperation.sandbox_artifact x action)
        (SuccessEvidence.sandbox_artifact_applied local action' r) =
      (x ≡ local) × (action ≡ action') × ArtifactProves action r scope
  Proves scope _ _ = ⊥

  chunk_matches_iff :
      (chunk : TransferChunk) (offset most size digest : ℕ) (scope : CommandScope)
      → (chunk_matches sha256 chunk offset most size digest scope ≡ true)
        ↔ IsChunk chunk offset most size digest scope
  unfolding chunk_matches
  chunk_matches_iff chunk offset most size digest host_scope = (λ h. cc, λ h. cc (h.owned))
  chunk_matches_iff chunk offset most size digest (placement_scope p b g) = (
    λ h. record {
      from = ground arith;
      sized = ground arith;
      few = ground arith;
      hashed = ground arith;
      owned = ground arith;
    },
    λ h. ground arith,
  )

  file_iff :
      (action : SandboxFileAction) (r : SandboxFileResult) (scope : CommandScope)
      → (file_result_matches sha256 action r scope ≡ true) ↔ FileProves action r scope
  unfolding file_result_matches
  file_iff (read_file path offset most) (read_result none size digest) scope = ground arith
  file_iff (read_file path offset most) (read_result (some chunk) size digest) scope =
      chunk_matches_iff chunk offset most size digest scope
  file_iff (write_file path id expected digest) (written r) scope = ground arith
  file_iff (read_file path offset most) (written r) scope = (λ h. cc, λ h. absurd h)
  file_iff (write_file path id expected digest) (read_result c size d) scope =
      (λ h. cc, λ h. absurd h)

  artifact_iff :
      (action : SandboxArtifactAction) (r : SandboxArtifactResult) (scope : CommandScope)
      → (artifact_result_matches sha256 action r scope ≡ true) ↔ ArtifactProves action r scope
  unfolding artifact_result_matches
  artifact_iff (publish path id) (published r) scope = ground arith
  artifact_iff (fetch id offset most) (fetched chunk size digest) scope =
      let there = is_artifact_iff chunk.stream id in
      let same = chunk_matches_iff chunk offset most size digest scope in
      (
        λ h. (there.0 (ground arith), same.0 (ground arith)),
        λ h. ground (arith, there.1 h.0, same.1 h.1),
      )
  artifact_iff (publish path id) (fetched c size digest) scope = (λ h. cc, λ h. absurd h)
  artifact_iff (fetch id offset most) (published r) scope = (λ h. cc, λ h. absurd h)

  evidence_iff :
      (scope : CommandScope) (operation : AgentOperation) (e : SuccessEvidence)
      → (evidence_matches sha256 scope operation e ≡ true) ↔ Proves scope operation e
  unfolding evidence_matches
  evidence_iff scope AgentOperation.prepare_environment (SuccessEvidence.prepared id) =
      (λ h. tt, λ h. refl)
  evidence_iff scope (AgentOperation.start_runner e p r)
        (SuccessEvidence.runner_started e' p' r' local) =
      ground arith
  evidence_iff scope AgentOperation.inspect_host (SuccessEvidence.inspected local) =
      (λ h. tt, λ h. refl)
  evidence_iff scope (AgentOperation.inspect x) (SuccessEvidence.inspected local) =
      is_resource_iff local x
  evidence_iff scope AgentOperation.drain_host (SuccessEvidence.drained local) = ground arith
  evidence_iff scope (AgentOperation.drain x) (SuccessEvidence.drained local) =
      is_resource_iff local x
  evidence_iff scope (AgentOperation.stop x) (SuccessEvidence.stopped local) =
      eqb_iff LocalResourceIdentity-discrete x local
  evidence_iff scope (AgentOperation.cleanup x) (SuccessEvidence.cleaned local absent excluded) =
      ground (
        arith,
        eqb_iff LocalResourceIdentity-discrete x local,
        eqb_iff LocalResourceIdentity-discrete absent local,
        eqb_iff LocalResourceIdentity-discrete excluded local,
      )
  evidence_iff scope (AgentOperation.upgrade_agent m v) (SuccessEvidence.agent_upgraded m' v') =
      ground (arith, eqb_iff String_discrete v v')
  evidence_iff scope (AgentOperation.execute_sandbox x) (SuccessEvidence.sandbox_executed local) =
      eqb_iff LocalResourceIdentity-discrete x local
  evidence_iff scope (AgentOperation.sandbox_file x action)
        (SuccessEvidence.sandbox_file_applied local action' r) =
      let here = eqb_iff LocalResourceIdentity-discrete x local in
      let asked = eqb_iff SandboxFileAction-discrete action action' in
      let proved = file_iff action r scope in
      (
        λ h. (here.0 (ground arith), asked.0 (ground arith), proved.0 (ground arith)),
        λ h. ground (arith, here.1 h.0, asked.1 h.1, proved.1 h.2),
      )
  evidence_iff scope (AgentOperation.sandbox_artifact x action)
        (SuccessEvidence.sandbox_artifact_applied local action' r) =
      let here = eqb_iff LocalResourceIdentity-discrete x local in
      let asked = eqb_iff SandboxArtifactAction-discrete action action' in
      let proved = artifact_iff action r scope in
      (
        λ h. (here.0 (ground arith), asked.0 (ground arith), proved.0 (ground arith)),
        λ h. ground (arith, here.1 h.0, asked.1 h.1, proved.1 h.2),
      )
  evidence_iff scope operation e = (λ h. cc, λ h. absurd h)

  outcome_iff :
      (scope : CommandScope) (operation : AgentOperation) (o : CommandOutcome)
      → (outcome_matches sha256 scope operation o ≡ true)
        ↔ ((e : SuccessEvidence) → o ≡ CommandOutcome.succeeded e → Proves scope operation e)
  outcome_iff scope operation (CommandOutcome.succeeded e) =
      let same = evidence_iff scope operation e in
      (λ h e' was. let equal : e ≡ e' = cc was in rw equal at (same.0 h), λ h. same.1 (h e refl))
  outcome_iff scope operation o = (λ h e was. cc was, λ h. refl)

  -- A result is taken for a command exactly when it has the identity and the request hash of that
  -- command, names the generation of its scope and, if it claims success, proves that the operation
  -- of the command succeeded.
  pub validate_against_iff :
      (r : AgentCommandResult) (c : AgentCommandEnvelope)
      → (validate_against sha256 r c ≡ ok tt) ↔ (
          (r.identity ≡ c.identity)
          × (r.request_hash ≡ c.request_hash)
          × (r.generation ≡ generation_of r.identity.scope)
          × ((e : SuccessEvidence)
              → r.outcome ≡ CommandOutcome.succeeded e
              → Proves c.identity.scope c.operation e))
  unfolding validate_against
  validate_against_iff r c =
      let same = same_command_iff r.identity c.identity in
      let own = scope_generation_iff r.identity.scope r.generation in
      let proved = outcome_iff c.identity.scope c.operation r.outcome in
      (
        λ h. (same.0 (ground arith), ground arith, own.0 (ground arith), proved.0 (ground arith)),
        λ h. ground (arith, same.1 h.0, own.1 h.2, proved.1 h.3),
      )
