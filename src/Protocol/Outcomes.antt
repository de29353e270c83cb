-- ===== src/Protocol/Outcomes.antt =====
-- The results of commands, crates/gridops-core/src/fleet/protocol/outcomes.rs, and the operations of
-- protocol/agent.rs that they answer. Identifiers, digests, times and versions are numbers; what
-- neither `validate_against` nor the registry reads is left out.
pub mod Matches
use gridops.Prelude.{
  ℕ, ℕ_discrete, String, String_discrete, Bool, true, false, not, ◌&&◌, ◌||◌, Option, none, some,
  List, [], Result, ok, err, ◌>>=◌, ◌>>◌, fail_if, eqb, leb, ◌==◌, length, if◌then◌else◌,
}
use gridops.HostAgent.Journal.{LocalResourceIdentity, LocalResourceIdentity-discrete}
use gridops.Protocol.Chunks.{StreamReference, log, artifact, TransferChunk}

pub data CommandScope : Type 0 where
  host_scope : CommandScope
  placement_scope : ℕ → ℕ → ℕ → CommandScope

unfoldable pub CommandScope-discrete : Discrete CommandScope
unfolding ℕ_discrete
CommandScope-discrete = hlevel ℕ_discrete

-- `Read` has a path, an offset and the most bytes to read; `Write` a path, an artifact, its length
-- and its digest.
pub data SandboxFileAction : Type 0 where
  read_file : String → ℕ → ℕ → SandboxFileAction
  write_file : String → ℕ → ℕ → ℕ → SandboxFileAction

unfoldable pub SandboxFileAction-discrete : Discrete SandboxFileAction
unfolding ℕ_discrete String_discrete
SandboxFileAction-discrete = hlevel (ℕ_discrete, String_discrete)

-- `Publish` has a path and an artifact; `Fetch` an artifact, an offset and the most bytes to fetch.
pub data SandboxArtifactAction : Type 0 where
  publish : String → ℕ → SandboxArtifactAction
  fetch : ℕ → ℕ → ℕ → SandboxArtifactAction

unfoldable pub SandboxArtifactAction-discrete : Discrete SandboxArtifactAction
unfolding ℕ_discrete String_discrete
SandboxArtifactAction-discrete = hlevel (ℕ_discrete, String_discrete)

-- `AgentOperation`; a start has the prepared environment, the profile and its revision, an upgrade
-- the manifest and the version that is expected.
pub data AgentOperation : Type 0 where
  prepare_environment inspect_host drain_host : AgentOperation
  start_runner : ℕ → ℕ → ℕ → AgentOperation
  inspect drain stop cleanup execute_sandbox : LocalResourceIdentity → AgentOperation
  upgrade_agent : ℕ → String → AgentOperation
  sandbox_file : LocalResourceIdentity → SandboxFileAction → AgentOperation
  sandbox_artifact : LocalResourceIdentity → SandboxArtifactAction → AgentOperation

pub record ArtifactReceipt : Type 0 where
  pub artifact_id : ℕ
  pub size_bytes : ℕ
  pub digest : ℕ

-- A result of a file action: a chunk if there was one, with the size and the digest, or a receipt.
pub data SandboxFileResult : Type 0 where
  read_result : Option TransferChunk → ℕ → ℕ → SandboxFileResult
  written : ArtifactReceipt → SandboxFileResult

pub data SandboxArtifactResult : Type 0 where
  published : ArtifactReceipt → SandboxArtifactResult
  fetched : TransferChunk → ℕ → ℕ → SandboxArtifactResult

-- `SuccessEvidence`; the two claims of a cleanup are shown by their resources.
pub data SuccessEvidence : Type 0 where
  prepared : ℕ → SuccessEvidence
  runner_started : ℕ → ℕ → ℕ → LocalResourceIdentity → SuccessEvidence
  inspected drained : Option LocalResourceIdentity → SuccessEvidence
  stopped sandbox_executed : LocalResourceIdentity → SuccessEvidence
  cleaned : LocalResourceIdentity → LocalResourceIdentity → LocalResourceIdentity → SuccessEvidence
  agent_upgraded : ℕ → String → SuccessEvidence
  sandbox_file_applied :
      LocalResourceIdentity → SandboxFileAction → SandboxFileResult → SuccessEvidence
  sandbox_artifact_applied :
      LocalResourceIdentity → SandboxArtifactAction → SandboxArtifactResult → SuccessEvidence

-- `CommandOutcome`, without the codes and the diagnostics.
pub data CommandOutcome : Type 0 where
  accepted running : ℕ → CommandOutcome
  succeeded : SuccessEvidence → CommandOutcome
  failed uncertain : CommandOutcome

-- The fields that a command and its result share.
pub record CommandIdentity : Type 0 where
  pub command_id : ℕ
  pub operation_id : ℕ
  pub host_id : ℕ
  pub host_epoch : ℕ
  pub control_plane_incarnation : ℕ
  pub authority_session_id : ℕ
  pub scope : CommandScope

pub record AgentCommandEnvelope : Type 0 where
  pub identity : CommandIdentity
  pub request_hash : ℕ
  pub operation : AgentOperation

pub record AgentCommandResult : Type 0 where
  pub result_id : ℕ
  pub identity : CommandIdentity
  pub generation : Option ℕ
  pub request_hash : ℕ
  pub outcome : CommandOutcome

pub data OutcomeError : Type 0 where
  correlation scope_mismatch evidence_mismatch hash_mismatch : OutcomeError

unfoldable pub scope_generation_matches : CommandScope → Option ℕ → Bool
scope_generation_matches host_scope none = true
scope_generation_matches host_scope (some g) = false
scope_generation_matches (placement_scope p b expected) none = false
scope_generation_matches (placement_scope p b expected) (some actual) = expected == actual

abbrev pub same_resource : LocalResourceIdentity → LocalResourceIdentity → Bool
same_resource a b = eqb LocalResourceIdentity-discrete a b

-- `local_identity.as_ref() == Some(expected_resource)`.
abbrev pub is_resource : Option LocalResourceIdentity → LocalResourceIdentity → Bool
is_resource none expected = false
is_resource (some actual) expected = same_resource actual expected

abbrev pub is_none : Option LocalResourceIdentity → Bool
is_none none = true
is_none (some r) = false

abbrev pub is_artifact : StreamReference → ℕ → Bool
is_artifact (log id) expected = false
is_artifact (artifact id) expected = id == expected

unfoldable pub same_command : CommandIdentity → CommandIdentity → Bool
same_command a b =
    (a.command_id == b.command_id && a.operation_id == b.operation_id && a.host_id == b.host_id)
    && (a.host_epoch == b.host_epoch && a.control_plane_incarnation == b.control_plane_incarnation)
    && (a.authority_session_id == b.authority_session_id
        && eqb CommandScope-discrete a.scope b.scope)

-- `Sha256Digest::of`, of the `sha2` crate.
module _ (sha256 : List ℕ → ℕ) where
  -- The tests that a chunk of a file and a chunk of an artifact share.
  unfoldable pub chunk_matches : TransferChunk → ℕ → ℕ → ℕ → ℕ → CommandScope → Bool
  chunk_matches chunk offset max_bytes size digest host_scope = false
  chunk_matches chunk offset max_bytes size digest (placement_scope p b g) =
      (chunk.offset == offset && size == length chunk.bytes && leb size max_bytes)
      && (digest == sha256 chunk.bytes && chunk.owner.placement_id == p)
      && (chunk.owner.backend_id == b && chunk.owner.generation == g)

  unfoldable pub file_result_matches : SandboxFileAction → SandboxFileResult → CommandScope → Bool
  file_result_matches (read_file path offset most) (read_result none size digest) scope =
      size == 0 && digest == sha256 []
  file_result_matches (read_file path offset most) (read_result (some chunk) size digest) scope =
      chunk_matches chunk offset most size digest scope
  file_result_matches (write_file path id expected digest) (written r) scope =
      r.artifact_id == id && r.size_bytes == expected && r.digest == digest
  file_result_matches _ _ scope = false

  unfoldable pub artifact_result_matches :
      SandboxArtifactAction → SandboxArtifactResult → CommandScope → Bool
  artifact_result_matches (publish path id) (published r) scope = id == r.artifact_id
  artifact_result_matches (fetch id offset most) (fetched chunk size digest) scope =
      is_artifact chunk.stream id && chunk_matches chunk offset most size digest scope
  artifact_result_matches _ _ scope = false

  unfoldable pub evidence_matches : CommandScope → AgentOperation → SuccessEvidence → Bool
  evidence_matches scope prepare_environment (prepared id) = true
  evidence_matches scope (start_runner e p r) (runner_started e' p' r' local) =
      e == e' && p == p' && r == r'
  evidence_matches scope inspect_host (inspected local) = true
  evidence_matches scope (inspect expected) (inspected local) = is_resource local expected
  evidence_matches scope drain_host (drained local) = is_none local
  evidence_matches scope (drain expected) (drained local) = is_resource local expected
  evidence_matches scope (stop expected) (stopped local) = same_resource expected local
  evidence_matches scope (cleanup expected) (cleaned local absent excluded) =
      same_resource expected local && same_resource absent local && same_resource excluded local
  evidence_matches scope (upgrade_agent manifest version) (agent_upgraded actual version') =
      manifest == actual && eqb String_discrete version version'
  evidence_matches scope (execute_sandbox expected) (sandbox_executed local) =
      same_resource expected local
  evidence_matches scope (sandbox_file expected action) (sandbox_file_applied local actual r) =
      same_resource expected local
      && eqb SandboxFileAction-discrete action actual
      && file_result_matches action r scope
  evidence_matches scope (sandbox_artifact expected action)
        (sandbox_artifact_applied local actual r) =
      same_resource expected local
      && eqb SandboxArtifactAction-discrete action actual
      && artifact_result_matches action r scope
  evidence_matches scope _ _ = false

  -- `if let CommandOutcome::Succeeded { evidence }` and the test in it.
  abbrev pub outcome_matches : CommandScope → AgentOperation → CommandOutcome → Bool
  outcome_matches scope operation (succeeded evidence) = evidence_matches scope operation evidence
  outcome_matches scope operation _ = true

  unfoldable pub validate_against :
      AgentCommandResult → AgentCommandEnvelope → Result OutcomeError (Unit {0})
  validate_against r c = do
    fail_if (not (same_command r.identity c.identity)) correlation
    fail_if (not (r.request_hash == c.request_hash)) hash_mismatch
    fail_if (not (scope_generation_matches r.identity.scope r.generation)) scope_mismatch
    fail_if (not (outcome_matches c.identity.scope c.operation r.outcome)) evidence_mismatch
