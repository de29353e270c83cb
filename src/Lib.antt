-- ===== src/Lib.antt =====
-- gridops: the fleet core, crates/gridops-core/src/fleet.
--
-- gridops runs CI runners on a fleet of hosts. A candidate backend is judged by what its host reports
-- (capabilities), admitted against the budgets of the host's resource domains (admission), and run as
-- a placement whose states, allocations and host lifecycle follow fixed transitions (domain). Acting
-- on a host takes a proof minted from a grant and rechecked before use (authorization), and the
-- console output of a runner is sent in chunks to a log stream (output). The host agent and the server
-- share contract types (protocol), and the agent's dispatcher runs the server's commands through its
-- journal (host agent). On the server the registry hands these commands out to polls, takes their
-- results and moves placements and allocations accordingly (registry). Listings resume at signed
-- cursors (cursor), and the log of a job is cut into the steps of its workflow (job log).
--
-- Files and code:
--   Prelude            lists, texts, results and integers that the parts share.
--   Protocol           fleet/protocol: BoundedInteger (Primitives), LimitsConfig (Limits),
--                      PendingRenewal (Renewal), TransferChunk (Chunks) and outcomes.rs with the
--                      operations of agent.rs that it answers (Outcomes).
--   Domain/Kinds, Request, Amount, Target
--                      fleet/domain.rs: runtime kinds, ResourceRequest, ResourceAmount, CiTarget.
--   Domain/Host, Backend, Placement, Allocation, Transition
--                      fleet/domain.rs: HostLifecycle, BackendReadiness, PlacementState,
--                      AllocationState, and their transition errors. A method on `&mut self` returns
--                      the new value beside its result.
--   Authorization      fleet/authorization.rs: GrantSnapshot's authorize_* methods and recheck.
--   Capabilities       fleet/capabilities.rs: CapabilityReport's decoding, static_compatibility and
--                      BackendCapabilities::evaluate.
--   Admission          fleet/admission.rs: domain_path (Path), domains_fit and the allocation rows of
--                      insert_admission (Fit), over the rows that the queries read (Store); the
--                      release of allocations is the update of fleet/placement.rs.
--   Output             fleet/registry/output.rs: authorize_output (Authority) with
--                      ensure_authenticated_generation of fleet/registry/mod.rs, and
--                      append_runner_output with record_output and newest_output (Server); the upload
--                      of crates/gridops-host-agent/src/output.rs that calls it (Agent).
--   HostAgent          crates/gridops-host-agent/src/journal.rs (Journal) and dispatch.rs (Dispatch):
--                      dispatch_with, execute and recover.
--   Registry           crates/gridops-core/src/fleet/registry/commands.rs: the tables of
--                      migrations/0022_fleet_foundation.sql (Tables) and queries on them (Rows),
--                      apply_to_placement and release (Placements), record_command_result (Results),
--                      poll_commands, cancel_undeliverable and claim_bootstrap (Delivery),
--                      settle_unreceived and repair_unconfirmed of registry/unconfirmed.rs
--                      (Settlement), and registry/handshake.rs with the session tables of
--                      migrations/0026_fleet_inventory.sql (Observation, Handshake). Histories are
--                      sequences of the calls on commands, and Absence and Finality are about what a
--                      history keeps.
--   Cursor             fleet/cursor.rs: CursorCodec's issue and verify, with Vault::sign and
--                      Vault::verify of crates/gridops-core/src/crypto.rs.
--   JobLog             crates/gridops-core/src/job_log.rs: the text of a line (Lines), clean_job_lines
--                      (Cleaning), the order of lines (Order), the steps of structure_job_log (Steps)
--                      and its annotations (Annotations).
--   Examples           runs of the definitions at concrete inputs.
--
-- How it is modelled:
--   Numbers are ℕ; i64 columns are ℤ. Checked operations compare with the machine's bounds (Words), so
--   an overflow is the error that the source raises. Identifiers are numbers, a UUID being nil at 0.
--   Tables are lists of rows, a query is a search of the list, and `fetch_optional` is the first match.
--   A transaction is a function on the tables: when it fails, the caller keeps the tables it had.
--   domain_path needs no fuel: the recursion is on the room left below MAX_RESOURCE_DOMAIN_DEPTH, 64,
--   where the source's loop stops by itself.
--   append_runner_output takes an environment: what each of its two transactions sees of the registry,
--   how the file write between them ends (whole, not opened, or broken off after some bytes), and
--   whether the stream was closed in between. base64 is a parameter with one law, that decoding undoes
--   encoding. A file is the list of its bytes, and a trimmed stream's move to a new path replaces it.
--   The agent's upload takes a schedule of what becomes of each attempt (no authority yet, not received,
--   received with the answer lost, answered), and stops where the schedule ends, which is where the
--   agent's session may end too. What gather reads is a list of buffers.
--   dispatch_with takes a world: whether the envelope passes its checks, what the helper answers
--   and finds of a start cut short, the boot that the host is in, the fresh id, and where the agent
--   stops (after the receipt, during the helper's work, before the result is journaled). Requests
--   to the helper, those that ask what remains of a start cut short included, are logged with their
--   method beside the result.
--   The codec of chunks is a parameter: base64 with the length of its texts, and the digest.
--   The registry's calls take what the clock shows; a poll also takes what its first transaction, which
--   only reads, saw. Rows of host_commands stand in the order of their cursors, so LIMIT 1 is the first
--   match. A constraint of the tables that an insert may violate is an error of the model, and so the
--   transaction keeps nothing. An audit row and an event are one row with the action, its subject and
--   the time. SHA-256 and the hash of a result's JSON text are parameters.
--   A handshake returns two results, one of the transaction and, after a commit, one of the answer,
--   since a session conflict is committed before it is returned. The columns of fleet_hosts stand in two
--   tables, those that authenticate a host and those that its agent reported.
--   A cursor's token is a list of characters, digests and identifiers are numbers, and base64, HMAC and
--   JSON are a record of functions with the laws that the codec relies on.
--   A job log is a list of characters, and chrono's parser of timestamps is a parameter. An index into
--   the steps that is out of range is no result, where the source would panic. Sorting is by insertion
--   behind equal times, which is what the stable sort of the source does. A saturating sum that a time is
--   compared with is the plain sum, which no i64 beyond the bound tells apart.
--
-- Not modelled:
--   The database itself: failures of a query, locking and isolation. serde and the wire formats, clocks
--   and identifiers, which are inputs. The rest of admission (scoring of candidates, pool limits, the
--   sealed command), the registry's enrollment, credentials and inventory, the key texts of
--   cursor scopes, the rest of the host agent, the HTTP API, the reconciler and the manager, which are
--   SQL, HTTP and process control around these parts.
pub mod Prelude
pub mod Protocol
pub mod Domain
pub mod Authorization
pub mod Capabilities
pub mod Admission
pub mod Output
pub mod Cursor
pub mod Examples
pub mod HostAgent
pub mod JobLog
pub mod Registry
