-- ===== src/Output/Agent.antt =====
-- The upload of one runner's output, crates/gridops-host-agent/src/output.rs, with the answers that
-- crates/gridops-api/src/fleet/error.rs and crates/gridops-host-agent/src/client.rs make of the
-- server's errors. A schedule lists what becomes of each attempt to send; when it runs out, the
-- session is over and the task is dropped where it stands.
use gridops.Prelude.{
  ℕ, ◌+◌, ◌-◌, Bool, true, false, ◌||◌, Option, List, [], ◌∷◌, Result, ok, err, ltb, if◌then◌else◌,
  length, drop, min,
}
use gridops.Output.Authority.{
  RegistryError, forbidden, not_found, invalid_credential, io_failure, database, invalid_request,
  AuthenticatedHost,
}
use gridops.Output.Server.{
  Base64, Stream, RunnerOutputReceipt, Environment, Answer, append_runner_output,
}

-- `ClientError`, with the codes of a refusal that the route can give.
pub data ClientError : Type 0 where
  unauthenticated unavailable refused_forbidden refused_not_found refused_invalid : ClientError

-- `registry_error`, the status of its code, and what `send` of the client makes of that.
abbrev pub client_error : RegistryError → ClientError
client_error forbidden = refused_forbidden
client_error not_found = refused_not_found
client_error invalid_credential = unauthenticated
client_error io_failure = unavailable
client_error database = unavailable
client_error (invalid_request why) = refused_invalid

-- The errors that `Upload::send` waits out.
abbrev pub is_retried : ClientError → Bool
is_retried unavailable = true
is_retried unauthenticated = true
is_retried refused_forbidden = true
is_retried _ = false

-- One round of the loop of `send`: no work authority yet; a request that never reaches the handler;
-- one that is handled and whose answer is lost; one that is handled and answered.
pub data Attempt : Type 0 where
  unauthorized unreachable : Attempt
  answer_lost delivered : Environment → Attempt

-- How `send` ends, with the rest of the schedule after an answer.
pub data Sent : Type 0 where
  answered : RunnerOutputReceipt → List Attempt → Sent
  refused dropped : Sent

-- How an upload ends: at a finished stream, refused, dropped with the session, or with all the
-- output that was read sent.
pub data Upload : Type 0 where
  finished_upload refused_upload dropped_upload caught_up : Upload

-- An answer ends `send`, unless it is an error to wait out.
abbrev pub after_answer :
    Option Stream
    → Option Stream × Sent
    → List Attempt
    → Result RegistryError RunnerOutputReceipt
    → Option Stream × Sent
after_answer t again rest (ok receipt) = (t, answered receipt rest)
after_answer t again rest (err e) = if is_retried (client_error e) then again else (t, refused)

-- What the loop does with the end of a `send`: a finished stream and a refusal end it.
abbrev pub after_sent :
    (ℕ → Option Stream → List Attempt → Option Stream × Upload)
    → Option Stream × Sent
    → Option Stream × Upload
after_sent go_on (t, answered receipt rest) =
    if receipt.finished then (t, finished_upload) else go_on receipt.received t rest
after_sent go_on (t, refused) = (t, refused_upload)
after_sent go_on (t, dropped) = (t, dropped_upload)

module _ (b : Base64) (a : AuthenticatedHost) (session placement : ℕ) where
  open b use {encode}

  abbrev pub post : Environment → Option Stream → ℕ → List ℕ → Bool → Answer
  post env stream offset data_bytes ended = append_runner_output b env a stream (record {
    authority_session_id = session;
    placement_id = placement;
    offset = offset;
    bytes = encode data_bytes;
    finished = ended;
  })

  -- `Upload::send`.
  unfoldable pub send : Option Stream → ℕ → List ℕ → Bool → List Attempt → Option Stream × Sent
  send stream offset data_bytes ended [] = (stream, dropped)
  send stream offset data_bytes ended (unauthorized ∷ rest) =
      send stream offset data_bytes ended rest
  send stream offset data_bytes ended (unreachable ∷ rest) =
      send stream offset data_bytes ended rest
  send stream offset data_bytes ended (answer_lost env ∷ rest) =
      send ((post env stream offset data_bytes ended).0) offset data_bytes ended rest
  send stream offset data_bytes ended (delivered env ∷ rest) =
      let (t, answer) = post env stream offset data_bytes ended in
      let again = send t offset data_bytes ended rest in after_answer t again rest answer

  -- The loop of `Upload::stream` over what `gather` returns, from a position and the offset that
  -- the server has confirmed.
  unfoldable pub stream_from :
      ℕ → ℕ → Option Stream → List Attempt → List (List ℕ × Bool) → Option Stream × Upload
  stream_from position received stream schedule [] = (stream, caught_up)
  stream_from position received stream schedule ((buffer, ended) ∷ gathers) =
      let skip = min (received - position) (length buffer) in
      let next = position + length buffer in
      let quiet = stream_from next received stream schedule gathers in
      if ltb skip (length buffer) || ended
      then after_sent (λ confirmed t rest. stream_from next confirmed t rest gathers)
          (send stream (position + skip) (drop skip buffer) ended schedule)
      else quiet

  -- `Upload::stream`: the empty chunk asks where the server is.
  unfoldable pub stream_output :
      Option Stream → List Attempt → List (List ℕ × Bool) → Option Stream × Upload
  stream_output stream schedule gathers =
      after_sent (λ confirmed t rest. stream_from 0 confirmed t rest gathers)
        (send stream 0 [] false schedule)
