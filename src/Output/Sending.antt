-- ===== src/Output/Sending.antt =====
-- One `send` of the agent, crates/gridops-host-agent/src/output.rs, composed with the server's
-- crates/gridops-core/src/fleet/registry/output.rs.
use gridops.Prelude.{
  ℕ, ◌+◌, ◌≤◌, ◌≡◌, refl, sym, ap, ◌∙◌, ◌⊎◌, inl, inr, Bool, true, Option, none, some, List, [],
  ◌∷◌, Result, ok, err, Result-cases, length, arith,
}
use gridops.Output.Authority.{
  forbidden, not_found, invalid_credential, io_failure, database, invalid_request, RegistryError,
  AuthenticatedHost, authorize_output,
}
use gridops.Output.Server.{
  Base64, Stream, current, RunnerOutputReceipt, Environment, write_file, append_bytes,
  append_runner_output, write_and_record, check_chunk, fresh_bytes, unrecorded,
}
use gridops.Output.Stored.{AllFaithful, IsChunkOf}
use gridops.Output.Appended.{append_bytes-AllFaithful}
use gridops.Output.Answers.{append_bytes-IsAnswered}
use gridops.Output.Agent.{
  Attempt, unauthorized, unreachable, answer_lost, delivered, Sent, answered, refused, dropped,
  post, send, after_answer,
}

-- The recorded offset never moves back.
unrecorded-received :
    (stream : Option Stream) (left : List ℕ)
    → (current (unrecorded stream left)).received ≡ (current stream).received
unrecorded-received none left = refl
unrecorded-received (some s) left = refl

write_and_record-grows :
    (env : Environment) (a : AuthenticatedHost) (session placement : ℕ) (stream : Option Stream)
    (fresh : List ℕ) (end : ℕ) (finished : Bool)
    → (current stream).received
      ≤ (current ((write_and_record env a session placement stream fresh end finished).0)).received
unfolding write_and_record
write_and_record-grows env a session placement stream fresh end finished =
    elim (Result-cases (write_file (current stream) fresh env.write)) [
      | inr (left, broken) ↦ ground (arith, unrecorded-received stream left)
      | inl (w, written) ↦
          elim (Result-cases
            (authorize_output env.later_registry a session placement env.later_now)) [
              | inr (x, denied) ↦ ground (arith, unrecorded-received stream w.left)
              | inl (runner, allowed) ↦ ground arith
            ]
    ]

append_bytes-grows :
    (env : Environment) (a : AuthenticatedHost) (session placement : ℕ) (stream : Option Stream)
    (offset : ℕ) (bytes : List ℕ) (finished : Bool)
    → (current stream).received
      ≤ (current ((append_bytes env a session placement stream offset bytes finished).0)).received
unfolding append_bytes
append_bytes-grows env a session placement stream offset bytes finished =
    elim (Result-cases (check_chunk env a session placement offset bytes)) [
      | inr (x, denied) ↦ ground arith
      | inl (end, passed) ↦ ground (
        arith,
        write_and_record-grows env a session placement stream
            (fresh_bytes (current stream).received offset bytes) end finished,
      )
    ]

-- What the server confirmed is what the stream has, and it covers the chunk unless the stream is
-- closed.
abbrev pub Confirms : Option Stream → ℕ → Sent → Type 0
Confirms t end (answered r rest) =
    (r.received ≡ (current t).received)
    × (r.finished ≡ (current t).complete)
    × ((r.finished ≡ true) ⊎ (end ≤ r.received))
Confirms t end refused = Unit {0}
Confirms t end dropped = Unit {0}

-- What a handled request keeps.
pub record IsKeptBy (out : List ℕ) (stream t : Option Stream) : Type 0 where
  pub faithful : AllFaithful out t
  pub grows : (current stream).received ≤ (current t).received

abbrev pub IsSentWell : List ℕ → Option Stream → ℕ → Option Stream × Sent → Type 0
IsSentWell out stream end p = IsKeptBy out stream p.0 × Confirms p.0 end p.1

module _ (b : Base64) (out : List ℕ) (a : AuthenticatedHost) (session placement : ℕ) where
  open b use {encode, decode-encode}

  pub post-append_bytes :
      (env : Environment) (stream : Option Stream) (offset : ℕ) (bytes : List ℕ) (ended : Bool)
      → post b a session placement env stream offset bytes ended
        ≡ append_bytes env a session placement stream offset bytes ended
  unfolding append_runner_output
  post-append_bytes env stream offset bytes ended =
      rw (decode-encode bytes, append_runner_output) refl

  post-IsKeptBy :
      (env : Environment) (stream : Option Stream) (offset : ℕ) (bytes : List ℕ) (ended : Bool)
      → AllFaithful out stream
      → IsChunkOf out offset bytes
      → offset ≤ (current stream).received
      → IsKeptBy out stream ((post b a session placement env stream offset bytes ended).0)
  post-IsKeptBy env stream offset bytes ended f chunk before =
      rw (post-append_bytes env stream offset bytes ended) (record {
        faithful =
            append_bytes-AllFaithful out env a session placement stream f offset bytes ended chunk
              before;
        grows = append_bytes-grows env a session placement stream offset bytes ended;
      })

  pub post-Confirms :
      (env : Environment) (stream : Option Stream) (offset : ℕ) (bytes : List ℕ) (ended : Bool)
      (receipt : RunnerOutputReceipt) (rest : List Attempt)
      → (post b a session placement env stream offset bytes ended).1 ≡ ok receipt
      → Confirms
          ((post b a session placement env stream offset bytes ended).0)
          (offset + length bytes)
          (answered receipt rest)
  post-Confirms env stream offset bytes ended receipt rest e =
      let same = post-append_bytes env stream offset bytes ended in
      let t = (post b a session placement env stream offset bytes ended).0 in
      let pair : append_bytes env a session placement stream offset bytes ended ≡ (t, ok receipt) =
        sym same ∙ ap (λ r. (t, r)) e in
      let answer =
        append_bytes-IsAnswered env a session placement stream t offset bytes ended receipt pair in
      (sym answer.received, sym answer.finished, answer.covers)

  after_answer-IsSentWell :
      (stream t : Option Stream) (end : ℕ) (again : Option Stream × Sent) (rest : List Attempt)
      (r : Result RegistryError RunnerOutputReceipt)
      → IsKeptBy out stream t
      → IsSentWell out stream end again
      → ((receipt : RunnerOutputReceipt) → r ≡ ok receipt → Confirms t end (answered receipt rest))
      → IsSentWell out stream end (after_answer t again rest r)
  after_answer-IsSentWell stream t end again rest (ok receipt) kept later confirms =
      (kept, confirms receipt refl)
  after_answer-IsSentWell stream t end again rest (err forbidden) kept later confirms = later
  after_answer-IsSentWell stream t end again rest (err not_found) kept later confirms = (kept, tt)
  after_answer-IsSentWell stream t end again rest (err invalid_credential) kept later confirms =
      later
  after_answer-IsSentWell stream t end again rest (err io_failure) kept later confirms = later
  after_answer-IsSentWell stream t end again rest (err database) kept later confirms = later
  after_answer-IsSentWell stream t end again rest (err (invalid_request why)) kept later confirms =
      (kept, tt)

  IsKeptBy-trans : (s t u : Option Stream) → IsKeptBy out s t → IsKeptBy out t u → IsKeptBy out s u
  IsKeptBy-trans s t u first second =
      let g = first.grows in
      let h = second.grows in record { faithful = second.faithful; grows = omega arith }

  -- A chunk that starts at or before the recorded offset is sent well, however its attempts go.
  pub send-IsSentWell :
      (stream : Option Stream) (offset : ℕ) (bytes : List ℕ) (ended : Bool)
      (schedule : List Attempt)
      → AllFaithful out stream
      → IsChunkOf out offset bytes
      → offset ≤ (current stream).received
      → IsSentWell out stream
          (offset + length bytes)
          (send b a session placement stream offset bytes ended schedule)
  unfolding send
  send-IsSentWell stream offset bytes ended [] f chunk before =
      (record { faithful = f; grows = omega arith }, tt)
  send-IsSentWell stream offset bytes ended (unauthorized ∷ rest) f chunk before =
      send-IsSentWell stream offset bytes ended rest f chunk before
  send-IsSentWell stream offset bytes ended (unreachable ∷ rest) f chunk before =
      send-IsSentWell stream offset bytes ended rest f chunk before
  send-IsSentWell stream offset bytes ended (answer_lost env ∷ rest) f chunk before =
      let once = post-IsKeptBy env stream offset bytes ended f chunk before in
      let t = (post b a session placement env stream offset bytes ended).0 in
      let grown = once.grows in
      let (kept, confirmed) =
        send-IsSentWell t offset bytes ended rest once.faithful chunk (omega arith) in
      let u = (send b a session placement t offset bytes ended rest).0 in
      (IsKeptBy-trans stream t u once kept, confirmed)
  send-IsSentWell stream offset bytes ended (delivered env ∷ rest) f chunk before =
      let once = post-IsKeptBy env stream offset bytes ended f chunk before in
      let t = (post b a session placement env stream offset bytes ended).0 in
      let grown = once.grows in
      let (kept, confirmed) =
        send-IsSentWell t offset bytes ended rest once.faithful chunk (omega arith) in
      let again = send b a session placement t offset bytes ended rest in
      after_answer-IsSentWell stream t (offset + length bytes) again rest
        ((post b a session placement env stream offset bytes ended).1) once
        (IsKeptBy-trans stream t again.0 once kept, confirmed)
        (λ receipt e. post-Confirms env stream offset bytes ended receipt rest e)
