-- ===== src/Output/Covering.antt =====
-- What a closed stream of crates/gridops-core/src/fleet/registry/output.rs has, when the upload of
-- crates/gridops-host-agent/src/output.rs closes it.
use gridops.Prelude.{
  ℕ, ◌+◌, ◌≤◌, ◌≡◌, refl, inl, inr, Bool, true, false, ◌||◌, Bool-cases, Option, none, some, List,
  [], ◌∷◌, Result, ok, err, Result-cases, length, arith,
}
use gridops.Output.Authority.{
  forbidden, not_found, invalid_credential, io_failure, database, invalid_request, RegistryError,
  AuthenticatedHost, authorize_output,
}
use gridops.Output.Server.{
  Base64, Stream, current, RunnerOutputReceipt, Environment, write_file, append_bytes,
  write_and_record, check_chunk, fresh_bytes, unrecorded, is_closed,
}
use gridops.Output.Appended.{check_chunk-bounds}
use gridops.Output.Agent.{
  Attempt, unauthorized, unreachable, answer_lost, delivered, Sent, answered, refused, dropped,
  post, send, after_answer,
}
use gridops.Output.Sending.{post-append_bytes, post-Confirms}

-- Another request closes the stream between the two transactions of an attempt.
abbrev pub closes : List Attempt → Bool
closes [] = false
closes (unauthorized ∷ rest) = closes rest
closes (unreachable ∷ rest) = closes rest
closes (answer_lost env ∷ rest) = env.closed_meanwhile || closes rest
closes (delivered env ∷ rest) = env.closed_meanwhile || closes rest

-- A stream that is closed has the chunk that ends at `end`, and it was the last one.
abbrev pub Covered : ℕ → Bool → Option Stream → Type 0
Covered end ended t = (current t).complete ≡ true → (ended ≡ true) × (end ≤ (current t).received)

unrecorded-complete :
    (stream : Option Stream) (left : List ℕ)
    → (current (unrecorded stream left)).complete ≡ (current stream).complete
unrecorded-complete none left = refl
unrecorded-complete (some s) left = refl

not_closed :
    (stream : Option Stream) (closed : Bool) → closed ≡ false → is_closed stream closed ≡ false
not_closed none closed e = refl
not_closed (some s) closed e = e

write_and_record-Covered :
    (env : Environment) (a : AuthenticatedHost) (session placement : ℕ) (stream : Option Stream)
    (fresh : List ℕ) (end : ℕ) (finished : Bool)
    → env.closed_meanwhile ≡ false
    → (current stream).complete ≡ false
    → Covered end finished ((write_and_record env a session placement stream fresh end finished).0)
unfolding write_and_record
write_and_record-Covered env a session placement stream fresh end finished calm going closed =
    elim (Result-cases (write_file (current stream) fresh env.write)) [
      | inr (left, broken) ↦ absurd (ground (arith, unrecorded-complete stream left))
      | inl (w, written) ↦
          elim (Result-cases
            (authorize_output env.later_registry a session placement env.later_now)) [
              | inr (x, denied) ↦ absurd (ground (arith, unrecorded-complete stream w.left))
              | inl (runner, allowed) ↦
                  let still = not_closed stream env.closed_meanwhile calm in
                  (ground arith, ground arith)
            ]
    ]

append_bytes-Covered :
    (env : Environment) (a : AuthenticatedHost) (session placement : ℕ) (stream : Option Stream)
    (offset : ℕ) (bytes : List ℕ) (finished : Bool)
    → env.closed_meanwhile ≡ false
    → Covered (offset + length bytes) finished stream
    → Covered
        (offset + length bytes)
        finished
        ((append_bytes env a session placement stream offset bytes finished).0)
unfolding append_bytes
append_bytes-Covered env a session placement stream offset bytes finished calm before =
    elim (Result-cases (check_chunk env a session placement offset bytes)) [
      | inr (x, denied) ↦ rw (denied, append_bytes, Covered) before
      | inl (end, passed) ↦
          let (small, ends) = check_chunk-bounds env a session placement offset bytes end passed in
          rw (passed, append_bytes, Covered)
            (elim (Bool-cases (current stream).complete) [
              | inl complete ↦ rw (complete, Covered) before
              | inr going ↦
                  let recorded =
                    write_and_record-Covered env a session placement stream
                      (fresh_bytes (current stream).received offset bytes) end finished calm
                      going in
                  rw (going, Covered, ← ends) recorded
            ])
    ]

module _ (b : Base64) (a : AuthenticatedHost) (session placement : ℕ) where
  post-Covered :
      (env : Environment) (stream : Option Stream) (offset : ℕ) (bytes : List ℕ) (ended : Bool)
      → env.closed_meanwhile ≡ false
      → Covered (offset + length bytes) ended stream
      → Covered
          (offset + length bytes)
          ended
          ((post b a session placement env stream offset bytes ended).0)
  post-Covered env stream offset bytes ended calm before =
      rw (post-append_bytes b [] a session placement env stream offset bytes ended)
        (append_bytes-Covered env a session placement stream offset bytes ended calm before)

  -- What an answered chunk says of the stream and the attempts that are left.
  abbrev pub IsHeard : ℕ → Bool → Option Stream × Sent → Type 0
  IsHeard end ended (t, answered r rest) =
      Covered end ended t × (r.finished ≡ (current t).complete) × (closes rest ≡ false)
  IsHeard end ended (t, refused) = Unit {0}
  IsHeard end ended (t, dropped) = Unit {0}

  after_answer-IsHeard :
      (t : Option Stream) (end : ℕ) (ended : Bool) (again : Option Stream × Sent)
      (rest : List Attempt) (r : Result RegistryError RunnerOutputReceipt)
      → IsHeard end ended again
      → ((receipt : RunnerOutputReceipt)
          → r ≡ ok receipt
          → IsHeard end ended (t, answered receipt rest))
      → IsHeard end ended (after_answer t again rest r)
  after_answer-IsHeard t end ended again rest (ok receipt) later heard = heard receipt refl
  after_answer-IsHeard t end ended again rest (err forbidden) later heard = later
  after_answer-IsHeard t end ended again rest (err not_found) later heard = tt
  after_answer-IsHeard t end ended again rest (err invalid_credential) later heard = later
  after_answer-IsHeard t end ended again rest (err io_failure) later heard = later
  after_answer-IsHeard t end ended again rest (err database) later heard = later
  after_answer-IsHeard t end ended again rest (err (invalid_request why)) later heard = tt

  pub send-IsHeard :
      (stream : Option Stream) (offset : ℕ) (bytes : List ℕ) (ended : Bool)
      (schedule : List Attempt)
      → closes schedule ≡ false
      → Covered (offset + length bytes) ended stream
      → IsHeard
          (offset + length bytes)
          ended
          (send b a session placement stream offset bytes ended schedule)
  unfolding send
  send-IsHeard stream offset bytes ended [] calm before = tt
  send-IsHeard stream offset bytes ended (unauthorized ∷ rest) calm before =
      send-IsHeard stream offset bytes ended rest calm before
  send-IsHeard stream offset bytes ended (unreachable ∷ rest) calm before =
      send-IsHeard stream offset bytes ended rest calm before
  send-IsHeard stream offset bytes ended (answer_lost env ∷ rest) calm before =
      let t = (post b a session placement env stream offset bytes ended).0 in
      send-IsHeard t offset bytes ended rest (ground arith)
        (post-Covered env stream offset bytes ended (ground arith) before)
  send-IsHeard stream offset bytes ended (delivered env ∷ rest) calm before =
      let t = (post b a session placement env stream offset bytes ended).0 in
      let covered = post-Covered env stream offset bytes ended (ground arith) before in
      let later : closes rest ≡ false = ground arith in
      after_answer-IsHeard t (offset + length bytes) ended
        (send b a session placement t offset bytes ended rest) rest
        ((post b a session placement env stream offset bytes ended).1)
        (send-IsHeard t offset bytes ended rest later covered)
        (λ receipt e.
          let confirmed =
            post-Confirms b [] a session placement env stream offset bytes ended receipt rest e in
          (covered, confirmed.1, later))
