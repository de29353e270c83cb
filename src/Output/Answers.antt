-- ===== src/Output/Answers.antt =====
-- What `append_runner_output` of crates/gridops-core/src/fleet/registry/output.rs answers, and what
-- a call that fails leaves.
use gridops.Prelude.{
  ◌⊎◌, true, ℕ, ◌+◌, ◌≤◌, ◌≡◌, refl, Bool, inl, inr, Bool-cases, Option, none, some, List, ok, err,
  Result-cases, length, arith,
}
use gridops.Output.Authority.{RegistryError, AuthenticatedHost, authorize_output}
use gridops.Output.Server.{
  Stream, current, write_file, Environment, fresh_bytes, append_bytes, write_and_record, unrecorded,
  check_chunk, RunnerOutputReceipt,
}
use gridops.Output.Stored.{IsKept, write_file-IsKept, write_file-left}
use gridops.Output.Appended.{check_chunk-bounds}

-- The answer agrees with the stream that the call leaves, and covers the chunk that ended at `end`
-- unless the stream is closed.
pub record IsAnswered (t : Option Stream) (end : ℕ) (r : RunnerOutputReceipt) : Type 0 where
  pub received : (current t).received ≡ r.received
  pub finished : (current t).complete ≡ r.finished
  pub covers : (r.finished ≡ true) ⊎ (end ≤ r.received)

write_and_record-IsAnswered :
    (env : Environment) (a : AuthenticatedHost) (session placement : ℕ) (stream t : Option Stream)
    (fresh : List ℕ) (end : ℕ) (finished : Bool) (r : RunnerOutputReceipt)
    → write_and_record env a session placement stream fresh end finished ≡ (t, ok r)
    → IsAnswered t end r
unfolding write_and_record
write_and_record-IsAnswered env a session placement stream t fresh end finished r e =
    elim (Result-cases (write_file (current stream) fresh env.write)) [
      | inr (left, broken) ↦ ground arith
      | inl (w, written) ↦
          elim (Result-cases
            (authorize_output env.later_registry a session placement env.later_now)) [
              | inr (x, refused) ↦ ground arith
              | inl (runner, allowed) ↦ record {
                received = ground arith;
                finished = ground arith;
                covers = ground arith;
              }
            ]
    ]

-- A call that succeeds answers with the offset and the closing that the stream now has, and unless
-- the stream is closed, the whole chunk is covered by the offset.
pub append_bytes-IsAnswered :
    (env : Environment) (a : AuthenticatedHost) (session placement : ℕ) (stream t : Option Stream)
    (offset : ℕ) (bytes : List ℕ) (finished : Bool) (r : RunnerOutputReceipt)
    → append_bytes env a session placement stream offset bytes finished ≡ (t, ok r)
    → IsAnswered t (offset + length bytes) r
unfolding append_bytes
append_bytes-IsAnswered env a session placement stream t offset bytes finished r e =
    elim (Result-cases (check_chunk env a session placement offset bytes)) [
      | inr (x, refused) ↦ ground arith
      | inl (end, passed) ↦
          let (small, ends) = check_chunk-bounds env a session placement offset bytes end passed in
          elim (Bool-cases (current stream).complete) [
            | inl complete ↦ record {
              received = ground arith;
              finished = ground arith;
              covers = ground arith;
            }
            | inr going ↦
                let answered =
                  write_and_record-IsAnswered env a session placement stream t
                    (fresh_bytes (current stream).received offset bytes) end finished r
                    (ground arith) in
                rw ends at answered
          ]
    ]

-- The record of a stream is what it was; its file may have grown past the recorded bytes.
pub record IsUnrecorded (stream t : Option Stream) : Type 0 where
  pub same : current t ≡ record (current stream) { file = (current t).file }
  pub kept : IsKept (current stream) ((current t).file)

unrecorded-IsUnrecorded :
    (stream : Option Stream) (left : List ℕ)
    → IsKept (current stream) left
    → IsUnrecorded stream (unrecorded stream left)
unrecorded-IsUnrecorded none left kept = record { same = refl; kept = ground arith }
unrecorded-IsUnrecorded (some s) left kept = record { same = refl; kept = kept }

write_and_record-IsUnrecorded :
    (env : Environment) (a : AuthenticatedHost) (session placement : ℕ) (stream t : Option Stream)
    (fresh : List ℕ) (end : ℕ) (finished : Bool) (x : RegistryError)
    → (current stream).size ≤ length (current stream).file
    → write_and_record env a session placement stream fresh end finished ≡ (t, err x)
    → IsUnrecorded stream t
unfolding write_and_record
write_and_record-IsUnrecorded env a session placement stream t fresh end finished x inside e =
    elim (Result-cases (write_file (current stream) fresh env.write)) [
      | inr (left, broken) ↦
          let same : unrecorded stream left ≡ t = ground arith in
          rw (← same) (
            unrecorded-IsUnrecorded stream left
              (write_file-IsKept (current stream) fresh env.write left inside broken))
      | inl (w, written) ↦
          elim (Result-cases
            (authorize_output env.later_registry a session placement env.later_now)) [
              | inr (y, refused) ↦
                  let same : unrecorded stream w.left ≡ t = ground arith in
                  rw (← same) (
                    unrecorded-IsUnrecorded stream w.left
                      (write_file-left (current stream) fresh env.write w inside written))
              | inl (runner, allowed) ↦ ground arith
            ]
    ]

-- A call that fails records nothing: the recorded size, offset and closing are what they were, and
-- so are the recorded bytes of the file.
pub append_bytes-IsUnrecorded :
    (env : Environment) (a : AuthenticatedHost) (session placement : ℕ) (stream t : Option Stream)
    (offset : ℕ) (bytes : List ℕ) (finished : Bool) (x : RegistryError)
    → (current stream).size ≤ length (current stream).file
    → append_bytes env a session placement stream offset bytes finished ≡ (t, err x)
    → IsUnrecorded stream t
unfolding append_bytes
append_bytes-IsUnrecorded env a session placement stream t offset bytes finished x inside e =
    elim (Result-cases (check_chunk env a session placement offset bytes)) [
      | inr (y, refused) ↦
          let same : stream ≡ t = ground arith in
          rw (← same) (record { same = refl; kept = (inside, refl) })
      | inl (end, passed) ↦ elim (Bool-cases (current stream).complete) [
        | inl complete ↦ ground arith
        | inr going ↦
            write_and_record-IsUnrecorded env a session placement stream t
              (fresh_bytes (current stream).received offset bytes) end finished x inside
              (ground arith)
      ]
    ]
