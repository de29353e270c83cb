-- ===== src/Output/Appended.antt =====
-- The streams that calls of `append_runner_output` in
-- crates/gridops-core/src/fleet/registry/output.rs make of what the runner sent.
use gridops.Prelude.{
  ℕ, ◌+◌, ◌-◌, ◌≤◌, ◌≡◌, sym, ap, ◌∙◌, Bool, true, inl, inr, Bool-cases, Option, none, some, List,
  ◌++◌, ok, Result-cases, length, take, min, max, arith, append_nil, length-drop, drop-length, leb,
  length-append,
}
use gridops.Output.Authority.{AuthenticatedHost, authorize_output}
use gridops.Output.Server.{
  Stream, current, write_file, Environment, fresh_bytes, append_bytes, write_and_record, unrecorded,
  is_closed, check_chunk, chunk_end, append_runner_output, Base64, max_output_chunk_bytes,
}
use gridops.Output.Stored.{
  IsFaithful, AllFaithful, no_stream-IsFaithful, IsChunkOf, IsKept, write_file-IsKept,
  write_file-left, write_file-IsWrittenFor, fresh_next,
}

current-IsFaithful :
    (out : List ℕ) (stream : Option Stream)
    → AllFaithful out stream
    → IsFaithful out (current stream)
current-IsFaithful out none f = no_stream-IsFaithful out
current-IsFaithful out (some s) f = f

kept-IsFaithful :
    (out : List ℕ) (s : Stream) (left : List ℕ) (complete : Bool)
    → IsFaithful out s
    → IsKept s left
    → IsFaithful out (record s { file = left; complete = complete })
kept-IsFaithful out s left complete f (inside, same) = record {
  in_file = inside;
  bounded = f.bounded;
  sent = f.sent;
  newest = rw same f.newest;
}

unrecorded-AllFaithful :
    (out : List ℕ) (stream : Option Stream) (left : List ℕ)
    → AllFaithful out stream
    → IsKept (current stream) left
    → AllFaithful out (unrecorded stream left)
unrecorded-AllFaithful out none left f kept = tt
unrecorded-AllFaithful out (some s) left f kept = kept-IsFaithful out s left s.complete f kept

closed-AllFaithful :
    (out : List ℕ) (stream : Option Stream) (left : List ℕ)
    → AllFaithful out stream
    → IsKept (current stream) left
    → AllFaithful out (some (record (current stream) { file = left; complete = true }))
closed-AllFaithful out stream left f kept =
    kept-IsFaithful out (current stream) left true (current-IsFaithful out stream f) kept

pub check_chunk-bounds :
    (env : Environment) (a : AuthenticatedHost) (session placement offset : ℕ) (bytes : List ℕ)
    (end : ℕ)
    → check_chunk env a session placement offset bytes ≡ ok end
    → (length bytes ≤ max_output_chunk_bytes) × (end ≡ offset + length bytes)
unfolding check_chunk chunk_end
check_chunk-bounds env a session placement offset bytes end e =
    elim (Result-cases (authorize_output env.registry a session placement env.now)) [
      | inl (runner, allowed) ↦ ground arith
      | inr (x, refused) ↦ ground arith
    ]

module _ (out : List ℕ) (env : Environment) (a : AuthenticatedHost) (session placement : ℕ)
    (stream : Option Stream) (faithful : AllFaithful out stream) where
  write_and_record-AllFaithful :
      (fresh : List ℕ) (end : ℕ) (finished : Bool)
      → length fresh ≤ max_output_chunk_bytes
      → max ((current stream).received) end ≤ length out
      → take (max ((current stream).received) end) out
        ≡ take ((current stream).received) out ++ fresh
      → AllFaithful out ((write_and_record env a session placement stream fresh end finished).0)
  unfolding write_and_record
  write_and_record-AllFaithful fresh end finished small inside next =
      let s = current stream in
      let f = current-IsFaithful out stream faithful in
      elim (Result-cases (write_file s fresh env.write)) [
        | inr (left, e) ↦
            rw (e, AllFaithful)
              (unrecorded-AllFaithful out stream left faithful
                (write_file-IsKept s fresh env.write left f.in_file e))
        | inl (w, e) ↦
            let kept = write_file-left s fresh env.write w f.in_file e in
            let written = write_file-IsWrittenFor out s fresh env.write w f small e in
            rw (e, AllFaithful)
              (elim (Result-cases
                (authorize_output env.later_registry a session placement env.later_now)) [
                  | inr (x, refused) ↦
                      rw (refused, AllFaithful)
                        (unrecorded-AllFaithful out stream w.left faithful kept)
                  | inl (runner, allowed) ↦
                      rw (allowed, AllFaithful)
                        (elim (Bool-cases (is_closed stream env.closed_meanwhile)) [
                          | inl closed ↦
                              rw (closed, AllFaithful)
                                (closed-AllFaithful out stream w.left faithful kept)
                          | inr open_ ↦
                              rw (open_, AllFaithful)
                                (record {
                                  in_file = written.in_file;
                                  bounded = written.bounded;
                                  sent = inside;
                                  newest = rw next written.newest;
                                })
                        ])
                ])
      ]

  -- The chunk's place in the output, whether it reaches past what was received or not.
  chunk-next :
      (offset : ℕ) (bytes : List ℕ)
      → IsChunkOf out offset bytes
      → offset ≤ (current stream).received
      → take (max (current stream).received (offset + length bytes)) out
        ≡ take (current stream).received out ++ fresh_bytes (current stream).received offset bytes
  chunk-next offset bytes chunk before =
      let received = (current stream).received in
      elim (Bool-cases (leb received (offset + length bytes))) [
        | inl within ↦
            let reaches : received ≤ offset + length bytes = ground arith in
            let end : max received (offset + length bytes) ≡ offset + length bytes = omega arith in
            ap (λ k. take k out) end ∙ fresh_next out received offset bytes chunk before reaches
        | inr over ↦
            let stops : offset + length bytes ≤ received = ground arith in
            let same : max received (offset + length bytes) ≡ received = omega arith in
            let skipped : min (received - offset) (length bytes) ≡ length bytes = omega arith in
            rw skipped (
              ap (λ k. take k out) same
              ∙ sym (append_nil (take received out))
              ∙ ap (λ l. take received out ++ l) (sym (drop-length bytes)))
      ]

  pub append_bytes-AllFaithful :
      (offset : ℕ) (bytes : List ℕ) (finished : Bool)
      → IsChunkOf out offset bytes
      → offset ≤ (current stream).received
      → AllFaithful out ((append_bytes env a session placement stream offset bytes finished).0)
  unfolding append_bytes
  append_bytes-AllFaithful offset bytes finished chunk before =
      let f = current-IsFaithful out stream faithful in
      elim (Result-cases (check_chunk env a session placement offset bytes)) [
        | inr (x, refused) ↦ rw (refused, AllFaithful) faithful
        | inl (end, passed) ↦
            let (small, ends) =
              check_chunk-bounds env a session placement offset bytes end passed in
            let (rest, split) = chunk in
            let inside : max (current stream).received end ≤ length out =
              omega (
                arith,
                f.sent,
                length-drop offset out,
                length-append bytes rest,
                ap length split,
              ) in
            rw (passed, AllFaithful)
              (elim (Bool-cases (current stream).complete) [
                | inl complete ↦ rw (complete, AllFaithful) faithful
                | inr going ↦
                    let received = (current stream).received in
                    let fresh = fresh_bytes received offset bytes in
                    let skip = min (received - offset) (length bytes) in
                    rw (going, AllFaithful)
                      (write_and_record-AllFaithful fresh end finished
                        (omega (arith, length-drop skip bytes)) inside
                        (rw ends (chunk-next offset bytes chunk before)))
              ])
      ]

-- The streams that calls of `append_runner_output` make of a runner's output, when the host sends
-- slices of it and leaves no gap: whichever way each call ends.
module _ (b : Base64) (out : List ℕ) where
  open b use {encode, decode-encode}

  pub data Appended : Option Stream → Type 1 where
    nothing_sent : Appended none
    after_call :
        (stream : Option Stream)
        → Appended stream
        → (env : Environment) (a : AuthenticatedHost) (session placement offset : ℕ)
        → (bytes : List ℕ) (finished : Bool) → IsChunkOf out offset bytes
        → offset ≤ (current stream).received
        → Appended (
            (append_runner_output b env a stream (record {
              authority_session_id = session;
              placement_id = placement;
              offset = offset;
              bytes = encode bytes;
              finished = finished;
            })).0)

  -- When every call of a runner's host carries a slice of the runner's output that starts at the
  -- offset received so far or before it, so that no call leaves a gap, then however the calls go,
  -- refused, failing half way, repeated, overlapping or closed meanwhile, the stream never records
  -- more than its cap, and its recorded bytes are the newest part of the output up to the received
  -- offset, each once.
  pub Appended-AllFaithful : (stream : Option Stream) → Appended stream → AllFaithful out stream
  unfolding append_runner_output
  Appended-AllFaithful none nothing_sent = tt
  Appended-AllFaithful end
        (after_call stream earlier env a session placement offset bytes finished chunk before) =
      rw (decode-encode bytes, AllFaithful)
        (append_bytes-AllFaithful out env a session placement stream
          (Appended-AllFaithful stream earlier) offset bytes finished chunk before)
