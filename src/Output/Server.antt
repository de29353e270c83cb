-- ===== src/Output/Server.antt =====
-- `append_runner_output` of crates/gridops-core/src/fleet/registry/output.rs for one placement.
-- The stream's file is the bytes at the recorded path: a trimmed stream moves to a new path, which
-- differs from the old one, and the loser of the two files is deleted. The environment of a call
-- says what both transactions see of the registry, how the file write ends, and whether the stream
-- was closed between the two.
use gridops.Prelude.{
  ℕ, suc, ◌+◌, ◌-◌, Bool, true, false, Option, none, some, List, [], ◌∷◌, ◌≡◌, ◌++◌, Result, ok,
  err, ◌>>=◌, ◌>>◌, fail_if, ok_or, ltb, leb, ◌==◌, if◌then◌else◌, length, take, drop, replicate,
  min, max, i64_max, u64_max, checked_add_within,
}
use gridops.Prelude.Int.{ℤ}
use gridops.Output.Authority.{
  RegistryError, invalid_request, io_failure, Registry, AuthenticatedHost, authorize_output,
}

abbrev pub max_output_chunk_bytes : ℕ
max_output_chunk_bytes = 262144

abbrev pub max_stream_bytes : ℕ
max_stream_bytes = 33554432

abbrev pub keep_stream_bytes : ℕ
keep_stream_bytes = 16777216

-- The base64 of the `base64` crate: a text has one decoding at most, and decoding undoes encoding.
pub record Base64 : Type 1 where
  pub Text : Type 0
  pub encode : List ℕ → Text
  pub decode : Text → Option (List ℕ)
  pub decode-encode : (bytes : List ℕ) → decode (encode bytes) ≡ some bytes

-- A placement's stream: the row of `log_streams` and `fleet_output_streams`, and its file.
pub record Stream : Type 0 where
  pub file : List ℕ
  pub size : ℕ
  pub received : ℕ
  pub complete : Bool

pub record RunnerOutputReceipt : Type 0 where
  pub received : ℕ
  pub finished : Bool

-- How the write of the file ends: whole, by a failure to open it, or by one after some bytes.
pub data FileWrite : Type 0 where
  whole : FileWrite
  unopened : FileWrite
  broken_after : ℕ → FileWrite

pub record Environment : Type 0 where
  pub registry : Registry
  pub now : ℤ
  pub write : FileWrite
  pub later_registry : Registry
  pub later_now : ℤ
  pub closed_meanwhile : Bool

-- A placement whose first chunk is still to come has no stream.
abbrev pub no_stream : Stream
no_stream = record { file = []; size = 0; received = 0; complete = false }

abbrev pub current : Option Stream → Stream
current none = no_stream
current (some s) = s

-- `file.set_len(size)`, which fills up with zero bytes.
abbrev pub set_len : ℕ → List ℕ → List ℕ
set_len n file = take n file ++ replicate (n - length file) 0

-- The index after the first newline, or 0.
unfoldable pub after_newline : List ℕ → Option ℕ
after_newline [] = none
after_newline (b ∷ bs) =
    if b == 10 then some 1 else elim (after_newline bs) [ none ↦ none | some n ↦ some (suc n) ]

abbrev pub start_of_line : Option ℕ → ℕ
start_of_line none = 0
start_of_line (some n) = n

-- `newest_output`.
unfoldable pub newest_output : List ℕ → ℕ → List ℕ → List ℕ
newest_output file size fresh =
    let kept = min (keep_stream_bytes - length fresh) size in
    let output = take kept (drop (size - kept) file) ++ fresh in
    drop (start_of_line (after_newline output)) output

-- What the write does: the file left behind if the recording fails, the file if it succeeds, and
-- its recorded size.
pub record Written : Type 0 where
  pub left : List ℕ
  pub file : List ℕ
  pub size : ℕ

unfoldable pub write_fresh : Stream → List ℕ → Written
write_fresh s fresh =
    if leb (s.size + length fresh) max_stream_bytes
    then record {
      left = set_len s.size s.file ++ fresh;
      file = set_len s.size s.file ++ fresh;
      size = s.size + length fresh;
    }
    else record {
      left = s.file;
      file = newest_output s.file s.size fresh;
      size = length (newest_output s.file s.size fresh);
    }

-- The file after a write that fails half way. A trim fails on its new file.
unfoldable pub write_broken : Stream → List ℕ → ℕ → List ℕ
write_broken s fresh n =
    if leb (s.size + length fresh) max_stream_bytes
    then set_len s.size s.file ++ take n fresh
    else s.file

-- What the write leaves, or the file after a failure. Nothing is opened for no fresh bytes.
unfoldable pub write_file : Stream → List ℕ → FileWrite → Result (List ℕ) Written
write_file s [] ending = ok (record { left = s.file; file = s.file; size = s.size })
write_file s (b ∷ bs) whole = ok (write_fresh s (b ∷ bs))
write_file s (b ∷ bs) unopened = err s.file
write_file s (b ∷ bs) (broken_after n) = err (write_broken s (b ∷ bs) n)

-- The end of the chunk in the runner's output, if it is in range.
unfoldable pub chunk_end : ℕ → List ℕ → Result RegistryError ℕ
chunk_end offset bytes = do
  end ←
      ok_or (checked_add_within u64_max offset (length bytes))
        (invalid_request "runner output offset is too large")
  fail_if (ltb i64_max end) (invalid_request "runner output offset is too large")
  ok end

-- A call leaves the stream, if there is one now, and its answer.
abbrev pub Answer : Type 0
Answer = Option Stream × Result RegistryError RunnerOutputReceipt

-- A stream that no chunk has recorded yet has no file to speak of.
abbrev pub unrecorded : Option Stream → List ℕ → Option Stream
unrecorded none left = none
unrecorded (some s) left = some (record s { file = left })

-- A new stream is inserted by the transaction that records it, so nobody can have closed it.
abbrev pub is_closed : Option Stream → Bool → Bool
is_closed none closed = false
is_closed (some s) closed = closed

-- The write and the second transaction, `record_output`.
unfoldable pub write_and_record :
    Environment → AuthenticatedHost → ℕ → ℕ → Option Stream → List ℕ → ℕ → Bool → Answer
write_and_record env a session placement stream fresh end finished =
    let s = current stream in
    elim (write_file s fresh env.write) [
      | err left ↦ (unrecorded stream left, err io_failure)
      | ok w ↦ elim (authorize_output env.later_registry a session placement env.later_now) [
        | err e ↦ (unrecorded stream w.left, err e)
        | ok runner ↦
            if is_closed stream env.closed_meanwhile
            then (
              some (record s { file = w.left; complete = true }),
              ok (record { received = s.received; finished = true }),
            )
            else (
              some (record {
                file = w.file;
                size = w.size;
                received = max s.received end;
                complete = finished;
              }),
              ok (record { received = max s.received end; finished = finished }),
            )
      ]
    ]

-- The bytes of the chunk that the stream does not have yet.
abbrev pub fresh_bytes : ℕ → ℕ → List ℕ → List ℕ
fresh_bytes received offset bytes = drop (min (received - offset) (length bytes)) bytes

-- The guards of the first transaction, in their order; a chunk that passes them ends somewhere.
unfoldable pub check_chunk :
    Environment → AuthenticatedHost → ℕ → ℕ → ℕ → List ℕ → Result RegistryError ℕ
check_chunk env a session placement offset bytes = do
  fail_if (ltb max_output_chunk_bytes (length bytes))
      (invalid_request "runner output chunk is too large")
  end ← chunk_end offset bytes
  runner ← authorize_output env.registry a session placement env.now
  ok end

-- From the decoded bytes on.
unfoldable pub append_bytes :
    Environment → AuthenticatedHost → ℕ → ℕ → Option Stream → ℕ → List ℕ → Bool → Answer
append_bytes env a session placement stream offset bytes finished =
    elim (check_chunk env a session placement offset bytes) [
      | err e ↦ (stream, err e)
      | ok end ↦
          let s = current stream in
          if s.complete
          then (stream, ok (record { received = s.received; finished = true }))
          else write_and_record env a session placement stream (fresh_bytes s.received offset bytes)
              end finished
    ]

module _ (b : Base64) where
  open b use {Text, decode}

  pub record RunnerOutputChunk : Type 0 where
    pub authority_session_id : ℕ
    pub placement_id : ℕ
    pub offset : ℕ
    pub bytes : Text
    pub finished : Bool

  unfoldable pub append_runner_output :
      Environment → AuthenticatedHost → Option Stream → RunnerOutputChunk → Answer
  append_runner_output env a stream chunk = elim (decode chunk.bytes) [
    | none ↦ (stream, err (invalid_request "runner output is not base64"))
    | some bytes ↦
        append_bytes env a chunk.authority_session_id chunk.placement_id stream chunk.offset bytes
          chunk.finished
  ]
