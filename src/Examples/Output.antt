-- ===== src/Examples/Output.antt =====
-- Output of one runner, crates/gridops-core/src/fleet/registry/output.rs.
use gridops.Prelude.{
  ◌⊎◌, ℕ, ◌+◌, ◌≡◌, refl, Bool, true, false, none, some, [], ◌∷◌, List, ok, err, arith,
}
use gridops.Prelude.Int.{pos}
use gridops.Domain.Host.{approved, active, EnrollmentState-discrete, HostIntent-discrete}
use gridops.Output.Authority.{
  HostRow, Credential, PlacementRow, Registry, AuthenticatedHost, is_current, count_hosts,
  count_current, ensure_authenticated_generation, has_authority, is_runner, find_runner,
  authorize_output, forbidden,
}
use gridops.Output.Authority.Laws.{Owns, authorize_output-Owns}
use gridops.Output.Server.{
  Base64, Stream, RunnerOutputReceipt, whole, Environment, write_fresh, write_file, chunk_end,
  check_chunk, write_and_record, append_bytes, append_runner_output,
}
use gridops.Output.Stored.{AllFaithful}
use gridops.Output.Appended.{Appended, nothing_sent, after_call, Appended-AllFaithful}
use gridops.Output.Agent.{
  Attempt, unauthorized, unreachable, answer_lost, delivered, finished_upload, send, stream_from,
  stream_output,
}
use gridops.Output.Finishing.{IsFinished}
use gridops.Output.Delivery.{IsDelivered, IsClosedElsewhere, stream_output-IsDelivered}
use gridops.Output.Answers.{
  IsAnswered, IsUnrecorded, append_bytes-IsAnswered, append_bytes-IsUnrecorded,
}

abbrev host : HostRow
host = record {
  id = 1;
  epoch = 4;
  agent_session_id = some 50;
  authority_expires_at = some (pos 9000);
  enrollment_state = approved;
  lifecycle_state = active;
}

abbrev credential : Credential
credential = record {
  id = 2;
  host_id = 1;
  generation = 3;
  host_epoch = 4;
  revoked_at = none;
  overlap_expires_at = none;
}

abbrev placement_row : PlacementRow
placement_row = record { id = 6; host_id = 1; host_epoch = 4; runner_id = some 7 }

abbrev registry : Registry
registry = record {
  hosts = host ∷ [];
  credentials = credential ∷ [];
  placements = placement_row ∷ [];
  runners = 7 ∷ [];
}

abbrev caller : AuthenticatedHost
caller = record { host_id = 1; credential_id = 2; generation = 3; epoch = 4 }

authorized : authorize_output registry caller 50 6 (pos 8000) ≡ ok 7
unfolding authorize_output ensure_authenticated_generation has_authority find_runner is_runner
    count_current count_hosts is_current EnrollmentState-discrete HostIntent-discrete
authorized = refl

authorize_output-Owns_example : Owns registry caller 50 6 (pos 8000) 7
authorize_output-Owns_example = authorize_output-Owns registry caller 50 6 (pos 8000) 7 authorized

-- Both transactions see the live session.
abbrev calm : Environment
calm = record {
  registry = registry;
  now = pos 8000;
  write = whole;
  later_registry = registry;
  later_now = pos 8010;
  closed_meanwhile = false;
}

-- The session expires while the file is written.
abbrev late : Environment
late = record calm { later_now = pos 9500 }

abbrev one_line : Stream
one_line = record { file = 104 ∷ 10 ∷ []; size = 2; received = 2; complete = false }

abbrev two_lines : Stream
two_lines = record { file = 104 ∷ 10 ∷ 111 ∷ 10 ∷ []; size = 4; received = 4; complete = false }

abbrev receipt : RunnerOutputReceipt
receipt = record { received = 4; finished = false }

appended :
    append_bytes calm caller 50 6 (some one_line) 1 (10 ∷ 111 ∷ 10 ∷ []) false
    ≡ (some two_lines, ok receipt)
unfolding append_bytes check_chunk chunk_end write_and_record write_file write_fresh
    authorize_output ensure_authenticated_generation has_authority find_runner is_runner
    count_current count_hosts is_current EnrollmentState-discrete HostIntent-discrete
appended = refl

append_bytes-IsAnswered_example : IsAnswered (some two_lines) (1 + 3) receipt
append_bytes-IsAnswered_example =
    append_bytes-IsAnswered calm caller 50 6 (some one_line) (some two_lines) 1 (10 ∷ 111 ∷ 10 ∷ [])
      false receipt appended

expired :
    append_bytes late caller 50 6 (some one_line) 1 (10 ∷ 111 ∷ 10 ∷ []) false
    ≡ (some (record one_line { file = 104 ∷ 10 ∷ 111 ∷ 10 ∷ [] }), err forbidden)
unfolding append_bytes check_chunk chunk_end write_and_record write_file write_fresh
    authorize_output ensure_authenticated_generation has_authority find_runner is_runner
    count_current count_hosts is_current EnrollmentState-discrete HostIntent-discrete
expired = refl

append_bytes-IsUnrecorded_example :
    IsUnrecorded (some one_line) (some (record one_line { file = 104 ∷ 10 ∷ 111 ∷ 10 ∷ [] }))
append_bytes-IsUnrecorded_example =
    append_bytes-IsUnrecorded late caller 50 6 (some one_line)
      (some (record one_line { file = 104 ∷ 10 ∷ 111 ∷ 10 ∷ [] })) 1 (10 ∷ 111 ∷ 10 ∷ []) false
      forbidden (ground arith) expired

-- A text that spells each byte as itself.
abbrev plain : Base64
plain = record {
  Text = List ℕ;
  encode = λ bytes. bytes;
  decode = λ text. some text;
  decode-encode = λ bytes. refl;
}

abbrev output : List ℕ
output = 104 ∷ 10 ∷ 111 ∷ 10 ∷ []

-- The first chunk arrives, the second is lost to an expired session, and is sent again.
history : Appended plain output (some (record two_lines { complete = true }))
unfolding append_runner_output append_bytes check_chunk chunk_end write_and_record write_file
    write_fresh authorize_output ensure_authenticated_generation has_authority find_runner is_runner
    count_current count_hosts is_current EnrollmentState-discrete HostIntent-discrete
history =
    after_call (some (record one_line { file = output }))
      (after_call (some one_line)
        (after_call none nothing_sent calm caller 50 6 0 (104 ∷ 10 ∷ []) false (111 ∷ 10 ∷ [], refl)
          (ground arith))
        late caller 50 6 2 (111 ∷ 10 ∷ []) false ([], refl) (ground arith))
      calm caller 50 6 2 (111 ∷ 10 ∷ []) true ([], refl) (ground arith)

Appended-AllFaithful_example : AllFaithful output (some (record two_lines { complete = true }))
Appended-AllFaithful_example =
    Appended-AllFaithful plain output (some (record two_lines { complete = true })) history

-- The first attempt waits for authority, the second is answered into the void, the third arrives.
abbrev attempts : List Attempt
attempts =
    unauthorized
    ∷ delivered calm
    ∷ answer_lost calm
    ∷ unreachable
    ∷ delivered calm
    ∷ delivered calm
    ∷ []

abbrev reads : List (List ℕ × Bool)
reads = (104 ∷ 10 ∷ 111 ∷ [], false) ∷ (10 ∷ [], true) ∷ []

stream_output-IsDelivered_example :
    IsDelivered output 4 (stream_output plain caller 50 6 none attempts reads)
    × (IsFinished 0 (stream_output plain caller 50 6 none attempts reads) reads
        ⊎ IsClosedElsewhere none attempts)
stream_output-IsDelivered_example =
    stream_output-IsDelivered plain output caller 50 6 none attempts reads [] tt refl

uploaded :
    stream_output plain caller 50 6 none attempts reads
    ≡ (some (record two_lines { complete = true }), finished_upload)
unfolding stream_output stream_from send append_runner_output append_bytes check_chunk chunk_end
    write_and_record write_file write_fresh authorize_output ensure_authenticated_generation
    has_authority find_runner is_runner count_current count_hosts is_current
    EnrollmentState-discrete HostIntent-discrete
uploaded = refl
