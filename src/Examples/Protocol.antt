-- ===== src/Examples/Protocol.antt =====
-- Limits, a renewal and a chunk, crates/gridops-core/src/fleet/protocol.
use gridops.Prelude.{
  ℕ, ◌+◌, ◌≤◌, ◌<◌, ◌≡◌, refl, inl, false, some, List, [], ◌∷◌, ok, arith, length, ℕ_discrete,
}
use gridops.Protocol.Limits.{LimitsConfig, default_limits, try_from}
use gridops.Protocol.Renewal.{
  ExpectedAgentSession, AuthorityRenewal, PendingRenewal, new, accept, from_millis, Answers,
  accept_iff,
}
use gridops.Protocol.Chunks.{Codec, TransferChunk, RawChunk, log, into_raw}
use gridops.Protocol.Chunks as Chunks
use gridops.Protocol.Chunks.Laws.{IsWellFormed, try_from-chunk_iff}

abbrev lower_limits : LimitsConfig
lower_limits = record default_limits { poll_ms = 5000; page_size = 10; stale_ms = 40000 }

abbrev agent_session : ExpectedAgentSession
agent_session = record {
  host_id = 1;
  host_epoch = 1;
  control_plane_incarnation = 8;
  authority_session_id = 5;
}

abbrev reply : AuthorityRenewal
reply = record {
  request_id = 3;
  host_id = 1;
  host_epoch = 1;
  control_plane_incarnation = 8;
  authority_session_id = 5;
  authority_ttl_ms = 90000;
}

abbrev pending : PendingRenewal
pending = record {
  request_id = 3;
  session = agent_session;
  started = 1000;
  request_deadline = 25000001000;
}

made : new 1000000000000 3 agent_session 1000 25000 ≡ ok pending
unfolding new
made = refl

accepted : accept 1000000000000 pending reply 10000000000 ≡ ok 90000001000
unfolding accept
accepted = refl

accept_iff_example :
    Answers pending reply
    × (90000001000 ≡ 1000 + from_millis 90000)
    × (90000001000 ≤ 1000000000000)
    × (1000 ≤ 10000000000)
    × (10000000000 < 1000 + from_millis 25000)
    × (10000000000 < 90000001000)
accept_iff_example =
    (accept_iff 1000000000000 3 agent_session 1000 25000 pending reply 10000000000 90000001000
        made).0
      accepted

Texts_discrete : Discrete (List ℕ)
unfolding ℕ_discrete
Texts_discrete = hlevel ℕ_discrete

abbrev plain_codec : Codec
plain_codec = record {
  Text = List ℕ;
  text_length = λ text. length text;
  text_discrete = Texts_discrete;
  encode = λ bytes. bytes;
  decode = λ text. some text;
  sha256 = λ bytes. length bytes ∷ [];
  decode-encode = λ bytes. refl;
  length-encode = λ bytes. omega arith;
}

abbrev chunk : TransferChunk
chunk = record {
  stream = log 4;
  owner = record { placement_id = 1; backend_id = 2; generation = 1 };
  offset = 128;
  bytes = 104 ∷ 105 ∷ [];
  eof = false;
  gap = some (record { from = 100; to = 128 });
}

chunk-IsWellFormed : IsWellFormed chunk
chunk-IsWellFormed = record {
  sized = ground arith;
  placed = record {
    end_bounded = ground arith;
    gap_fits = (refl, ground arith, refl);
    says_something = inl (ground arith);
  };
}

try_from-chunk_iff_example : Chunks.try_from plain_codec (into_raw plain_codec chunk) ≡ ok chunk
try_from-chunk_iff_example =
    (try_from-chunk_iff plain_codec (into_raw plain_codec chunk) chunk).1 (refl, chunk-IsWellFormed)
