-- ===== src/Output/Delivery.antt =====
-- The agent's upload, crates/gridops-host-agent/src/output.rs, composed with the server's
-- crates/gridops-core/src/fleet/registry/output.rs: what reaches the log stream.
use gridops.Prelude.{
  ℕ, ◌+◌, ◌-◌, ◌≤◌, ◌≡◌, refl, sym, ap, ◌∙◌, inl, inr, ◌⊎◌, Bool, true, false, ◌||◌, Bool-cases,
  Option, List, [], ◌∷◌, ◌++◌, length, drop, min, arith, ltb, drop-append, drop-length_append,
  append_assoc, length-append, length-drop, drop_add,
}
use gridops.Output.Authority.{AuthenticatedHost}
use gridops.Output.Server.{Base64, Stream, current}
use gridops.Output.Stored.{AllFaithful, IsChunkOf}
use gridops.Output.Agent.{
  Attempt, Sent, answered, refused, dropped, Upload, send, after_sent, stream_from, stream_output,
  finished_upload, refused_upload, dropped_upload, caught_up,
}
use gridops.Output.Covering.{closes}
use gridops.Output.Finishing.{IsFinished, stream_output-IsFinished}
use gridops.Output.Sending.{Confirms, IsKeptBy, send-IsSentWell}

-- What the gathers read, in their order.
abbrev pub read_bytes : List (List ℕ × Bool) → List ℕ
read_bytes [] = []
read_bytes ((buffer, ended) ∷ gathers) = buffer ++ read_bytes gathers

-- An upload that gets to the end of what was read has all of it at the
-- server, and one that ends at a finished stream leaves it closed (`IsFinished` says what it has).
abbrev pub Reaches : Option Stream → ℕ → Upload → Type 0
Reaches t end caught_up = end ≤ (current t).received
Reaches t end finished_upload = (current t).complete ≡ true
Reaches t end refused_upload = Unit {0}
Reaches t end dropped_upload = Unit {0}

pub record IsDelivered (out : List ℕ) (end : ℕ) (p : Option Stream × Upload) : Type 0 where
  pub faithful : AllFaithful out p.0
  pub reaches : Reaches p.0 end p.1

module _ (b : Base64) (out : List ℕ) (a : AuthenticatedHost) (session placement : ℕ) where
  after_sent-IsDelivered :
      (go_on : ℕ → Option Stream → List Attempt → Option Stream × Upload) (stream t : Option Stream)
      (end goal : ℕ) (sent : Sent)
      → IsKeptBy out stream t
      → Confirms t end sent
      → ((confirmed : ℕ) (u : Option Stream) (rest : List Attempt)
          → AllFaithful out u
          → confirmed ≤ (current u).received
          → end ≤ confirmed
          → IsDelivered out goal (go_on confirmed u rest))
      → IsDelivered out goal (after_sent go_on (t, sent))
  after_sent-IsDelivered go_on stream t end goal (answered receipt rest) kept
        (same, closed, inr covers) next =
      elim (Bool-cases receipt.finished) [
        | inl over ↦ rw over (record { faithful = kept.faithful; reaches = sym closed ∙ over })
        | inr open_ ↦ rw open_ (next receipt.received t rest kept.faithful (omega arith) covers)
      ]
  after_sent-IsDelivered go_on stream t end goal (answered receipt rest) kept
        (same, closed, inl over) next =
      rw over (record { faithful = kept.faithful; reaches = sym closed ∙ over })
  after_sent-IsDelivered go_on stream t end goal refused kept c next = record {
    faithful = kept.faithful;
    reaches = tt;
  }
  after_sent-IsDelivered go_on stream t end goal dropped kept c next = record {
    faithful = kept.faithful;
    reaches = tt;
  }

  unsent-IsChunkOf :
      (position skip : ℕ) (buffer more : List ℕ)
      → drop position out ≡ buffer ++ more
      → skip ≤ length buffer
      → IsChunkOf out (position + skip) (drop skip buffer)
  unsent-IsChunkOf position skip buffer more at small =
      (more, drop_add position skip out ∙ ap (drop skip) at ∙ drop-append skip buffer more small)

  next_position :
      (position : ℕ) (buffer more : List ℕ)
      → drop position out ≡ buffer ++ more
      → drop (position + length buffer) out ≡ more
  next_position position buffer more at =
      drop_add position (length buffer) out
      ∙ ap (drop (length buffer)) at
      ∙ drop-length_append buffer more

  stream_from-IsDelivered :
      (position received : ℕ) (stream : Option Stream) (schedule : List Attempt)
      (gathers : List (List ℕ × Bool)) (rest : List ℕ)
      → AllFaithful out stream
      → received ≤ (current stream).received
      → position ≤ received
      → drop position out ≡ read_bytes gathers ++ rest
      → IsDelivered out
          (position + length (read_bytes gathers))
          (stream_from b a session placement position received stream schedule gathers)
  unfolding stream_from
  stream_from-IsDelivered position received stream schedule [] rest f known ahead at = record {
    faithful = f;
    reaches = omega arith;
  }
  stream_from-IsDelivered position received stream schedule ((buffer, ended) ∷ gathers) rest f known
        ahead at =
      let skip = min (received - position) (length buffer) in
      let next = position + length buffer in
      let fresh = drop skip buffer in
      let long : length (drop skip buffer) ≡ length buffer - skip = length-drop skip buffer in
      let split : drop position out ≡ buffer ++ (read_bytes gathers ++ rest) =
        at ∙ append_assoc buffer (read_bytes gathers) rest in
      let total : position + length (buffer ++ read_bytes gathers)
          ≡ next + length (read_bytes gathers) =
        omega (arith, length-append buffer (read_bytes gathers)) in
      let onward = next_position position buffer (read_bytes gathers ++ rest) split in
      rw total (elim (Bool-cases (ltb skip (length buffer) || ended)) [
        | inr quiet ↦ rw quiet (
            stream_from-IsDelivered next received stream schedule gathers rest f known
              (ground arith) onward)
        | inl loud ↦
            let (kept, confirmed) =
              send-IsSentWell b out a session placement stream (position + skip) fresh ended
                schedule f
                (unsent-IsChunkOf position skip buffer (read_bytes gathers ++ rest) split
                  (omega arith))
                (omega arith) in
            let (t, sent) =
              send b a session placement stream (position + skip) fresh ended schedule in
            rw loud (
              after_sent-IsDelivered
                (λ confirmed u more.
                  stream_from b a session placement next confirmed u more gathers)
                stream t (position + skip + length fresh) (next + length (read_bytes gathers)) sent
                kept confirmed
                (λ c u more g k e.
                  stream_from-IsDelivered next c u more gathers rest g k (omega arith) onward))
      ])

stream_output-Reaches :
    (b : Base64) (out : List ℕ) (a : AuthenticatedHost) (session placement : ℕ)
    (stream : Option Stream) (schedule : List Attempt) (gathers : List (List ℕ × Bool))
    (rest : List ℕ)
    → AllFaithful out stream
    → out ≡ read_bytes gathers ++ rest
    → IsDelivered out
        (length (read_bytes gathers))
        (stream_output b a session placement stream schedule gathers)
unfolding stream_output
stream_output-Reaches b out a session placement stream schedule gathers rest f at =
    let whole = read_bytes gathers in
    let (kept, confirmed) =
      send-IsSentWell b out a session placement stream 0 [] false schedule f (out, refl)
        (omega arith) in
    let (t, sent) = send b a session placement stream 0 [] false schedule in
    after_sent-IsDelivered b out a session placement
      (λ c u more. stream_from b a session placement 0 c u more gathers) stream t (0 + 0)
      (length whole) sent kept confirmed
      (λ c u more g k e.
        let zero_start : 0 + length whole ≡ length whole = omega arith in
        let delivered_all =
          stream_from-IsDelivered b out a session placement 0 c u more gathers rest g k
            (omega arith) at in
        rw zero_start at delivered_all)

-- Someone else closed the stream: before the upload, or between the two transactions of an attempt.
abbrev pub IsClosedElsewhere : Option Stream → List Attempt → Type 0
IsClosedElsewhere stream schedule = ((current stream).complete ≡ true) ⊎ (closes schedule ≡ true)

stream_output_ends :
    (b : Base64) (a : AuthenticatedHost) (session placement : ℕ) (stream : Option Stream)
    (schedule : List Attempt) (gathers : List (List ℕ × Bool))
    → IsFinished 0 (stream_output b a session placement stream schedule gathers) gathers
      ⊎ IsClosedElsewhere stream schedule
stream_output_ends b a session placement stream schedule gathers =
    elim (Bool-cases (current stream).complete) [
      | inl complete ↦ inr (inl complete)
      | inr going ↦ elim (Bool-cases (closes schedule)) [
        | inl meanwhile ↦ inr (inr meanwhile)
        | inr calm ↦
            inl (stream_output-IsFinished b a session placement stream schedule gathers calm going)
      ]
    ]

-- One upload of a runner's output, read from its start, to a stream that an earlier session or a
-- restarted agent left faithful to that output, with requests and answers lost, authority lapsing
-- and file writes failing in any order: the stream stays faithful to the output. An upload that
-- comes to the end of what it read leaves the server with all of that received. One that ends at a
-- finished stream leaves it closed, with the end of the log read and all of the output up to it
-- received, unless someone else closed the stream: before the upload, or between the two
-- transactions of a request of the schedule.
pub stream_output-IsDelivered :
    (b : Base64) (out : List ℕ) (a : AuthenticatedHost) (session placement : ℕ)
    (stream : Option Stream) (schedule : List Attempt) (gathers : List (List ℕ × Bool))
    (rest : List ℕ)
    → AllFaithful out stream
    → out ≡ read_bytes gathers ++ rest
    → IsDelivered out
        (length (read_bytes gathers))
        (stream_output b a session placement stream schedule gathers)
      × (IsFinished 0 (stream_output b a session placement stream schedule gathers) gathers
          ⊎ IsClosedElsewhere stream schedule)
stream_output-IsDelivered b out a session placement stream schedule gathers rest f at = (
  stream_output-Reaches b out a session placement stream schedule gathers rest f at,
  stream_output_ends b a session placement stream schedule gathers,
)
