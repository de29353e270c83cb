-- ===== src/Output/Finishing.antt =====
-- Uploads of crates/gridops-host-agent/src/output.rs that end at a finished stream of
-- crates/gridops-core/src/fleet/registry/output.rs.
use gridops.Prelude.{
  ℕ, ◌+◌, ◌-◌, ◌≤◌, ◌≡◌, refl, sym, ◌∙◌, inl, inr, Bool, true, false, ◌||◌, Bool-cases, Option,
  List, [], ◌∷◌, ◌++◌, length, drop, min, arith, ltb, length-append, length-drop,
}
use gridops.Output.Authority.{AuthenticatedHost}
use gridops.Output.Server.{Base64, Stream, current}
use gridops.Output.Agent.{
  Attempt, Sent, answered, refused, dropped, Upload, finished_upload, refused_upload,
  dropped_upload, caught_up, send, after_sent, stream_from, stream_output,
}
use gridops.Output.Covering.{closes, IsHeard, send-IsHeard}

-- The output that was read up to the end of the log, and whether that end was read.
abbrev pub read_until_end : List (List ℕ × Bool) → List ℕ
read_until_end [] = []
read_until_end ((buffer, true) ∷ gathers) = buffer
read_until_end ((buffer, false) ∷ gathers) = buffer ++ read_until_end gathers

abbrev pub has_end : List (List ℕ × Bool) → Bool
has_end [] = false
has_end ((buffer, true) ∷ gathers) = true
has_end ((buffer, false) ∷ gathers) = has_end gathers

-- An upload that ends at a finished stream has read the end of the log, and the server has received
-- all of the output up to it.
abbrev pub IsFinished : ℕ → Option Stream × Upload → List (List ℕ × Bool) → Type 0
IsFinished position (t, finished_upload) gathers =
    (has_end gathers ≡ true) × (position + length (read_until_end gathers) ≤ (current t).received)
IsFinished position (t, refused_upload) gathers = Unit {0}
IsFinished position (t, dropped_upload) gathers = Unit {0}
IsFinished position (t, caught_up) gathers = Unit {0}

-- A gather comes before the others.
earlier-IsFinished :
    (position : ℕ) (buffer : List ℕ) (ended : Bool) (gathers : List (List ℕ × Bool))
    (p : Option Stream × Upload)
    → IsFinished (position + length buffer) p gathers
    → IsFinished position p ((buffer, ended) ∷ gathers)
earlier-IsFinished position buffer true gathers (t, finished_upload) f = (refl, omega (arith, f.1))
earlier-IsFinished position buffer false gathers (t, finished_upload) f =
    (f.0, omega (arith, f.1, length-append buffer (read_until_end gathers)))
earlier-IsFinished position buffer ended gathers (t, refused_upload) f = tt
earlier-IsFinished position buffer ended gathers (t, dropped_upload) f = tt
earlier-IsFinished position buffer ended gathers (t, caught_up) f = tt

-- The gather that brings the end of the log is there.
last-IsFinished :
    (position : ℕ) (buffer : List ℕ) (ended : Bool) (gathers : List (List ℕ × Bool))
    (t : Option Stream)
    → ended ≡ true
    → position + length buffer ≤ (current t).received
    → IsFinished position (t, finished_upload) ((buffer, ended) ∷ gathers)
last-IsFinished position buffer true gathers t last there = (refl, there)
last-IsFinished position buffer false gathers t last there = absurd (cc last)

module _ (b : Base64) (a : AuthenticatedHost) (session placement : ℕ) where
  after_sent-IsFinished :
      (go_on : ℕ → Option Stream → List Attempt → Option Stream × Upload) (t : Option Stream)
      (end position : ℕ) (ended : Bool) (gathers : List (List ℕ × Bool)) (sent : Sent)
      → IsHeard b a session placement end ended (t, sent)
      → (ended ≡ true
          → end ≤ (current t).received
          → IsFinished position (t, finished_upload) gathers)
      → ((confirmed : ℕ) (rest : List Attempt)
          → (current t).complete ≡ false
          → closes rest ≡ false
          → IsFinished position (go_on confirmed t rest) gathers)
      → IsFinished position (after_sent go_on (t, sent)) gathers
  after_sent-IsFinished go_on t end position ended gathers (answered receipt rest)
        (covered, same, calm) done next =
      elim (Bool-cases receipt.finished) [
        | inl over ↦ let (last, there) = covered (sym same ∙ over) in rw over (done last there)
        | inr open_ ↦ rw open_ (next receipt.received rest (sym same ∙ open_) calm)
      ]
  after_sent-IsFinished go_on t end position ended gathers refused heard done next = tt
  after_sent-IsFinished go_on t end position ended gathers dropped heard done next = tt

  stream_from-IsFinished :
      (position received : ℕ) (stream : Option Stream) (schedule : List Attempt)
      (gathers : List (List ℕ × Bool))
      → closes schedule ≡ false
      → (current stream).complete ≡ false
      → IsFinished position
          (stream_from b a session placement position received stream schedule gathers)
          gathers
  unfolding stream_from
  stream_from-IsFinished position received stream schedule [] calm going = tt
  stream_from-IsFinished position received stream schedule ((buffer, ended) ∷ gathers) calm going =
      let skip = min (received - position) (length buffer) in
      let next = position + length buffer in
      let fresh = drop skip buffer in
      let long : length (drop skip buffer) ≡ length buffer - skip = length-drop skip buffer in
      elim (Bool-cases (ltb skip (length buffer) || ended)) [
        | inr quiet ↦ rw quiet (
            earlier-IsFinished position buffer ended gathers
              (stream_from b a session placement next received stream schedule gathers)
              (stream_from-IsFinished next received stream schedule gathers calm going))
        | inl loud ↦
            let heard =
              send-IsHeard b a session placement stream (position + skip) fresh ended schedule calm
                (λ closed. absurd (cc (closed, going))) in
            let (t, sent) =
              send b a session placement stream (position + skip) fresh ended schedule in
            rw loud (
              after_sent-IsFinished
                (λ confirmed u more.
                  stream_from b a session placement next confirmed u more gathers)
                t (position + skip + length fresh) position ended ((buffer, ended) ∷ gathers) sent
                heard
                (λ last there. last-IsFinished position buffer ended gathers t last (omega arith))
                (λ c more open_ quiet.
                  earlier-IsFinished position buffer ended gathers
                    (stream_from b a session placement next c t more gathers)
                    (stream_from-IsFinished next c t more gathers quiet open_)))
      ]

  -- Without another request that closes the stream, an upload finishes it itself.
  pub stream_output-IsFinished :
      (stream : Option Stream) (schedule : List Attempt) (gathers : List (List ℕ × Bool))
      → closes schedule ≡ false
      → (current stream).complete ≡ false
      → IsFinished 0 (stream_output b a session placement stream schedule gathers) gathers
  unfolding stream_output
  stream_output-IsFinished stream schedule gathers calm going =
      let heard =
        send-IsHeard b a session placement stream 0 [] false schedule calm
          (λ closed. absurd (cc (closed, going))) in
      let (t, sent) = send b a session placement stream 0 [] false schedule in
      after_sent-IsFinished (λ c u more. stream_from b a session placement 0 c u more gathers) t
        (0 + 0) 0 false gathers sent heard (λ last there. absurd (cc last))
        (λ c more open_ quiet. stream_from-IsFinished 0 c t more gathers quiet open_)
