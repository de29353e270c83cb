-- ===== src/Output/Stored.antt =====
-- How a stream of crates/gridops-core/src/fleet/registry/output.rs relates to the output that the
-- runner sent.
use gridops.Prelude.{
  ℕ, ◌+◌, ◌-◌, ◌≤◌, ◌≡◌, refl, sym, ap, ◌∙◌, inl, inr, Bool-cases, Option, none, some, List, [],
  ◌∷◌, ◌++◌, ok, err, leb, length, take, drop, min, arith, append_assoc, append_nil, take_add,
  drop_add, take-length_append, take-length, drop-append, length-append, length-take, length-drop,
  take-append-drop,
}
use gridops.Output.Server.{
  Stream, no_stream, set_len, newest_output, after_newline, start_of_line, Written, write_fresh,
  write_broken, write_file, FileWrite, whole, unopened, broken_after, fresh_bytes,
  max_output_chunk_bytes, max_stream_bytes, keep_stream_bytes,
}

-- The recorded bytes of a stream.
abbrev pub recorded : Stream → List ℕ
recorded s = take s.size s.file

-- The recorded bytes end the output received so far.
abbrev pub IsNewestOf : List ℕ → List ℕ → Type 0
IsNewestOf bytes received = (lost : List ℕ) × (lost ++ bytes ≡ received)

pub record IsFaithful (out : List ℕ) (s : Stream) : Type 0 where
  pub in_file : s.size ≤ length s.file
  pub bounded : s.size ≤ max_stream_bytes
  pub sent : s.received ≤ length out
  pub newest : IsNewestOf (recorded s) (take s.received out)

-- A placement without a stream has nothing to be wrong.
abbrev pub AllFaithful : List ℕ → Option Stream → Type 0
AllFaithful out none = Unit
AllFaithful out (some s) = IsFaithful out s

pub no_stream-IsFaithful : (out : List ℕ) → IsFaithful out no_stream
no_stream-IsFaithful out = record {
  in_file = omega arith;
  bounded = omega arith;
  sent = omega arith;
  newest = ([], refl);
}

-- A chunk of the runner's output that starts at an offset.
abbrev pub IsChunkOf : List ℕ → ℕ → List ℕ → Type 0
IsChunkOf out offset bytes = (rest : List ℕ) × (drop offset out ≡ bytes ++ rest)

set_len_inside : (n : ℕ) (file : List ℕ) → n ≤ length file → set_len n file ≡ take n file
set_len_inside n file h =
    let none_missing : n - length file ≡ 0 = omega arith in
    rw none_missing (append_nil (take n file))

-- The recorded bytes of a file that starts with them.
recorded_prefix :
    (n : ℕ) (file more : List ℕ) → n ≤ length file → take n (take n file ++ more) ≡ take n file
recorded_prefix n file more h =
    let long : length (take n file) ≡ n = omega (arith, length-take n file) in
    ap (λ k. take k (take n file ++ more)) (sym long) ∙ take-length_append (take n file) more

-- The fresh bytes of a chunk continue the output received so far.
pub fresh_next :
    (out : List ℕ) (received offset : ℕ) (bytes : List ℕ)
    → IsChunkOf out offset bytes
    → offset ≤ received
    → received ≤ offset + length bytes
    → take (offset + length bytes) out ≡ take received out ++ fresh_bytes received offset bytes
fresh_next out received offset bytes (rest, chunk) before reaches =
    let skip = received - offset in
    let skipped : min (received - offset) (length bytes) ≡ skip = omega arith in
    let sum : received ≡ offset + skip = omega arith in
    let at : drop received out ≡ drop skip bytes ++ rest =
      ap (λ k. drop k out) sum
      ∙ drop_add offset skip out
      ∙ ap (drop skip) chunk
      ∙ drop-append skip bytes rest (omega arith) in
    let size : (offset + length bytes) ≡ received + length (drop skip bytes) =
      omega (arith, length-drop skip bytes) in
    rw skipped (
      ap (λ k. take k out) size
      ∙ take_add received (length (drop skip bytes)) out
      ∙ ap (λ l. take received out ++ take (length (drop skip bytes)) l) at
      ∙ ap (λ l. take received out ++ l) (take-length_append (drop skip bytes) rest))

-- A file that still starts with the recorded bytes.
abbrev pub IsKept : Stream → List ℕ → Type 0
IsKept s left = (s.size ≤ length left) × (take s.size left ≡ recorded s)

appended-IsKept :
    (s : Stream) (more : List ℕ) → s.size ≤ length s.file → IsKept s (set_len s.size s.file ++ more)
appended-IsKept s more h = rw (set_len_inside s.size s.file h) (
  omega (arith, length-append (take s.size s.file) more, length-take s.size s.file),
  recorded_prefix s.size s.file more h,
)

write_broken-IsKept :
    (s : Stream) (fresh : List ℕ) (n : ℕ)
    → s.size ≤ length s.file
    → IsKept s (write_broken s fresh n)
unfolding write_broken
write_broken-IsKept s fresh n h = elim (Bool-cases (leb (s.size + length fresh) max_stream_bytes)) [
  | inl fits ↦ rw fits (appended-IsKept s (take n fresh) h)
  | inr over ↦ rw over (h, refl)
]

write_fresh-IsKept :
    (s : Stream) (fresh : List ℕ) → s.size ≤ length s.file → IsKept s ((write_fresh s fresh).left)
unfolding write_fresh
write_fresh-IsKept s fresh h = elim (Bool-cases (leb (s.size + length fresh) max_stream_bytes)) [
  | inl fits ↦ rw fits (appended-IsKept s fresh h)
  | inr over ↦ rw over (h, refl)
]

-- What a write that succeeds owes: the recorded size fits, and the recorded bytes are the newest.
pub record IsWrittenFor (received : List ℕ) (w : Written) : Type 0 where
  pub in_file : w.size ≤ length w.file
  pub bounded : w.size ≤ max_stream_bytes
  pub newest : IsNewestOf (take w.size w.file) received

newest_output-IsNewestOf :
    (s : Stream) (fresh before : List ℕ)
    → IsNewestOf (recorded s) before
    → IsNewestOf (newest_output s.file s.size fresh) (before ++ fresh)
unfolding newest_output
newest_output-IsNewestOf s fresh before (lost, split) =
    let kept = min (keep_stream_bytes - length fresh) s.size in
    let old = take (s.size - kept) s.file in
    let tail = take kept (drop (s.size - kept) s.file) in
    let n = start_of_line (after_newline (tail ++ fresh)) in
    let sum : s.size ≡ (s.size - kept) + kept = omega arith in
    let parts : take s.size s.file ≡ old ++ tail =
      ap (λ k. take k s.file) sum ∙ take_add (s.size - kept) kept s.file in
    (
      (lost ++ old) ++ take n (tail ++ fresh),
      append_assoc (lost ++ old) (take n (tail ++ fresh)) (drop n (tail ++ fresh))
          ∙ ap (λ l. (lost ++ old) ++ l) (take-append-drop n (tail ++ fresh))
          ∙ sym (append_assoc (lost ++ old) tail fresh)
          ∙ ap (λ l. l ++ fresh)
              (append_assoc lost old tail ∙ ap (λ l. lost ++ l) (sym parts) ∙ split),
    )

length-newest_output :
    (file : List ℕ) (size : ℕ) (fresh : List ℕ)
    → length fresh ≤ max_output_chunk_bytes
    → length (newest_output file size fresh) ≤ max_stream_bytes
unfolding newest_output
length-newest_output file size fresh small =
    let kept = min (keep_stream_bytes - length fresh) size in
    let tail = take kept (drop (size - kept) file) in
    let n = start_of_line (after_newline (tail ++ fresh)) in
    omega (
      arith,
      length-drop n (tail ++ fresh),
      length-append tail fresh,
      length-take kept (drop (size - kept) file),
    )

write_fresh-IsWrittenFor :
    (out : List ℕ) (s : Stream) (fresh : List ℕ)
    → IsFaithful out s
    → length fresh ≤ max_output_chunk_bytes
    → IsWrittenFor (take s.received out ++ fresh) (write_fresh s fresh)
unfolding write_fresh
write_fresh-IsWrittenFor out s fresh faithful small =
    elim (Bool-cases (leb (s.size + length fresh) max_stream_bytes)) [
      | inr over ↦ rw over (record {
        in_file = omega arith;
        bounded = length-newest_output s.file s.size fresh small;
        newest =
            rw (take-length (newest_output s.file s.size fresh))
              (newest_output-IsNewestOf s fresh (take s.received out) faithful.newest);
      })
      | inl fits ↦
          let (lost, split) = faithful.newest in
          let long : length (recorded s ++ fresh) ≡ s.size + length fresh = omega (
            arith,
            faithful.in_file,
            length-append (recorded s) fresh,
            length-take s.size s.file,
          ) in
          rw fits (
            rw (set_len_inside s.size s.file faithful.in_file) (record {
              in_file = omega (arith, long);
              bounded = ground arith;
              newest = (
                lost,
                ap (λ k. lost ++ take k (recorded s ++ fresh)) (sym long)
                    ∙ ap (λ l. lost ++ l) (take-length (recorded s ++ fresh))
                    ∙ sym (append_assoc lost (recorded s) fresh)
                    ∙ ap (λ l. l ++ fresh) split,
              );
            }))
    ]

pub write_file-IsKept :
    (s : Stream) (fresh : List ℕ) (ending : FileWrite) (left : List ℕ)
    → s.size ≤ length s.file
    → write_file s fresh ending ≡ err left
    → IsKept s left
unfolding write_file
write_file-IsKept s [] ending left h e = absurd (ground arith)
write_file-IsKept s (b ∷ bs) whole left h e = absurd (ground arith)
write_file-IsKept s (b ∷ bs) unopened left h e =
    let same : s.file ≡ left = cc in rw (← same) (h, refl)
write_file-IsKept s (b ∷ bs) (broken_after n) left h e =
    let same : write_broken s (b ∷ bs) n ≡ left = cc in
    rw (← same) (write_broken-IsKept s (b ∷ bs) n h)

pub write_file-left :
    (s : Stream) (fresh : List ℕ) (ending : FileWrite) (w : Written)
    → s.size ≤ length s.file
    → write_file s fresh ending ≡ ok w
    → IsKept s w.left
unfolding write_file
write_file-left s [] ending w h e =
    let same : record { left = s.file; file = s.file; size = s.size } ≡ w = cc in
    rw (← same) (h, refl)
write_file-left s (b ∷ bs) whole w h e =
    let same : write_fresh s (b ∷ bs) ≡ w = cc in rw (← same) (write_fresh-IsKept s (b ∷ bs) h)
write_file-left s (b ∷ bs) unopened w h e = absurd (ground arith)
write_file-left s (b ∷ bs) (broken_after n) w h e = absurd (ground arith)

pub write_file-IsWrittenFor :
    (out : List ℕ) (s : Stream) (fresh : List ℕ) (ending : FileWrite) (w : Written)
    → IsFaithful out s
    → length fresh ≤ max_output_chunk_bytes
    → write_file s fresh ending ≡ ok w
    → IsWrittenFor (take s.received out ++ fresh) w
unfolding write_file
write_file-IsWrittenFor out s [] ending w faithful small e =
    let same : record { left = s.file; file = s.file; size = s.size } ≡ w = cc in
    rw (← same) (record {
      in_file = faithful.in_file;
      bounded = faithful.bounded;
      newest = rw (append_nil (take s.received out)) faithful.newest;
    })
write_file-IsWrittenFor out s (b ∷ bs) whole w faithful small e =
    let same : write_fresh s (b ∷ bs) ≡ w = cc in
    rw (← same) (write_fresh-IsWrittenFor out s (b ∷ bs) faithful small)
write_file-IsWrittenFor out s (b ∷ bs) unopened w faithful small e = absurd (ground arith)
write_file-IsWrittenFor out s (b ∷ bs) (broken_after n) w faithful small e = absurd (ground arith)
