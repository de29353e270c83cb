-- ===== src/Protocol/Chunks/Laws.antt =====
-- Which wire forms crates/gridops-core/src/fleet/protocol/chunks.rs takes, and for what chunk.
use gridops.Prelude.{
  ℕ, ◌+◌, ◌*◌, ◌/◌, ◌≤◌, ◌<◌, ◌≡◌, ◌↔◌, ◌⊎◌, refl, sym, ap, ◌∙◌, Bool, true, false, Option, none,
  some, List, ok, >>=-eq-ok, arith, length, i64_max,
}
use gridops.Protocol.Primitives.{bounded}
use gridops.Protocol.Chunks.{
  Codec, max_chunk_bytes, StreamReference, DroppedByteGap, TransferChunk, RawChunk, is_log,
  is_bad_gap, is_none, decoded_bytes, check_place, try_from, into_raw,
}

-- A gap is in a log and ends where the chunk starts.
abbrev pub IsGapOf : StreamReference → ℕ → Option DroppedByteGap → Type 0
IsGapOf stream offset none = Unit {0}
IsGapOf stream offset (some gap) = (is_log stream ≡ true) × (gap.from < gap.to) × (gap.to ≡ offset)

pub record IsPlaced (stream : StreamReference) (offset : ℕ) (bytes : List ℕ) (eof : Bool)
    (gap : Option DroppedByteGap) : Type 0 where
  pub end_bounded : offset + length bytes ≤ i64_max
  pub gap_fits : IsGapOf stream offset gap
  pub says_something : (0 < length bytes) ⊎ ((eof ≡ true) ⊎ (is_none gap ≡ false))

pub record IsWellFormed (chunk : TransferChunk) : Type 0 where
  pub sized : length chunk.bytes ≤ max_chunk_bytes
  pub placed : IsPlaced chunk.stream chunk.offset chunk.bytes chunk.eof chunk.gap

gap_iff :
    (stream : StreamReference) (offset : ℕ) (gap : Option DroppedByteGap)
    → (is_bad_gap stream offset gap ≡ false) ↔ IsGapOf stream offset gap
gap_iff stream offset none = (λ e. tt, λ u. refl)
gap_iff stream offset (some gap) =
    (λ e. (ground arith, ground arith, ground arith), λ v. let (l, m, r) = v in ground arith)

module _ (c : Codec) where
  open c use {
    Text, text_length, text_discrete, encode, decode, sha256, decode-encode, length-encode,
  }

  check_place_iff :
      (raw : RawChunk c) (bytes : List ℕ)
      → (check_place c raw bytes ≡ ok tt) ↔ IsPlaced raw.stream raw.offset bytes raw.eof raw.gap
  unfolding check_place bounded
  check_place_iff raw bytes =
      let (fits, good) = gap_iff raw.stream raw.offset raw.gap in
      (
        λ e. record {
          end_bounded = ground arith;
          gap_fits = fits (ground arith);
          says_something = ground arith;
        },
        λ v. let good_gap = good v.gap_fits in ground (arith, v.end_bounded, v.says_something),
      )

  -- The wire form of some bytes.
  record Spells (raw : RawChunk c) (bytes : List ℕ) : Type 0 where
    text : raw.data_base64 ≡ encode bytes
    long : raw.decoded_length ≡ length bytes
    digested : raw.digest ≡ sha256 bytes
    sized : length bytes ≤ max_chunk_bytes

  decoded_bytes-Spells :
      (raw : RawChunk c) (bytes : List ℕ) → decoded_bytes c raw ≡ ok bytes → Spells raw bytes
  unfolding decoded_bytes
  decoded_bytes-Spells raw bytes e = ground arith

  decoded_bytes-of_Spells :
      (raw : RawChunk c) (bytes : List ℕ) → Spells raw bytes → decoded_bytes c raw ≡ ok bytes
  unfolding decoded_bytes
  decoded_bytes-of_Spells raw bytes s =
      let found : decode raw.data_base64 ≡ some bytes = ap decode s.text ∙ decode-encode bytes in
      let size = s.sized in
      let short : text_length raw.data_base64 ≤ (max_chunk_bytes + 2) / 3 * 4 =
        omega (arith, ap text_length s.text, length-encode bytes) in
      let same = sym s.text in ground (arith, found, short, same, s.long, s.digested, s.sized)

abbrev chunk_of : (c : Codec) → RawChunk c → List ℕ → TransferChunk
chunk_of c raw bytes = record {
  stream = raw.stream;
  owner = raw.owner;
  offset = raw.offset;
  bytes = bytes;
  eof = raw.eof;
  gap = raw.gap;
}

into_raw-chunk_of :
    (c : Codec) (raw : RawChunk c) (bytes : List ℕ)
    → raw.data_base64 ≡ c.encode bytes
    → raw.decoded_length ≡ length bytes
    → raw.digest ≡ c.sha256 bytes
    → raw ≡ into_raw c (chunk_of c raw bytes)
unfolding into_raw
into_raw-chunk_of c raw bytes text long digested = λ i. record {
  stream = raw.stream;
  owner = raw.owner;
  offset = raw.offset;
  data_base64 = text i;
  decoded_length = long i;
  digest = digested i;
  eof = raw.eof;
  gap = raw.gap;
}

try_from-into_raw :
    (c : Codec) (chunk : TransferChunk)
    → IsWellFormed chunk
    → try_from c (into_raw c chunk) ≡ ok chunk
unfolding try_from into_raw
try_from-into_raw c chunk good =
    let wire = into_raw c chunk in
    let read =
      decoded_bytes-of_Spells c wire chunk.bytes
        (record { text = refl; long = refl; digested = refl; sized = good.sized }) in
    let placed = (check_place_iff c wire chunk.bytes).1 good.placed in rw read (rw placed refl)

-- Decoding takes exactly the wire form of a well-formed chunk and gives that chunk: encoding and
-- decoding undo each other, no chunk has two wire forms, and no malformed chunk is taken.
pub try_from-chunk_iff :
    (c : Codec) (raw : RawChunk c) (chunk : TransferChunk)
    → (try_from c raw ≡ ok chunk) ↔ ((raw ≡ into_raw c chunk) × IsWellFormed chunk)
unfolding try_from into_raw
try_from-chunk_iff c raw chunk = (
  λ e.
      let (bytes, read, e') = >>=-eq-ok (decoded_bytes c raw) _ e in
      let (done, placed, e'') = >>=-eq-ok (check_place c raw bytes) _ e' in
      let spells = decoded_bytes-Spells c raw bytes read in
      let fits = (check_place_iff c raw bytes).0 placed in
      let built : ok (chunk_of c raw bytes) ≡ ok chunk = e'' in
      let same : chunk_of c raw bytes ≡ chunk = cc in
      rw (← same) (
        into_raw-chunk_of c raw bytes spells.text spells.long spells.digested,
        record { sized = spells.sized; placed = fits },
      ),
  λ v. let (wire, good) = v in rw wire (try_from-into_raw c chunk good),
)
