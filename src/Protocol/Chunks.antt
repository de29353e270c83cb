-- ===== src/Protocol/Chunks.antt =====
-- `TransferChunk` of crates/gridops-core/src/fleet/protocol/chunks.rs. The base64 and SHA-256 of the
-- `base64` and `sha2` crates are parameters.
pub mod Laws
use gridops.Prelude.{
  ℕ, ◌+◌, ◌*◌, ◌/◌, ◌≤◌, ◌<◌, ◌≡◌, ◌≢◌, ◌↔◌, ◌⊎◌, inl, inr, refl, sym, ap, ◌∙◌, Bool, true, false,
  not, ◌&&◌, ◌||◌, Bool-cases, Option, none, some, Option-cases, List, [], ◌∷◌, Result, ok, err,
  ◌>>=◌, ◌>>◌, fail_if, ok_or, map_err, eqb, ltb, leb, ◌==◌, arith, length, i64_max, u64_max,
  checked_add_within,
}
use gridops.Protocol.Primitives.{bounded, in_range}

abbrev pub max_chunk_bytes : ℕ
max_chunk_bytes = 262144

pub data StreamReference : Type 0 where
  log artifact : ℕ → StreamReference

pub record ChunkOwnership : Type 0 where
  pub placement_id : ℕ
  pub backend_id : ℕ
  pub generation : ℕ

pub record DroppedByteGap : Type 0 where
  pub from : ℕ
  pub to : ℕ

pub record TransferChunk : Type 0 where
  pub stream : StreamReference
  pub owner : ChunkOwnership
  pub offset : ℕ
  pub bytes : List ℕ
  pub eof : Bool
  pub gap : Option DroppedByteGap

pub data ChunkError : Type 0 where
  too_large invalid_bytes offset_overflow invalid_gap empty : ChunkError

-- Texts with their length and equality, URL-safe base64 without padding, and the digest's text.
-- Four characters spell three bytes, so the text of n bytes is no longer than this.
pub record Codec : Type 1 where
  pub Text : Type 0
  pub text_length : Text → ℕ
  pub text_discrete : Discrete Text
  pub encode : List ℕ → Text
  pub decode : Text → Option (List ℕ)
  pub sha256 : List ℕ → Text
  pub decode-encode : (bytes : List ℕ) → decode (encode bytes) ≡ some bytes
  pub length-encode : (bytes : List ℕ) → text_length (encode bytes) ≤ (length bytes + 2) / 3 * 4

abbrev pub is_log : StreamReference → Bool
is_log (log id) = true
is_log (artifact id) = false

-- The test on a gap, if there is one.
abbrev pub is_bad_gap : StreamReference → ℕ → Option DroppedByteGap → Bool
is_bad_gap stream offset none = false
is_bad_gap stream offset (some gap) =
    not (is_log stream) || leb gap.to gap.from || not (gap.to == offset)

abbrev pub is_none : Option DroppedByteGap → Bool
is_none none = true
is_none (some gap) = false

module _ (c : Codec) where
  open c use {Text, text_length, text_discrete, encode, decode, sha256}

  pub record RawChunk : Type 0 where
    pub stream : StreamReference
    pub owner : ChunkOwnership
    pub offset : ℕ
    pub data_base64 : Text
    pub decoded_length : ℕ
    pub digest : Text
    pub eof : Bool
    pub gap : Option DroppedByteGap

  -- `TryFrom<RawChunk>`, up to the decoded bytes.
  unfoldable pub decoded_bytes : RawChunk → Result ChunkError (List ℕ)
  decoded_bytes raw = do
    fail_if
        (ltb max_chunk_bytes raw.decoded_length
          || ltb ((max_chunk_bytes + 2) / 3 * 4) (text_length raw.data_base64))
        too_large
    bytes ← ok_or (decode raw.data_base64) invalid_bytes
    fail_if
        (not (length bytes == raw.decoded_length)
          || ltb max_chunk_bytes (length bytes)
          || not (eqb text_discrete (encode bytes) raw.data_base64)
          || not (eqb text_discrete raw.digest (sha256 bytes)))
        invalid_bytes
    ok bytes

  -- The checks on the place of the bytes in the stream.
  unfoldable pub check_place : RawChunk → List ℕ → Result ChunkError (Unit {0})
  check_place raw bytes = do
    end ← ok_or (checked_add_within u64_max raw.offset (length bytes)) offset_overflow
    place ← map_err (λ e. offset_overflow) (bounded 0 i64_max end)
    fail_if (is_bad_gap raw.stream raw.offset raw.gap) invalid_gap
    fail_if (length bytes == 0 && (not raw.eof && is_none raw.gap)) empty

  unfoldable pub try_from : RawChunk → Result ChunkError TransferChunk
  try_from raw = do
    bytes ← decoded_bytes raw
    check_place raw bytes
    ok (record {
      stream = raw.stream;
      owner = raw.owner;
      offset = raw.offset;
      bytes = bytes;
      eof = raw.eof;
      gap = raw.gap;
    })

  -- `From<TransferChunk> for RawChunk`.
  unfoldable pub into_raw : TransferChunk → RawChunk
  into_raw chunk = record {
    stream = chunk.stream;
    owner = chunk.owner;
    offset = chunk.offset;
    data_base64 = encode chunk.bytes;
    decoded_length = length chunk.bytes;
    digest = sha256 chunk.bytes;
    eof = chunk.eof;
    gap = chunk.gap;
  }

  unfoldable pub from_bytes :
      StreamReference
      → ChunkOwnership
      → ℕ
      → List ℕ
      → Bool
      → Option DroppedByteGap
      → Result ChunkError TransferChunk
  from_bytes stream owner offset bytes eof gap = do
    fail_if (ltb max_chunk_bytes (length bytes)) too_large
    try_from (record {
      stream = stream;
      owner = owner;
      offset = offset;
      data_base64 = encode bytes;
      decoded_length = length bytes;
      digest = sha256 bytes;
      eof = eof;
      gap = gap;
    })
