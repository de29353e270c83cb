-- ===== src/Cursor.antt =====
-- Signed cursors, crates/gridops-core/src/fleet/cursor.rs, with `Vault::sign` and `Vault::verify` of
-- crates/gridops-core/src/crypto.rs. Texts are lists of characters, digests and identifiers numbers.
pub mod Tokens
pub mod Signed
pub mod Trusted
use gridops.Prelude.{
  ℕ, ◌+◌, ◌*◌, ◌/◌, ◌<◌, ◌≡◌, Bool, true, false, not, ◌&&◌, ◌||◌, Option, none, some, List, [], ◌∷◌,
  ◌++◌, Result, ok, err, ◌>>=◌, ◌>>◌, fail_if, ok_or, ltb, leb, ◌==◌, eqb, length, ℕ_discrete,
  if◌then◌else◌, checked_add_within, u64_max,
}
use gridops.Prelude.Int.{ℤ, pos, ltb_ℤ}
use gridops.Prelude.Text.{codes}
use gridops.Capabilities.Evaluate.{checked_sub_ℤ}

abbrev pub max_cursor_bytes : ℕ
max_cursor_bytes = 4096

-- 30 days.
abbrev pub max_cursor_lifetime_ms : ℕ
max_cursor_lifetime_ms = 2592000000

pub data CursorStream : Type 0 where
  hosts backends domains runners samples fleet_events host_events commands : CursorStream
  agent_events logs artifacts external_runners : CursorStream

unfoldable pub CursorStream-discrete : Discrete CursorStream
CursorStream-discrete = hlevel

pub data CursorPosition : Type 0 where
  row entity bytes : ℕ → CursorPosition
  legacy_entity : List ℕ → CursorPosition

pub record Claims : Type 0 where
  pub version : ℕ
  pub incarnation : ℕ
  pub scope_digest : ℕ
  pub stream : CursorStream
  pub position : CursorPosition
  pub issued_at_ms : ℤ
  pub expires_at_ms : ℤ

pub data RetainedFrom : Type 0 where
  row byte : ℕ → RetainedFrom
  catalog : RetainedFrom

pub data CursorError : Type 0 where
  invalid expired retention_gap signing : CursorError

unfoldable pub is_compatible : CursorStream → CursorPosition → Bool
is_compatible logs (CursorPosition.bytes offset) = true
is_compatible artifacts (CursorPosition.bytes offset) = true
is_compatible hosts (CursorPosition.entity after) = true
is_compatible backends (CursorPosition.entity after) = true
is_compatible domains (CursorPosition.entity after) = true
is_compatible external_runners (CursorPosition.entity after) = true
is_compatible runners (CursorPosition.legacy_entity after) = true
is_compatible samples (CursorPosition.row after) = true
is_compatible fleet_events (CursorPosition.row after) = true
is_compatible host_events (CursorPosition.row after) = true
is_compatible commands (CursorPosition.row after) = true
is_compatible agent_events (CursorPosition.row after) = true
is_compatible _ _ = false

unfoldable pub check_position : CursorStream → CursorPosition → Result CursorError (Unit {0})
check_position stream position = fail_if (not (is_compatible stream position)) invalid

-- `issued < 0 || ttl <= 0 || ttl > MAX_CURSOR_LIFETIME_MS`.
abbrev pub is_bad_lifetime : ℤ → ℤ → Bool
is_bad_lifetime issued ttl =
    ltb_ℤ issued (pos 0) || not (ltb_ℤ (pos 0) ttl) || ltb_ℤ (pos max_cursor_lifetime_ms) ttl

unfoldable pub check_times : ℤ → ℤ → Result CursorError (Unit {0})
check_times issued expires = do
  ttl ← ok_or (checked_sub_ℤ expires issued) invalid
  fail_if (is_bad_lifetime issued ttl) invalid

-- `checked_add(1) .. < first`, an overflow being an error.
abbrev pub is_behind : Option ℕ → ℕ → Result CursorError Bool
is_behind none first = err invalid
is_behind (some next) first = ok (ltb next first)

-- The `match` of a position and what is retained.
unfoldable pub gap : CursorPosition → RetainedFrom → Result CursorError Bool
gap (CursorPosition.row after) (RetainedFrom.row first) =
    is_behind (checked_add_within u64_max after 1) first
gap (CursorPosition.bytes offset) (RetainedFrom.byte first) = ok (ltb offset first)
gap (CursorPosition.entity after) RetainedFrom.catalog = ok false
gap (CursorPosition.legacy_entity after) RetainedFrom.catalog = ok false
gap _ _ = err invalid

unfoldable pub check_retained : CursorPosition → RetainedFrom → Result CursorError CursorPosition
check_retained position retained = do
  behind ← gap position retained
  fail_if behind retention_gap
  ok position

-- `token.split('.')`.
unfoldable pub split_dots : List ℕ → List ℕ → List (List ℕ)
split_dots part [] = part ∷ []
split_dots part (c ∷ cs) =
    if c == b'.' then part ∷ split_dots [] cs else split_dots (part ++ (c ∷ [])) cs

-- The three parts of a token, with nothing after them.
abbrev pub three_parts : List (List ℕ) → Result CursorError (List ℕ × List ℕ × List ℕ)
three_parts (version ∷ payload ∷ signature ∷ []) = ok (version, payload, signature)
three_parts _ = err invalid

unfoldable pub same_text : List ℕ → List ℕ → Bool
same_text [] [] = true
same_text [] (y ∷ ys) = false
same_text (x ∷ xs) [] = false
same_text (x ∷ xs) (y ∷ ys) = x == y && same_text xs ys

abbrev pub has_dot : List ℕ → Bool
has_dot [] = false
has_dot (c ∷ cs) = c == b'.' || has_dot cs

abbrev pub is_empty : List ℕ → Bool
is_empty [] = true
is_empty (c ∷ cs) = false

-- `DOMAIN`, whose last character is NUL.
abbrev pub domain_prefix : List ℕ
domain_prefix = codes "gridops:fleet-cursor:v1" ++ (0 ∷ [])

-- The crates that cursors stand on: URL-safe base64 without padding, HMAC-SHA256 under the session
-- secret of the vault, which may be unusable, and serde's JSON of the claims.
pub record Crates : Type 0 where
  pub encode : List ℕ → List ℕ
  pub decode : List ℕ → Option (List ℕ)
  pub mac : List ℕ → Option (List ℕ)
  pub to_json : Claims → List ℕ
  pub from_json : List ℕ → Option Claims
  pub decode-encode : (b : List ℕ) → decode (encode b) ≡ some b
  pub has_dot-encode : (b : List ℕ) → has_dot (encode b) ≡ false
  pub length-encode : (b : List ℕ) → length (encode b) ≡ (length b * 4 + 2) / 3
  pub length-mac : (b m : List ℕ) → mac b ≡ some m → length m ≡ 32
  pub from_json-to_json : (c : Claims) → from_json (to_json c) ≡ some c
  pub to_json-pos : (c : Claims) → 0 < length (to_json c)

module _ (k : Crates) where
  open k use {encode, decode, mac, to_json, from_json}

  -- `Vault::sign`.
  unfoldable pub sign : List ℕ → Option (List ℕ)
  sign value = elim (mac value) [ none ↦ none | some m ↦ some (encode m) ]

  -- `Vault::verify`.
  unfoldable pub verify_signature : List ℕ → List ℕ → Bool
  verify_signature value signature = elim (sign value) [
    | none ↦ false
    | some expected ↦ same_text expected signature
  ]

  -- `CursorCodec::issue`.
  unfoldable pub issue : ℕ → ℕ → CursorStream → CursorPosition → ℤ → ℤ → Result CursorError (List ℕ)
  issue scope incarnation stream position now expires = do
    check_times now expires
    check_position stream position
    let claims : Claims = record {
      version = 1;
      incarnation = incarnation;
      scope_digest = scope;
      stream = stream;
      position = position;
      issued_at_ms = now;
      expires_at_ms = expires;
    }
    let payload = encode (to_json claims)
    signature ← ok_or (sign (domain_prefix ++ payload)) signing
    let token = codes "v1." ++ (payload ++ (codes "." ++ signature))
    fail_if (ltb max_cursor_bytes (length token)) invalid
    ok token

  -- The claims of a payload whose signature holds.
  unfoldable pub read_claims : List ℕ → Result CursorError Claims
  read_claims payload = do
    decoded ← ok_or (decode payload) invalid
    fail_if (not (same_text (encode decoded) payload)) invalid
    ok_or (from_json decoded) invalid

  -- What `verify` asks of the claims.
  unfoldable pub check_claims :
      Claims → ℕ → ℕ → CursorStream → ℤ → RetainedFrom → Result CursorError CursorPosition
  check_claims c scope incarnation stream now retained = do
    check_times c.issued_at_ms c.expires_at_ms
    check_position c.stream c.position
    fail_if
        (not (c.version == 1)
          || not (c.incarnation == incarnation)
          || not (c.scope_digest == scope)
          || not (eqb CursorStream-discrete c.stream stream)
          || ltb_ℤ now c.issued_at_ms)
        invalid
    fail_if (not (ltb_ℤ now c.expires_at_ms)) expired
    check_retained c.position retained

  -- `verify` once the token is taken apart.
  unfoldable pub verify_signed :
      List ℕ
      → List ℕ
      → List ℕ
      → ℕ
      → ℕ
      → CursorStream
      → ℤ
      → RetainedFrom
      → Result CursorError CursorPosition
  verify_signed version payload signature scope incarnation stream now retained = do
    fail_if
        (not (same_text version (codes "v1")) || not (length signature == 43) || is_empty payload)
        invalid
    fail_if (not (verify_signature (domain_prefix ++ payload) signature)) invalid
    claims ← read_claims payload
    check_claims claims scope incarnation stream now retained

  -- `CursorCodec::verify`.
  unfoldable pub verify :
      List ℕ → ℕ → ℕ → CursorStream → ℤ → RetainedFrom → Result CursorError CursorPosition
  verify token scope incarnation stream now retained = do
    fail_if (ltb max_cursor_bytes (length token)) invalid
    (version, payload, signature) ← three_parts (split_dots [] token)
    verify_signed version payload signature scope incarnation stream now retained
