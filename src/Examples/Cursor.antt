-- ===== src/Examples/Cursor.antt =====
-- A cursor of a log, crates/gridops-core/src/fleet/cursor.rs, with a codec that numbers can run.
use gridops.Prelude.{
  ℕ, zero, suc, ◌+◌, ◌-◌, ◌*◌, ◌/◌, ◌<◌, ◌≡◌, refl, false, Option, none, some, List, [], ◌∷◌, ◌++◌,
  ok, arith, length, if◌then◌else◌, ◌==◌,
}
use gridops.Prelude.Text.{codes}
use gridops.Prelude.Int.{ℤ, pos, negsuc, ◌-ℤ◌}
use gridops.Capabilities.Evaluate.{checked_sub_ℤ}
use gridops.Cursor.{
  Claims, Crates, CursorStream, hosts, backends, domains, runners, samples, fleet_events,
  host_events, commands, agent_events, logs, artifacts, external_runners, CursorStream-discrete,
  CursorPosition, RetainedFrom, has_dot, sign, verify_signature, issue, verify, verify_signed,
  read_claims, check_claims, check_times, check_position, is_compatible, check_retained, gap,
  split_dots, same_text, domain_prefix,
}
use gridops.Cursor.Signed.{verify-issue}
use gridops.Cursor.Trusted.{IsTrusted, verify-IsTrusted}

-- Three bytes become four characters, none of which is a dot.
abbrev encode_bytes : List ℕ → List ℕ
encode_bytes [] = []
encode_bytes (a ∷ []) = (a + 47) ∷ 48 ∷ []
encode_bytes (a ∷ b ∷ []) = (a + 47) ∷ (b + 47) ∷ 48 ∷ []
encode_bytes (a ∷ b ∷ c ∷ rest) = (a + 47) ∷ (b + 47) ∷ (c + 47) ∷ 48 ∷ encode_bytes rest

abbrev three_more : ℕ → ℕ → ℕ → Option (List ℕ) → Option (List ℕ)
three_more a b c none = none
three_more a b c (some rest) = some ((a - 47) ∷ (b - 47) ∷ (c - 47) ∷ rest)

abbrev decode_text : List ℕ → Option (List ℕ)
decode_text [] = some []
decode_text (a ∷ []) = none
decode_text (a ∷ b ∷ []) = some ((a - 47) ∷ [])
decode_text (a ∷ b ∷ c ∷ []) = some ((a - 47) ∷ (b - 47) ∷ [])
decode_text (a ∷ b ∷ c ∷ d ∷ rest) = three_more a b c (decode_text rest)

shifted_back : (a : ℕ) → a + 47 - 47 ≡ a
shifted_back a = omega arith

decode-encode_bytes : (b : List ℕ) → decode_text (encode_bytes b) ≡ some b
decode-encode_bytes [] = refl
decode-encode_bytes (a ∷ []) = rw (shifted_back a) refl
decode-encode_bytes (a ∷ b ∷ []) = rw (shifted_back a, shifted_back b) refl
decode-encode_bytes (a ∷ b ∷ c ∷ rest) =
    rw (decode-encode_bytes rest, shifted_back a, shifted_back b, shifted_back c) refl

has_dot-encode_bytes : (b : List ℕ) → has_dot (encode_bytes b) ≡ false
has_dot-encode_bytes [] = refl
has_dot-encode_bytes (a ∷ []) = ground arith
has_dot-encode_bytes (a ∷ b ∷ []) = ground arith
has_dot-encode_bytes (a ∷ b ∷ c ∷ rest) = ground (arith, has_dot-encode_bytes rest)

length-encode_bytes : (b : List ℕ) → length (encode_bytes b) ≡ (length b * 4 + 2) / 3
length-encode_bytes [] = refl
length-encode_bytes (a ∷ []) = refl
length-encode_bytes (a ∷ b ∷ []) = refl
length-encode_bytes (a ∷ b ∷ c ∷ rest) = omega (arith, length-encode_bytes rest)

-- 32 bytes that depend on the text.
abbrev total : List ℕ → ℕ
total [] = 7
total (c ∷ cs) = (c + 31 * total cs) - (c + 31 * total cs) / 256 * 256

abbrev eight : ℕ → List ℕ → List ℕ
eight n rest = n ∷ n ∷ n ∷ n ∷ n ∷ n ∷ n ∷ n ∷ rest

abbrev mac_of : List ℕ → List ℕ
mac_of b = eight (total b) (eight (total b) (eight (total b) (eight (total b) [])))

length-mac_of : (b m : List ℕ) → some (mac_of b) ≡ some m → length m ≡ 32
length-mac_of b m e = let same : mac_of b ≡ m = cc e in rw (← same) refl

abbrev stream_code : CursorStream → ℕ
stream_code hosts = 0
stream_code backends = 1
stream_code domains = 2
stream_code runners = 3
stream_code samples = 4
stream_code fleet_events = 5
stream_code host_events = 6
stream_code commands = 7
stream_code agent_events = 8
stream_code logs = 9
stream_code artifacts = 10
stream_code external_runners = 11

abbrev stream_of : ℕ → CursorStream
stream_of n =
    if n == 0
    then hosts
    else if n == 1
    then backends
    else if n == 2
    then domains
    else if n == 3
    then runners
    else if n == 4
    then samples
    else if n == 5
    then fleet_events
    else if n == 6
    then host_events
    else if n == 7
    then commands
    else if n == 8
    then agent_events
    else if n == 9
    then logs
    else if n == 10
    then artifacts
    else external_runners

stream_of-stream_code : (s : CursorStream) → stream_of (stream_code s) ≡ s
stream_of-stream_code hosts = refl
stream_of-stream_code backends = refl
stream_of-stream_code domains = refl
stream_of-stream_code runners = refl
stream_of-stream_code samples = refl
stream_of-stream_code fleet_events = refl
stream_of-stream_code host_events = refl
stream_of-stream_code commands = refl
stream_of-stream_code agent_events = refl
stream_of-stream_code logs = refl
stream_of-stream_code artifacts = refl
stream_of-stream_code external_runners = refl

abbrev sign_code : ℤ → ℕ
sign_code (pos n) = 0
sign_code (negsuc n) = 1

abbrev size_code : ℤ → ℕ
size_code (pos n) = n
size_code (negsuc n) = n

abbrev int_of : ℕ → ℕ → ℤ
int_of zero n = pos n
int_of (suc k) n = negsuc n

int_of-code : (t : ℤ) → int_of (sign_code t) (size_code t) ≡ t
int_of-code (pos n) = refl
int_of-code (negsuc n) = refl

abbrev position_code : CursorPosition → List ℕ
position_code (CursorPosition.row n) = 0 ∷ n ∷ []
position_code (CursorPosition.entity n) = 1 ∷ n ∷ []
position_code (CursorPosition.bytes n) = 2 ∷ n ∷ []
position_code (CursorPosition.legacy_entity name) = 3 ∷ name

abbrev position_of : List ℕ → Option CursorPosition
position_of (zero ∷ n ∷ []) = some (CursorPosition.row n)
position_of (suc zero ∷ n ∷ []) = some (CursorPosition.entity n)
position_of (suc (suc zero) ∷ n ∷ []) = some (CursorPosition.bytes n)
position_of (suc (suc (suc zero)) ∷ name) = some (CursorPosition.legacy_entity name)
position_of _ = none

position_of-code : (p : CursorPosition) → position_of (position_code p) ≡ some p
position_of-code (CursorPosition.row n) = refl
position_of-code (CursorPosition.entity n) = refl
position_of-code (CursorPosition.bytes n) = refl
position_of-code (CursorPosition.legacy_entity name) = refl

abbrev write_claims : Claims → List ℕ
write_claims c =
    c.version
    ∷ c.incarnation
    ∷ c.scope_digest
    ∷ stream_code c.stream
    ∷ sign_code c.issued_at_ms
    ∷ size_code c.issued_at_ms
    ∷ sign_code c.expires_at_ms
    ∷ size_code c.expires_at_ms
    ∷ position_code c.position

abbrev claims_at : ℕ → ℕ → ℕ → CursorStream → ℤ → ℤ → Option CursorPosition → Option Claims
claims_at version incarnation scope stream issued expires none = none
claims_at version incarnation scope stream issued expires (some position) = some (record {
  version = version;
  incarnation = incarnation;
  scope_digest = scope;
  stream = stream;
  position = position;
  issued_at_ms = issued;
  expires_at_ms = expires;
})

abbrev parse_claims : List ℕ → Option Claims
parse_claims (v ∷ i ∷ scope ∷ stream ∷ a ∷ m ∷ b ∷ n ∷ rest) =
    claims_at v i scope (stream_of stream) (int_of a m) (int_of b n) (position_of rest)
parse_claims _ = none

parse_claims-write_claims : (c : Claims) → parse_claims (write_claims c) ≡ some c
parse_claims-write_claims c =
    rw
      (
        position_of-code c.position,
        stream_of-stream_code c.stream,
        int_of-code c.issued_at_ms,
        int_of-code c.expires_at_ms,
      )
      refl

length-write_claims : (c : Claims) → 0 < length (write_claims c)
length-write_claims c = ground arith

abbrev plain_crates : Crates
plain_crates = record {
  encode = encode_bytes;
  decode = decode_text;
  mac = λ b. some (mac_of b);
  to_json = write_claims;
  from_json = parse_claims;
  decode-encode = decode-encode_bytes;
  has_dot-encode = has_dot-encode_bytes;
  length-encode = length-encode_bytes;
  length-mac = length-mac_of;
  from_json-to_json = parse_claims-write_claims;
  to_json-pos = length-write_claims;
}

-- A cursor at byte 120 of a log whose first 100 bytes are gone, good for an hour.
abbrev log_place : CursorPosition
log_place = CursorPosition.bytes 120

abbrev log_claims : Claims
log_claims = record {
  version = 1;
  incarnation = 8;
  scope_digest = 70;
  stream = logs;
  position = log_place;
  issued_at_ms = pos 1000;
  expires_at_ms = pos 3601000;
}

abbrev cursor_text : List ℕ
cursor_text =
    codes "v1."
    ++ (encode_bytes (write_claims log_claims)
        ++ (b'.' ∷ encode_bytes (mac_of (domain_prefix ++ encode_bytes (write_claims log_claims)))))

token_issued : issue plain_crates 70 8 logs log_place (pos 1000) (pos 3601000) ≡ ok cursor_text
unfolding issue sign check_times check_position is_compatible checked_sub_ℤ ◌-ℤ◌
token_issued = refl

kept_from : check_retained log_place (RetainedFrom.byte 100) ≡ ok log_place
unfolding check_retained gap
kept_from = refl

verify-issue_example :
    verify plain_crates cursor_text 70 8 logs (pos 2000) (RetainedFrom.byte 100) ≡ ok log_place
verify-issue_example =
    verify-issue plain_crates 70 8 logs log_place (pos 1000) (pos 3601000) (pos 2000)
      (RetainedFrom.byte 100) cursor_text token_issued (omega arith) (omega arith) kept_from

token_verified :
    verify plain_crates cursor_text 70 8 logs (pos 5000) (RetainedFrom.byte 100) ≡ ok log_place
unfolding verify verify_signed verify_signature sign read_claims check_claims check_times
    check_position is_compatible check_retained gap split_dots same_text CursorStream-discrete
    checked_sub_ℤ ◌-ℤ◌
token_verified = refl

verify-IsTrusted_example :
    IsTrusted plain_crates cursor_text 70 8 logs (pos 5000) (RetainedFrom.byte 100) log_place
verify-IsTrusted_example =
    verify-IsTrusted plain_crates cursor_text 70 8 logs (pos 5000) (RetainedFrom.byte 100) log_place
      token_verified
