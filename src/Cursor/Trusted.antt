-- ===== src/Cursor/Trusted.antt =====
-- What a token that crates/gridops-core/src/fleet/cursor.rs accepts must say.
use gridops.Prelude.{
  u64_max, ℕ, ◌+◌, ◌≤◌, ◌≡◌, ◌∙◌, sym, ap, inl, inr, ◌⊎◌, true, not, ◌||◌, some, Option-cases, List,
  [], ◌∷◌, ◌++◌, ok, fail_if, ok_or, >>=-eq-ok, ok_or-ok, fail_if-ok, ltb, ◌==◌, eqb, eqb_iff,
  length, arith,
}
use gridops.Prelude.Int.{
  ℤ, pos, ◌<ℤ◌, ◌≤ℤ◌, ltb_ℤ, ◌+ℤ◌, pos_part, neg_part, ◌-ℤ◌, -ℤ_parts, +ℤ_parts,
}
use gridops.Prelude.Text.{codes}
use gridops.Capabilities.Evaluate.{checked_sub_ℤ}
use gridops.Cursor.{
  logs, artifacts, hosts, backends, domains, external_runners, runners, samples, fleet_events,
  host_events, commands, agent_events, is_compatible, max_cursor_bytes, max_cursor_lifetime_ms,
  CursorStream, CursorStream-discrete, CursorPosition, Claims, RetainedFrom, invalid, expired,
  retention_gap, gap, check_position, check_times, is_bad_lifetime, check_retained, split_dots,
  three_parts, same_text, is_empty, domain_prefix, Crates, sign, verify_signature, read_claims,
  check_claims, verify_signed, verify,
}
use gridops.Cursor.Signed.{issued}
use gridops.Cursor.Tokens.{same_text-eq, three_parts-split}

-- The position is of the kind of what is retained, and starts there or later: a row is followed by
-- one that a 64-bit number can count and that is still there, and a byte is still there. A catalog
-- loses nothing.
abbrev pub IsRetained : CursorPosition → RetainedFrom → Type 0
IsRetained (CursorPosition.row after) (RetainedFrom.row first) =
    (after + 1 ≤ u64_max) × (first ≤ after + 1)
IsRetained (CursorPosition.bytes offset) (RetainedFrom.byte first) = first ≤ offset
IsRetained (CursorPosition.entity after) RetainedFrom.catalog = Unit
IsRetained (CursorPosition.legacy_entity after) RetainedFrom.catalog = Unit
IsRetained _ _ = ⊥

-- The position is of the kind that the stream counts in.
abbrev pub IsPlaceOf : CursorPosition → CursorStream → Type 0
IsPlaceOf (CursorPosition.bytes offset) stream = (stream ≡ logs) ⊎ (stream ≡ artifacts)
IsPlaceOf (CursorPosition.entity after) stream =
    (stream ≡ hosts) ⊎ ((stream ≡ backends) ⊎ ((stream ≡ domains) ⊎ (stream ≡ external_runners)))
IsPlaceOf (CursorPosition.legacy_entity after) stream = stream ≡ runners
IsPlaceOf (CursorPosition.row after) stream =
    (stream ≡ samples)
    ⊎ ((stream ≡ fleet_events)
        ⊎ ((stream ≡ host_events) ⊎ ((stream ≡ commands) ⊎ (stream ≡ agent_events))))

check_position-IsPlaceOf :
    (stream : CursorStream) (p : CursorPosition)
    → check_position stream p ≡ ok tt
    → IsPlaceOf p stream
unfolding check_position is_compatible
check_position-IsPlaceOf stream (CursorPosition.row after) e = ground arith
check_position-IsPlaceOf stream (CursorPosition.bytes offset) e = ground arith
check_position-IsPlaceOf stream (CursorPosition.entity after) e = ground arith
check_position-IsPlaceOf stream (CursorPosition.legacy_entity after) e = ground arith

check_retained-IsRetained :
    (p q : CursorPosition) (r : RetainedFrom) → check_retained p r ≡ ok q → IsRetained p r
unfolding check_retained gap
check_retained-IsRetained (CursorPosition.row after) q (RetainedFrom.row first) e = ground arith
check_retained-IsRetained (CursorPosition.bytes offset) q (RetainedFrom.byte first) e = ground arith
check_retained-IsRetained (CursorPosition.entity after) q RetainedFrom.catalog e = tt
check_retained-IsRetained (CursorPosition.legacy_entity after) q RetainedFrom.catalog e = tt
check_retained-IsRetained _ q _ e = ground arith

check_retained-ok : (p q : CursorPosition) (r : RetainedFrom) → check_retained p r ≡ ok q → p ≡ q
unfolding check_retained
check_retained-ok p q r e =
    let (behind, found, e1) = >>=-eq-ok (gap p r) _ e in
    let (u, kept, e2) = >>=-eq-ok (fail_if behind retention_gap) _ e1 in cc e2

checked_sub_ℤ-ok : (a b t : ℤ) → checked_sub_ℤ a b ≡ some t → a -ℤ b ≡ t
unfolding checked_sub_ℤ
checked_sub_ℤ-ok a b t e = ground arith

check_times-bounded :
    (issued expires : ℤ)
    → check_times issued expires ≡ ok tt
    → expires ≤ℤ issued +ℤ pos max_cursor_lifetime_ms
unfolding check_times
check_times-bounded issued expires e =
    let (ttl, taken, e1) = >>=-eq-ok (ok_or (checked_sub_ℤ expires issued) invalid) _ e in
    let fits = fail_if-ok (is_bad_lifetime issued ttl) invalid e1 in
    let same =
      checked_sub_ℤ-ok expires issued ttl (ok_or-ok (checked_sub_ℤ expires issued) invalid taken) in
    let few : pos_part ttl ≤ max_cursor_lifetime_ms + neg_part ttl = ground arith in
    omega (
      arith,
      -ℤ_parts expires issued,
      +ℤ_parts issued (pos max_cursor_lifetime_ms),
      ap pos_part same,
      ap neg_part same,
      few,
    )

module _ (k : Crates) where
  open k use {
    encode, decode, mac, to_json, from_json, decode-encode, has_dot-encode, length-encode,
    length-mac, from_json-to_json, to_json-pos,
  }

  -- What a cursor that verifies says: its claims are signed, for this scope, incarnation and stream,
  -- in a lifetime of at most 30 days that has begun and not ended, at a position that is retained.
  pub record IsTrusted (token : List ℕ) (scope incarnation : ℕ) (stream : CursorStream) (now : ℤ)
      (retained : RetainedFrom) (position : CursorPosition) : Type 0 where
    pub payload : List ℕ
    pub signature : List ℕ
    pub claims : Claims
    pub whole : token ≡ codes "v1." ++ (payload ++ (codes "." ++ signature))
    pub signed : sign k (domain_prefix ++ payload) ≡ some signature
    pub decoded : (bytes : List ℕ) × (payload ≡ encode bytes) × (from_json bytes ≡ some claims)
    pub says :
        claims ≡ issued scope incarnation stream position claims.issued_at_ms claims.expires_at_ms
    pub begun : claims.issued_at_ms ≤ℤ now
    pub unexpired : now <ℤ claims.expires_at_ms
    pub bounded : claims.expires_at_ms ≤ℤ claims.issued_at_ms +ℤ pos max_cursor_lifetime_ms
    pub placed : IsPlaceOf position stream
    pub resumable : IsRetained position retained

  signature_made :
      (value signature : List ℕ)
      → verify_signature k value signature ≡ true
      → sign k value ≡ some signature
  unfolding verify_signature
  signature_made value signature e = elim (Option-cases (sign k value)) [
    | inl nothing ↦ ground arith
    | inr (made, signed) ↦
        let same : made ≡ signature = same_text-eq made signature (ground arith) in
        signed ∙ ap some same
  ]

  claims_read :
      (payload : List ℕ) (claims : Claims)
      → read_claims k payload ≡ ok claims
      → (bytes : List ℕ) × (payload ≡ encode bytes) × (from_json bytes ≡ some claims)
  unfolding read_claims
  claims_read payload claims e =
      let (bytes, decoded, e1) = >>=-eq-ok (ok_or (decode payload) invalid) _ e in
      let (u, exact, e2) =
        >>=-eq-ok (fail_if (not (same_text (encode bytes) payload)) invalid) _ e1 in
      let holds : same_text (encode bytes) payload ≡ true = ground arith in
      (bytes, sym (same_text-eq (encode bytes) payload holds), ok_or-ok _ invalid e2)

  -- What `check_claims` asks, as facts.
  record AreCurrent (claims : Claims) (scope incarnation : ℕ) (stream : CursorStream) (now : ℤ)
      (retained : RetainedFrom) (position : CursorPosition) : Type 0 where
    says :
        claims ≡ issued scope incarnation stream position claims.issued_at_ms claims.expires_at_ms
    begun : claims.issued_at_ms ≤ℤ now
    unexpired : now <ℤ claims.expires_at_ms
    bounded : claims.expires_at_ms ≤ℤ claims.issued_at_ms +ℤ pos max_cursor_lifetime_ms
    placed : IsPlaceOf position stream
    resumable : IsRetained position retained

  claims_current :
      (claims : Claims) (scope incarnation : ℕ) (stream : CursorStream) (now : ℤ)
      (retained : RetainedFrom) (position : CursorPosition)
      → check_claims k claims scope incarnation stream now retained ≡ ok position
      → AreCurrent claims scope incarnation stream now retained position
  unfolding check_claims
  claims_current claims scope incarnation stream now retained position e =
      let (u, timed, e1) = >>=-eq-ok (check_times claims.issued_at_ms claims.expires_at_ms) _ e in
      let (v, placed, e2) = >>=-eq-ok (check_position claims.stream claims.position) _ e1 in
      let other =
        not (claims.version == 1)
        || not (claims.incarnation == incarnation)
        || not (claims.scope_digest == scope)
        || not (eqb CursorStream-discrete claims.stream stream)
        || ltb_ℤ now claims.issued_at_ms in
      let (w, own, e3) = >>=-eq-ok (fail_if other invalid) _ e2 in
      let (x, live, e4) = >>=-eq-ok (fail_if (not (ltb_ℤ now claims.expires_at_ms)) expired) _ e3 in
      let fits = fail_if-ok other invalid own in
      let ended = fail_if-ok (not (ltb_ℤ now claims.expires_at_ms)) expired live in
      let stream_same : claims.stream ≡ stream =
        (eqb_iff CursorStream-discrete claims.stream stream).0 (ground arith) in
      let position_same = check_retained-ok claims.position position retained e4 in
      let place = check_position-IsPlaceOf claims.stream claims.position placed in
      let kept = check_retained-IsRetained claims.position position retained e4 in
      record {
        says = ground arith;
        begun = ground arith;
        unexpired = ground arith;
        bounded = check_times-bounded claims.issued_at_ms claims.expires_at_ms timed;
        placed = rw (stream_same, position_same) at place;
        resumable = rw position_same at kept;
      }

  verify_signed-IsTrusted :
      (token version payload signature : List ℕ) (scope incarnation : ℕ) (stream : CursorStream)
      (now : ℤ) (retained : RetainedFrom) (position : CursorPosition)
      → token ≡ version ++ (b'.' ∷ (payload ++ (b'.' ∷ signature)))
      → verify_signed k version payload signature scope incarnation stream now retained
        ≡ ok position
      → IsTrusted token scope incarnation stream now retained position
  unfolding verify_signed
  verify_signed-IsTrusted token version payload signature scope incarnation stream now retained
        position whole e =
      let (v, shaped, e3) =
        >>=-eq-ok
          (fail_if
            (not (same_text version (codes "v1"))
              || not (length signature == 43)
              || is_empty payload)
            invalid)
          _ e in
      let (w, signed, e4) =
        >>=-eq-ok (fail_if (not (verify_signature k (domain_prefix ++ payload) signature)) invalid)
          _ e3 in
      let (claims, read, e5) = >>=-eq-ok (read_claims k payload) _ e4 in
      let current = claims_current claims scope incarnation stream now retained position e5 in
      let named : version ≡ codes "v1" = same_text-eq version (codes "v1") (ground arith) in
      record {
        payload = payload;
        signature = signature;
        claims = claims;
        whole = whole ∙ ap (λ l. l ++ (b'.' ∷ (payload ++ (b'.' ∷ signature)))) named;
        signed = signature_made (domain_prefix ++ payload) signature (ground arith);
        decoded = claims_read payload claims read;
        says = current.says;
        begun = current.begun;
        unexpired = current.unexpired;
        bounded = current.bounded;
        placed = current.placed;
        resumable = current.resumable;
      }

  -- A cursor is taken only if the vault signed exactly its payload, and the payload claims this
  -- scope, incarnation, stream and position, a lifetime of at most 30 days that holds now, and a
  -- position that the stream counts in and that is within what is retained.
  pub verify-IsTrusted :
      (token : List ℕ) (scope incarnation : ℕ) (stream : CursorStream) (now : ℤ)
      (retained : RetainedFrom) (position : CursorPosition)
      → verify k token scope incarnation stream now retained ≡ ok position
      → IsTrusted token scope incarnation stream now retained position
  unfolding verify
  verify-IsTrusted token scope incarnation stream now retained position e =
      let (u, short, e1) = >>=-eq-ok (fail_if (ltb max_cursor_bytes (length token)) invalid) _ e in
      let ((version, payload, signature), parts, e2) =
        >>=-eq-ok (three_parts (split_dots [] token)) _ e1 in
      verify_signed-IsTrusted token version payload signature scope incarnation stream now retained
        position (three_parts-split token version payload signature parts) e2
