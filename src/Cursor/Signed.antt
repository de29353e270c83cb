-- ===== src/Cursor/Signed.antt =====
-- Which cursors crates/gridops-core/src/fleet/cursor.rs accepts.
use gridops.Prelude.{
  ℕ, ◌<◌, ◌≡◌, refl, ◌∙◌, sym, ap, inl, inr, true, false, some, Option-cases, List, [], ◌∷◌, ◌++◌,
  ok, fail_if, ok_or, >>=-eq-ok, ok_or-ok, fail_if-ok, ltb, ◌==◌, eqb_iff, length, arith,
}
use gridops.Prelude.Int.{ℤ, ◌<ℤ◌, ◌≤ℤ◌, ltb_ℤ}
use gridops.Prelude.Text.{codes}
use gridops.Cursor.{
  max_cursor_bytes, CursorStream, CursorStream-discrete, CursorPosition, Claims, RetainedFrom,
  invalid, signing, check_position, check_times, check_retained, split_dots, same_text, has_dot,
  is_empty, domain_prefix, Crates, sign, verify_signature, issue, read_claims, check_claims,
  verify_signed, verify,
}
use gridops.Cursor.Tokens.{same_text_refl, split_dots-dot, split_dots-last}

length-is_empty : (xs : List ℕ) → 0 < length xs → is_empty xs ≡ false
length-is_empty [] h = ground arith
length-is_empty (x ∷ xs) h = refl

-- The claims that a cursor is issued with.
abbrev pub issued : ℕ → ℕ → CursorStream → CursorPosition → ℤ → ℤ → Claims
issued scope incarnation stream position now expires = record {
  version = 1;
  incarnation = incarnation;
  scope_digest = scope;
  stream = stream;
  position = position;
  issued_at_ms = now;
  expires_at_ms = expires;
}

module _ (k : Crates) where
  open k use {
    encode, decode, mac, to_json, from_json, decode-encode, has_dot-encode, length-encode,
    length-mac, from_json-to_json, to_json-pos,
  }

  sign-encoded :
      (value signature : List ℕ)
      → sign k value ≡ some signature
      → (has_dot signature ≡ false) × (length signature ≡ 43)
  unfolding sign
  sign-encoded value signature e = elim (Option-cases (mac value)) [
    | inl nothing ↦ ground arith
    | inr (m, made) ↦
        let same : encode m ≡ signature = ground arith in
        (
          rw same at (has_dot-encode m),
          omega (arith, length-encode m, length-mac value m made, ap length same),
        )
  ]

  split-issued :
      (payload signature : List ℕ)
      → has_dot payload ≡ false
      → has_dot signature ≡ false
      → split_dots [] (codes "v1." ++ (payload ++ (codes "." ++ signature)))
        ≡ codes "v1" ∷ payload ∷ signature ∷ []
  unfolding split_dots
  split-issued payload signature p s =
      ap (λ l. codes "v1" ∷ l)
        (split_dots-dot [] payload signature p
          ∙ ap (λ l. payload ∷ l) (split_dots-last [] signature s))

  -- What a cursor that was issued consists of.
  record Issued (scope incarnation : ℕ) (stream : CursorStream) (position : CursorPosition)
      (now expires : ℤ) (token signature : List ℕ) : Type 0 where
    payload : List ℕ
    encoded : payload ≡ encode (to_json (issued scope incarnation stream position now expires))
    timed : check_times now expires ≡ ok tt
    placed : check_position stream position ≡ ok tt
    signed : sign k (domain_prefix ++ payload) ≡ some signature
    short : ltb max_cursor_bytes (length token) ≡ false
    whole : token ≡ codes "v1." ++ (payload ++ (codes "." ++ signature))

  issue_cases :
      (scope incarnation : ℕ) (stream : CursorStream) (position : CursorPosition) (now expires : ℤ)
      (token : List ℕ)
      → issue k scope incarnation stream position now expires ≡ ok token
      → (signature : List ℕ) × Issued scope incarnation stream position now expires token signature
  unfolding issue
  issue_cases scope incarnation stream position now expires token e =
      let payload = encode (to_json (issued scope incarnation stream position now expires)) in
      let (u, timed, e1) = >>=-eq-ok (check_times now expires) _ e in
      let (v, placed, e2) = >>=-eq-ok (check_position stream position) _ e1 in
      let (signature, signed, e3) =
        >>=-eq-ok (ok_or (sign k (domain_prefix ++ payload)) signing) _ e2 in
      let made = codes "v1." ++ (payload ++ (codes "." ++ signature)) in
      let (w, short, e4) = >>=-eq-ok (fail_if (ltb max_cursor_bytes (length made)) invalid) _ e3 in
      let same : made ≡ token = cc e4 in
      (
        signature,
        record {
          payload = payload;
          encoded = refl;
          timed = timed;
          placed = placed;
          signed = ok_or-ok _ signing signed;
          short = ap (λ t. ltb max_cursor_bytes (length t)) (sym same) ∙ fail_if-ok _ invalid short;
          whole = sym same;
        },
      )

  -- A token of three parts whose signature holds is judged by its claims.
  verify_parts :
      (token payload signature : List ℕ) (c : Claims) (scope incarnation : ℕ)
      (stream : CursorStream) (now : ℤ) (retained : RetainedFrom)
      → ltb max_cursor_bytes (length token) ≡ false
      → split_dots [] token ≡ codes "v1" ∷ payload ∷ signature ∷ []
      → length signature ≡ 43
      → is_empty payload ≡ false
      → verify_signature k (domain_prefix ++ payload) signature ≡ true
      → read_claims k payload ≡ ok c
      → verify k token scope incarnation stream now retained
        ≡ check_claims k c scope incarnation stream now retained
  unfolding verify verify_signed same_text
  verify_parts token payload signature c scope incarnation stream now retained short parts long
        filled signed read =
      rw short (rw parts (rw long (rw filled (rw signed (rw read refl)))))

  filled_payload : (c : Claims) → is_empty (encode (to_json c)) ≡ false
  filled_payload c =
      length-is_empty (encode (to_json c)) (omega (arith, length-encode (to_json c), to_json-pos c))

  own_signature :
      (value signature : List ℕ)
      → sign k value ≡ some signature
      → verify_signature k value signature ≡ true
  unfolding verify_signature
  own_signature value signature e = rw (e, verify_signature) (same_text_refl signature)

  read_back : (c : Claims) → read_claims k (encode (to_json c)) ≡ ok c
  unfolding read_claims
  read_back c =
      rw (decode-encode (to_json c))
        (rw (same_text_refl (encode (to_json c))) (rw (from_json-to_json c) refl))

  check_issued :
      (scope incarnation : ℕ) (stream : CursorStream) (position : CursorPosition)
      (now expires later : ℤ) (retained : RetainedFrom)
      → check_times now expires ≡ ok tt
      → check_position stream position ≡ ok tt
      → now ≤ℤ later
      → later <ℤ expires
      → check_retained position retained ≡ ok position
      → check_claims k
          (issued scope incarnation stream position now expires)
          scope
          incarnation
          stream
          later
          retained
        ≡ ok position
  unfolding check_claims
  check_issued scope incarnation stream position now expires later retained timed placed begun ends
        kept =
      let same = (eqb_iff CursorStream-discrete stream stream).1 refl in
      let one : (incarnation == incarnation) ≡ true = ground arith in
      let two : (scope == scope) ≡ true = ground arith in
      let started : ltb_ℤ later now ≡ false = ground arith in
      let running : ltb_ℤ later expires ≡ true = ground arith in
      rw timed (rw placed (rw same (rw one (rw two (rw started (rw running kept))))))

  -- A cursor that was issued and is not too old for its stream is taken, by the same scope in the
  -- same incarnation from the time of issue up to its expiry, and gives back its position.
  pub verify-issue :
      (scope incarnation : ℕ) (stream : CursorStream) (position : CursorPosition)
      (now expires later : ℤ) (retained : RetainedFrom) (token : List ℕ)
      → issue k scope incarnation stream position now expires ≡ ok token
      → now ≤ℤ later
      → later <ℤ expires
      → check_retained position retained ≡ ok position
      → verify k token scope incarnation stream later retained ≡ ok position
  verify-issue scope incarnation stream position now expires later retained token e begun ends
        kept =
      let (signature, was) = issue_cases scope incarnation stream position now expires token e in
      let claims = issued scope incarnation stream position now expires in
      let plain = rw (← was.encoded) at (has_dot-encode (to_json claims)) in
      let (dotless, long) = sign-encoded (domain_prefix ++ was.payload) signature was.signed in
      verify_parts token was.payload signature claims scope incarnation stream later retained
        was.short (ap (split_dots []) was.whole ∙ split-issued was.payload signature plain dotless)
        long (rw (← was.encoded) at (filled_payload claims))
        (own_signature (domain_prefix ++ was.payload) signature was.signed)
        (rw (← was.encoded) at (read_back claims))
      ∙ check_issued scope incarnation stream position now expires later retained was.timed
          was.placed begun ends kept
