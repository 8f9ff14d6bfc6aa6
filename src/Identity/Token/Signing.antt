-- ===== src/Identity/Token/Signing.antt =====
-- Tokens that `Sign` and `SignPlatform` make, as `Verify` reads them.
use Prim.Native.String.{◌++◌, count}
use text.Mathlib.TextLemmas.{append_assoc}
use modura.Prelude.{
  ℕ, pos, ◌+◌, ◌*◌, ◌/◌, ◌≤◌, ◌<◌, String, true, false, not, ◌||◌, ◌==◌, Option, none, some, [],
  ◌∷◌, ◌≡◌, refl, sym, ◌∙◌, ap, blank, ltb, arith, eq_iff, eq_refl, Bool-cases, inl, inr,
}
use modura.Errors.{IdentityError, identity, Result, ok, err, wrapped, ◌>>=◌}
use modura.Text.Split.{split, has_char, split_whole, split-part}
use modura.Identity.Types.{Actor}
use modura.Identity.Token.{
  TokenHeader, AccessTokenClaims, Encodings, AccessTokenSigner, AccessTokenVerifier, nanoseconds,
  header_of, signed, sign, tenant_claims, decode_token_json, check_times, check_claims, check_key,
  check_header, check_parts, verify, valid_claims,
}

-- What encoding/json and encoding/base64 document: decoding undoes encoding, and the alphabet of
-- base64.RawURLEncoding has no dot.
pub record IsFaithful (enc : Encodings) : Type 0 where
  pub header :
      (h : TokenHeader) (s : String) → enc.marshal_header h ≡ ok s → enc.unmarshal_header s ≡ ok h
  pub claims :
      (c : AccessTokenClaims) (s : String)
      → enc.marshal_claims c ≡ ok s
      → enc.unmarshal_claims s ≡ ok c
  pub decoded : (x : String) → enc.decode (enc.encode x) ≡ (x, true)
  pub undotted : (x : String) → has_char b'.' (enc.encode x) ≡ false

regrouped : (a b c : String) → (a ++ ("." ++ b)) ++ ("." ++ c) ≡ a ++ ("." ++ (b ++ ("." ++ c)))
regrouped a b c =
    append_assoc a ("." ++ b) ("." ++ c) ∙ ap (λ x. a ++ x) (append_assoc "." b ("." ++ c))

split_three :
    (a b c : String)
    → has_char b'.' a ≡ false
    → has_char b'.' b ≡ false
    → has_char b'.' c ≡ false
    → split b'.' ((a ++ ("." ++ b)) ++ ("." ++ c)) ≡ a ∷ b ∷ c ∷ []
split_three a b c h k l = rw (
  regrouped a b c,
  split-part b'.' a _ (b ++ ("." ++ c)) h refl,
  split-part b'.' b _ c k refl,
  split_whole b'.' c l,
)

module _ (enc : Encodings) (law : IsFaithful enc) where
  decode_token_json-encode :
      {A : Type 0} (unmarshal : String → Result A) (x : String)
      → decode_token_json enc unmarshal (enc.encode x) ≡ unmarshal x
  unfolding decode_token_json
  decode_token_json-encode unmarshal x = rw (law.decoded x)

  -- The parts that a signed token has.
  pub record IsSigned (s : AccessTokenSigner) (c : AccessTokenClaims) (token : String)
      : Type 0 where
    pub header : String
    pub payload : String
    pub header_read : enc.unmarshal_header header ≡ ok (header_of s)
    pub payload_read : enc.unmarshal_claims payload ≡ ok c
    pub parts :
        split b'.' token
        ≡ enc.encode header
          ∷ enc.encode payload
          ∷ enc.encode (enc.hmac s.key (enc.encode header ++ ("." ++ enc.encode payload)))
          ∷ []

  pub signed-IsSigned :
      (s : AccessTokenSigner) (c : AccessTokenClaims) {token : String}
      → signed enc s c ≡ ok token
      → IsSigned s c token
  unfolding signed
  signed-IsSigned s c {token} h = go _ _ refl refl h
    where
      go :
          (a b : Result String)
          → enc.marshal_header (header_of s) ≡ a
          → enc.marshal_claims c ≡ b
          → (wrapped "marshal token header" a >>= λ header.
              wrapped "marshal token claims" b >>= λ payload. ok (
                (enc.encode header ++ ("." ++ enc.encode payload))
                ++ ("."
                    ++ enc.encode
                        (enc.hmac s.key (enc.encode header ++ ("." ++ enc.encode payload))))))
            ≡ ok token
          → IsSigned s c token
      go (err x) b k l e = cc
      go (ok x) (err y) k l e = cc
      go (ok x) (ok y) k l e = record {
        header = x;
        payload = y;
        header_read = law.header _ x k;
        payload_read = law.claims _ y l;
        parts =
            ap (split b'.') (sym (cc e))
            ∙ split_three _ _ _ (law.undotted x) (law.undotted y) (law.undotted _);
      }

  -- A verifier that knows the key judges a signed token by its claims.
  verify-signed :
      (s : AccessTokenSigner) (v : AccessTokenVerifier) (c : AccessTokenClaims) (now : ℕ)
      {token : String}
      → v.keys s.key_id ≡ some s.key
      → 32 ≤ count s.key
      → signed enc s c ≡ ok token
      → verify enc v token now ≡ check_claims enc v now c
  unfolding verify check_parts check_header check_key
  verify-signed s v c now known long h =
      let k = signed-IsSigned s c h in
      rw
        (
          k.parts,
          decode_token_json-encode enc.unmarshal_header k.header,
          k.header_read,
          known,
          law.decoded (enc.hmac s.key (enc.encode k.header ++ ("." ++ enc.encode k.payload))),
          eq_refl (enc.hmac s.key (enc.encode k.header ++ ("." ++ enc.encode k.payload))),
          decode_token_json-encode enc.unmarshal_claims k.payload,
          k.payload_read,
        )
        (ground arith)

  check_claims-same :
      (v : AccessTokenVerifier) (now : ℕ) (c : AccessTokenClaims) {c' : AccessTokenClaims}
      → check_claims enc v now c ≡ ok c'
      → c' ≡ c
  unfolding check_claims check_times
  check_claims-same v now c h = ground arith

  -- A verifier, whatever it knows, reads from a signed token no claims but those that were signed.
  pub verify-same :
      (s : AccessTokenSigner) (v : AccessTokenVerifier) (c : AccessTokenClaims) (now : ℕ)
      {token : String} {c' : AccessTokenClaims}
      → signed enc s c ≡ ok token
      → verify enc v token now ≡ ok c'
      → c' ≡ c
  unfolding verify check_parts check_header check_key
  verify-same s v c now {c' = c'} h accepted =
      let k = signed-IsSigned s c h in
      by_key k (v.keys s.key_id) (
        rw (k.parts, decode_token_json-encode enc.unmarshal_header k.header, k.header_read) at
          accepted)
    where
      by_key :
          {token : String} (k : IsSigned s c token) (o : Option String)
          → check_key enc v
              (enc.encode k.header)
              (enc.encode k.payload)
              (enc.encode (enc.hmac s.key (enc.encode k.header ++ ("." ++ enc.encode k.payload))))
              now
              o
            ≡ ok c'
          → c' ≡ c
      by_key k none e = cc e
      by_key k (some key) e =
          elim (Bool-cases (
            ltb (count key) 32
            || not (
                enc.hmac key (enc.encode k.header ++ ("." ++ enc.encode k.payload))
                == (enc.decode (
                    enc.encode (
                      enc.hmac s.key
                        (enc.encode k.header ++ ("." ++ enc.encode k.payload))))).0))) [
                          | inl bad ↦ cc (rw bad at e)
                          | inr good ↦ check_claims-same v now c (
                              rw
                                (
                                  good,
                                  decode_token_json-encode enc.unmarshal_claims k.payload,
                                  k.payload_read,
                                )
                                at e)
                        ]

  -- The claims are good from a skew before they were issued until a skew after they end.
  module _ (v : AccessTokenVerifier) (c : AccessTokenClaims) (issued ends : ℕ)
      (at_issue : c.issued_at ≡ pos issued) (at_end : c.expires_at ≡ pos ends)
      (valid : valid_claims v c ≡ true) (lasts : issued < ends) where
    check_claims-accepted :
        (now : ℕ)
        → issued * nanoseconds ≤ now + v.clock_skew
        → now ≤ ends * nanoseconds + v.clock_skew
        → check_claims enc v now c ≡ ok c
    unfolding check_claims check_times
    check_claims-accepted now a b = rw valid (ground arith)

    check_claims-expired :
        (now : ℕ)
        → ends * nanoseconds + v.clock_skew < now
        → check_claims enc v now c ≡ err (identity IdentityError.expired_token)
    unfolding check_claims check_times
    check_claims-expired now a = rw valid (ground arith)

  -- What the claims of a tenant's token name.
  pub record IsIdentified (actor : Actor) (token_id : String) (version : ℕ) : Type 0 where
    pub tenant : blank actor.tenant_id ≡ false
    pub user : blank actor.user_id ≡ false
    pub session : blank actor.session_id ≡ false
    pub token : blank token_id ≡ false
    pub versioned : 0 < version

  tenant_claims-valid :
      (s : AccessTokenSigner) (v : AccessTokenVerifier) (actor : Actor) (token_id : String)
      (version now : ℕ)
      → v.issuer ≡ s.issuer
      → v.audience ≡ s.audience
      → IsIdentified actor token_id version
      → valid_claims v (tenant_claims enc s actor token_id version now) ≡ true
  unfolding valid_claims
  tenant_claims-valid s v actor token_id version now same_issuer same_audience k =
      ground (arith, eq_iff s.issuer v.issuer, eq_iff s.audience v.audience)

  -- A token of `Sign` is what `Verify` accepts while it lasts: a verifier for the signer's issuer,
  -- audience and key reads from it exactly the actor, the session and the security version it was
  -- signed for, from a clock skew before the second of its issue until a skew after its end, and
  -- calls it expired from then on. The signer's key has 32 bytes, its lifetime a second or more.
  pub verify-sign :
      (s : AccessTokenSigner) (v : AccessTokenVerifier) (actor : Actor) (token_id : String)
      (version now : ℕ) {token : String}
      → v.keys s.key_id ≡ some s.key
      → 32 ≤ count s.key
      → v.issuer ≡ s.issuer
      → v.audience ≡ s.audience
      → nanoseconds ≤ s.lifetime
      → IsIdentified actor token_id version
      → sign enc s actor token_id version now ≡ ok token
      → ((later : ℕ)
          → now / nanoseconds * nanoseconds ≤ later + v.clock_skew
          → later ≤ (now + s.lifetime) / nanoseconds * nanoseconds + v.clock_skew
          → verify enc v token later ≡ ok (tenant_claims enc s actor token_id version now))
        × ((later : ℕ)
            → (now + s.lifetime) / nanoseconds * nanoseconds + v.clock_skew < later
            → verify enc v token later ≡ err (identity IdentityError.expired_token))
  unfolding sign
  verify-sign s v actor token_id version now known long same_issuer same_audience lasting k h =
      let c = tenant_claims enc s actor token_id version now in
      let valid = tenant_claims-valid s v actor token_id version now same_issuer same_audience k in
      let lasts : now / nanoseconds < (now + s.lifetime) / nanoseconds = omega arith in
      (
        λ later a b.
            verify-signed s v c later known long h
            ∙ check_claims-accepted v c _ _ refl refl valid lasts later a b,
        λ later a.
            verify-signed s v c later known long h
            ∙ check_claims-expired v c _ _ refl refl valid lasts later a,
      )
