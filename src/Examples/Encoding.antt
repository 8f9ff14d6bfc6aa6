-- ===== src/Examples/Encoding.antt =====
-- Encodings of tokens that are as faithful as those of Go, for the runs on tokens.
use Prim.Native.Char.{code}
use Prim.Native.String.{String, ◌++◌}
use modura.Prelude.{
  ℤ, pos, negsuc, true, false, List, [], ◌∷◌, ◌≡◌, refl, ap, subst, map, nat_eq, if◌then◌else◌,
}
use modura.Errors.{message, Result, ok, err}
use modura.Text.Split.{split, split_whole, split-part}
use modura.Text.Decimal.{print_number, read_digits, read_digits-print_number}
use modura.Identity.Token.{TokenHeader, AccessTokenClaims, Encodings}
use modura.Identity.Token.Signing.{IsFaithful}
use modura.Examples.Escapes.{escape, unescape, unescape-escape, escape-lacks}

-- Fields between commas.
abbrev join_fields : String → List String → String
join_fields f [] = escape "," f
join_fields f (g ∷ fs) = escape "," f ++ ("," ++ join_fields g fs)

abbrev fields : String → List String
fields s = map (unescape "," false) (split b',' s)

fields-join_fields : (f : String) (fs : List String) → fields (join_fields f fs) ≡ f ∷ fs
fields-join_fields f [] =
    rw (split_whole b',' (escape "," f) (escape-lacks "," f refl refl), unescape-escape "," f)
fields-join_fields f (g ∷ fs) = rw (
  split-part b',' (escape "," f) "," (join_fields g fs) (escape-lacks "," f refl refl) refl,
  unescape-escape "," f,
  fields-join_fields g fs,
)

abbrev int_text : ℤ → String
int_text (pos n) = String.◌∷◌ "+" (print_number n "")
int_text (negsuc n) = String.◌∷◌ "-" (print_number n "")

abbrev read_int : String → ℤ
read_int String.[] = pos 0
read_int (String.◌∷◌ c s) =
    if nat_eq (code c) b'+' then pos (read_digits 0 s).0 else negsuc (read_digits 0 s).0

read_int-int_text : (z : ℤ) → read_int (int_text z) ≡ z
read_int-int_text (pos n) = ap (λ r. pos r.0) (read_digits-print_number n "" refl)
read_int-int_text (negsuc n) = ap (λ r. negsuc r.0) (read_digits-print_number n "" refl)

abbrev header_text : TokenHeader → String
header_text h = join_fields h.algorithm (h.typ ∷ h.key_id ∷ [])

abbrev claims_text : AccessTokenClaims → String
claims_text c = join_fields c.issuer (
    c.audience
    ∷ c.principal_type
    ∷ c.subject
    ∷ c.tenant_id
    ∷ c.session_id
    ∷ c.token_id
    ∷ int_text c.security_version
    ∷ int_text c.issued_at
    ∷ int_text c.expires_at
    ∷ [])

abbrev header_of : List String → Result TokenHeader
header_of (a ∷ t ∷ k ∷ []) = ok (record { algorithm = a; typ = t; key_id = k })
header_of _ = err (message "no header")

abbrev claims_of : List String → Result AccessTokenClaims
claims_of (a ∷ b ∷ c ∷ d ∷ e ∷ f ∷ g ∷ x ∷ y ∷ z ∷ []) = ok (record {
  issuer = a;
  audience = b;
  principal_type = c;
  subject = d;
  tenant_id = e;
  session_id = f;
  token_id = g;
  security_version = read_int x;
  issued_at = read_int y;
  expires_at = read_int z;
})
claims_of _ = err (message "no claims")

abbrev pub encodings : Encodings
encodings = record {
  marshal_header = λ h. ok (header_text h);
  marshal_claims = λ c. ok (claims_text c);
  unmarshal_header = λ s. header_of (fields s);
  unmarshal_claims = λ s. claims_of (fields s);
  encode = escape ".";
  decode = λ s. (unescape "." false s, true);
  hmac = λ key s. key ++ s;
}

header_read : (h : TokenHeader) → encodings.unmarshal_header (header_text h) ≡ ok h
header_read h = rw (fields-join_fields h.algorithm (h.typ ∷ h.key_id ∷ []))

claims_read : (c : AccessTokenClaims) → encodings.unmarshal_claims (claims_text c) ≡ ok c
claims_read c = rw (
  fields-join_fields c.issuer (
      c.audience
      ∷ c.principal_type
      ∷ c.subject
      ∷ c.tenant_id
      ∷ c.session_id
      ∷ c.token_id
      ∷ int_text c.security_version
      ∷ int_text c.issued_at
      ∷ int_text c.expires_at
      ∷ []),
  read_int-int_text c.security_version,
  read_int-int_text c.issued_at,
  read_int-int_text c.expires_at,
)

pub encodings-IsFaithful : IsFaithful encodings
encodings-IsFaithful = record {
  header = λ h s e. subst (λ x. encodings.unmarshal_header x ≡ ok h) (cc e) (header_read h);
  claims = λ c s e. subst (λ x. encodings.unmarshal_claims x ≡ ok c) (cc e) (claims_read c);
  decoded = λ x. rw (unescape-escape "." x);
  undotted = λ x. escape-lacks "." x refl refl;
}
