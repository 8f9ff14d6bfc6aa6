-- ===== src/Audit/Redaction.antt =====
-- `redactState`, `redactValue` and `sensitiveKey` of backend/internal/modules/audit/service.go.
-- `parse` and `print` are json.Unmarshal and json.Marshal. The loop over an object's entries is a
-- loop over their list, and `lower` is unicode.ToLower.
use modura.Prelude.{
  String, Char, code, Bool, true, false, not, ◌&&◌, ◌||◌, Option, none, some, List, [], ◌∷◌, ◌≡◌,
  refl, ◌==◌, blank, nat_eq, any, if◌then◌else◌, arith, Bool-cases, inl, inr, ap, sym, eq-true→eq,
}
use modura.Text.{map_runes}

mutual
  pub data Json : Type 0 where
    null : Json
    boolean : Bool → Json
    number : String → Json
    text : String → Json
    array : Items → Json
    object : Entries → Json

  pub data Items : Type 0 where
    nil : Items
    item : Json → Items → Items

  pub data Entries : Type 0 where
    end : Entries
    entry : String → Json → Entries → Entries

unfoldable pub has_prefix : String → String → Bool
has_prefix String.[] s = true
has_prefix (String.◌∷◌ c p) String.[] = false
has_prefix (String.◌∷◌ c p) (String.◌∷◌ d s) = nat_eq (code c) (code d) && has_prefix p s

-- strings.Contains(s, fragment)
unfoldable pub contains_text : String → String → Bool
unfolding has_prefix
contains_text fragment String.[] = has_prefix fragment String.[]
contains_text fragment (String.◌∷◌ c s) =
    has_prefix fragment (String.◌∷◌ c s) || contains_text fragment s

abbrev pub fragments : List String
fragments =
    "password" ∷ "secret" ∷ "token" ∷ "credential" ∷ "authorization" ∷ "cookie" ∷ "session" ∷ []

module _ (lower : Char → Char) where
  -- sensitiveKey
  unfoldable pub sensitive_key : String → Bool
  unfolding contains_text map_runes
  sensitive_key key = any (λ fragment. contains_text fragment (map_runes lower key)) fragments

  unfoldable mutual
    pub redact_value : Json → Json
    redact_value null = null
    redact_value (boolean b) = boolean b
    redact_value (number n) = number n
    redact_value (text s) = text s
    redact_value (array items) = array (redact_items items)
    redact_value (object entries) = object (redact_entries entries)

    pub redact_items : Items → Items
    redact_items nil = nil
    redact_items (item v items) = item (redact_value v) (redact_items items)

    pub redact_entries : Entries → Entries
    redact_entries end = end
    redact_entries (entry key v entries) =
        let child = redact_value v in
        entry key (if sensitive_key key then text "[redacted]" else child) (redact_entries entries)

  -- Some entry under a sensitive key, at any depth, is not the text that redaction puts there.
  abbrev is_redacted : Json → Bool
  is_redacted (text s) = s == "[redacted]"
  is_redacted null = false
  is_redacted (boolean b) = false
  is_redacted (number n) = false
  is_redacted (array items) = false
  is_redacted (object entries) = false

  unfoldable mutual
    pub exposes : Json → Bool
    exposes null = false
    exposes (boolean b) = false
    exposes (number n) = false
    exposes (text s) = false
    exposes (array items) = exposes_items items
    exposes (object entries) = exposes_entries entries

    pub exposes_items : Items → Bool
    exposes_items nil = false
    exposes_items (item v items) = exposes v || exposes_items items

    pub exposes_entries : Entries → Bool
    exposes_entries end = false
    exposes_entries (entry key v entries) =
        let child = exposes v in
        (if sensitive_key key then not (is_redacted v) else child) || exposes_entries entries

  mutual
    unfolding redact_value exposes

    redact_value-exposes : (v : Json) → exposes (redact_value v) ≡ false
    redact_value-exposes null = refl
    redact_value-exposes (boolean b) = refl
    redact_value-exposes (number n) = refl
    redact_value-exposes (text s) = refl
    redact_value-exposes (array items) = redact_items-exposes items
    redact_value-exposes (object entries) = redact_entries-exposes entries

    redact_items-exposes : (items : Items) → exposes_items (redact_items items) ≡ false
    redact_items-exposes nil = refl
    redact_items-exposes (item v items) = rw (redact_value-exposes v) (redact_items-exposes items)

    redact_entries-exposes : (entries : Entries) → exposes_entries (redact_entries entries) ≡ false
    redact_entries-exposes end = refl
    redact_entries-exposes (entry key v entries) = elim (Bool-cases (sensitive_key key)) [
      | inl e ↦ rw e (redact_entries-exposes entries)
      | inr e ↦ rw (e, redact_value-exposes v) (redact_entries-exposes entries)
    ]

  redacted-eq : (v : Json) → not (is_redacted v) ≡ false → text "[redacted]" ≡ v
  redacted-eq (text s) h = ap text (sym (eq-true→eq s "[redacted]" (ground arith)))
  redacted-eq null h = cc
  redacted-eq (boolean b) h = cc
  redacted-eq (number n) h = cc
  redacted-eq (array items) h = cc
  redacted-eq (object entries) h = cc

  mutual
    unfolding redact_value exposes

    redact_value-fixed : (v : Json) → exposes v ≡ false → redact_value v ≡ v
    redact_value-fixed null h = refl
    redact_value-fixed (boolean b) h = refl
    redact_value-fixed (number n) h = refl
    redact_value-fixed (text s) h = refl
    redact_value-fixed (array items) h = ap array (redact_items-fixed items h)
    redact_value-fixed (object entries) h = ap object (redact_entries-fixed entries h)

    redact_items-fixed : (items : Items) → exposes_items items ≡ false → redact_items items ≡ items
    redact_items-fixed nil h = refl
    redact_items-fixed (item v items) h =
        rw (redact_value-fixed v (ground arith), redact_items-fixed items (ground arith))

    redact_entries-fixed :
        (entries : Entries) → exposes_entries entries ≡ false → redact_entries entries ≡ entries
    redact_entries-fixed end h = refl
    redact_entries-fixed (entry key v entries) h = elim (Bool-cases (sensitive_key key)) [
      | inl e ↦
          let k = rw e at h in
          rw (e, redact_entries-fixed entries (ground arith), redacted-eq v (ground arith))
      | inr e ↦
          let k = rw e at h in
          rw (e, redact_entries-fixed entries (ground arith), redact_value-fixed v (ground arith))
    ]

  -- What `redactValue` leaves holds nothing but the mark under a sensitive key, at any depth; a value
  -- that held nothing else there is left as it was.
  pub redact_value_hides :
      (v : Json) → (exposes (redact_value v) ≡ false) × (exposes v ≡ false → redact_value v ≡ v)
  redact_value_hides v = (redact_value-exposes v, redact_value-fixed v)

  module _ (parse : String → Option Json) (print : Json → Option String) where
    printed : Option String → String
    printed none = "\"[redacted]\""
    printed (some s) = s

    restated : Option Json → String
    unfolding printed
    restated none = "\"[redacted-invalid-state]\""
    restated (some v) = printed (print (redact_value v))

    -- redactState, of a column that may be NULL
    unfoldable pub redact_state : Option String → String
    unfolding restated
    redact_state none = ""
    redact_state (some raw) = if blank raw then "" else restated (parse raw)
