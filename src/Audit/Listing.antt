-- ===== src/Audit/Listing.antt =====
-- `List` of backend/internal/modules/audit/service.go and of postgres/store.go.
use modura.Prelude.{
  ℕ, zero, suc, ◌+◌, ◌≤◌, ℤ, pos, negsuc, String, Char, code, Bool, true, false, not, ◌&&◌, ◌||◌,
  Option, none, some, List, [], ◌∷◌, ◌≡◌, refl, ap, sym, subst, any-false, ◌∙◌, ◌==◌, blank, leb,
  ltb, nat_eq, any, filter, insertion_sort, if◌then◌else◌, arith, map, length, Bool-cases, inl, inr,
  any-insertion_sort, any-filter,
}
use modura.Errors.{message, Result, ok, err}
use modura.Text.{trim_space, text_le}
use modura.Database.{ActorType, AuditEvent, Db}
use modura.Database.Tx.{Faults, Op, run, query, fail, pure, ◌>>=◌, labelled_call}
use modura.Database.Tx.Rules.{ensures_pure, ensures_fail, then_query}
use modura.Database.Tx.Runs.{run-ensures, labelled_call-ok}
use modura.Audit.Redaction.{Json, redact_state}

-- The redacted projection of an event; its result is always "succeeded".
pub record Record : Type 0 where
  pub id : String
  pub actor_type : ActorType
  pub actor_id : String
  pub tenant_id : Option String
  pub action : String
  pub resource : String
  pub resource_id : String
  pub reason : String
  pub correlation_id : String
  pub occurred_at : ℕ
  pub before_state : String
  pub after_state : String

abbrev pub matches : Option String → String → Bool
matches none t = false
matches (some s) t = s == t

-- occurred_at DESC, id DESC
abbrev newer : AuditEvent → AuditEvent → Bool
newer a b =
    ltb b.occurred_at a.occurred_at || (nat_eq a.occurred_at b.occurred_at && text_le b.id a.id)

unfoldable pub take {ℓ} : {A : Type ℓ} → ℕ → List A → List A
take zero xs = []
take (suc n) [] = []
take (suc n) (x ∷ xs) = x ∷ take n xs

unfoldable pub drop {ℓ} : {A : Type ℓ} → ℕ → List A → List A
drop zero xs = xs
drop (suc n) [] = []
drop (suc n) (x ∷ xs) = drop n xs

abbrev at_least : ℕ → ℤ → Bool
at_least n (pos m) = leb n m
at_least n (negsuc m) = false

abbrev at_most : ℕ → ℤ → Bool
at_most n (pos m) = leb m n
at_most n (negsuc m) = true

abbrev pub to_nat : ℤ → ℕ
to_nat (pos m) = m
to_nat (negsuc m) = 0

-- len of a Go text: its bytes in UTF-8.
unfoldable pub bytes : String → ℕ
bytes String.[] = 0
bytes (String.◌∷◌ c s) =
    (if ltb (code c) 0x80
      then 1
      else if ltb (code c) 0x800
      then 2
      else if ltb (code c) 0x10000
      then 3
      else 4)
    + bytes s

module _ (lower : Char → Char) (parse : String → Option Json) (print : Json → Option String) where
  unfoldable pub record_of : AuditEvent → Record
  record_of e = record {
    id = e.id;
    actor_type = e.actor_type;
    actor_id = e.actor_id;
    tenant_id = e.tenant_id;
    action = e.action;
    resource = e.resource;
    resource_id = e.resource_id;
    reason = e.reason;
    correlation_id = e.correlation_id;
    occurred_at = e.occurred_at;
    before_state = redact_state lower parse print e.before_state;
    after_state = redact_state lower parse print e.after_state;
  }

  -- The query of Store.List: a page of the tenant's events, the newest first.
  unfoldable pub audit_page : String → String → String → ℕ → ℕ → Db → List AuditEvent
  audit_page t action resource limit offset db = take limit (
      drop offset (
        insertion_sort newer (
          filter
            (λ e.
              matches e.tenant_id t
              && (blank action || e.action == action)
              && (blank resource || e.resource == resource))
            db.audit_events)))

  -- List, with `enabled` where the read side is configured.
  unfoldable pub list_events : Faults → Bool → String → String → String → ℤ → ℤ → Op (List Record)
  list_events down enabled t action resource limit offset =
      if blank t
        || not enabled
        || not (at_least 1 limit)
        || not (at_most 100 limit)
        || not (at_least 0 offset)
        || ltb 128 (bytes (trim_space action))
        || ltb 128 (bytes (trim_space resource))
      then run (fail (message "invalid audit query"))
      else labelled_call "list audit events" (
          run do
            rows ← query down "query audit events" (
                audit_page t (trim_space action) (trim_space resource) (to_nat limit)
                  (to_nat offset))
            pure (ok (map record_of rows)))

  any-take :
      (q : AuditEvent → Bool) (n : ℕ) (xs : List AuditEvent)
      → any q xs ≡ false
      → any q (take n xs) ≡ false
  unfolding take
  any-take q zero xs h = refl
  any-take q (suc n) [] h = refl
  any-take q (suc n) (x ∷ xs) h = ground (arith, any-take q n xs)

  any-drop :
      (q : AuditEvent → Bool) (n : ℕ) (xs : List AuditEvent)
      → any q xs ≡ false
      → any q (drop n xs) ≡ false
  unfolding drop
  any-drop q zero xs h = h
  any-drop q (suc n) [] h = refl
  any-drop q (suc n) (x ∷ xs) h = any-drop q n xs (ground arith)

  length-take : (n : ℕ) (xs : List AuditEvent) → length (take n xs) ≤ n
  unfolding take
  length-take zero xs = omega arith
  length-take (suc n) [] = omega arith
  length-take (suc n) (x ∷ xs) = omega (arith, length-take n xs)

  length-records : (xs : List AuditEvent) → length (map record_of xs) ≡ length xs
  length-records [] = refl
  length-records (x ∷ xs) = ap suc (length-records xs)

  any-records :
      (q : Record → Bool) (p : AuditEvent → Bool) (xs : List AuditEvent)
      → ((e : AuditEvent) → q (record_of e) ≡ p e)
      → any q (map record_of xs) ≡ any p xs
  any-records q p [] h = refl
  any-records q p (x ∷ xs) h = rw (h x, any-records q p xs h)

  to_nat-le : (n : ℕ) (l : ℤ) → not (at_most n l) ≡ false → to_nat l ≤ n
  to_nat-le n (pos m) h = ground arith
  to_nat-le n (negsuc m) h = omega arith

  -- A page of the tenant's events with at most `limit` of them.
  abbrev pub IsPage : String → ℕ → Result (List Record) → Type 0
  IsPage t limit (err e) = Unit
  IsPage t limit (ok rs) = (any (λ r. not (matches r.tenant_id t)) rs ≡ false) × (length rs ≤ limit)

  audit_page-IsPage :
      (t action resource : String) (limit offset : ℕ) (db : Db)
      → IsPage t limit (ok (map record_of (audit_page t action resource limit offset db)))
  unfolding audit_page record_of
  audit_page-IsPage t action resource limit offset db = (
    any-records (λ r. not (matches r.tenant_id t)) other (take limit (drop offset sorted))
          (λ e. refl)
        ∙ any-take other limit _ (
            any-drop other offset sorted (
              any-insertion_sort newer other (filter wanted db.audit_events)
              ∙ none_other db.audit_events)),
    subst (λ n. n ≤ limit) (sym (length-records (take limit (drop offset sorted))))
        (length-take limit (drop offset sorted)),
  )
    where
      other : AuditEvent → Bool
      other e = not (matches e.tenant_id t)

      wanted : AuditEvent → Bool
      wanted e =
          matches e.tenant_id t
          && (blank action || e.action == action)
          && (blank resource || e.resource == resource)

      sorted : List AuditEvent
      sorted = insertion_sort newer (filter wanted db.audit_events)

      none_other : (xs : List AuditEvent) → any other (filter wanted xs) ≡ false
      none_other xs = any-filter wanted other xs ∙ any-false _ xs (λ e. ground arith)

  -- A list of events that is returned was asked for by a tenant, with a limit from 1 to 100; it
  -- holds events of that tenant only, and at most as many as the limit.
  pub list_events_page :
      (down : Faults) (enabled : Bool) (t action resource : String) (limit offset : ℤ) (db : Db)
      {rs : List Record} {db' : Db}
      → list_events down enabled t action resource limit offset db ≡ (ok rs, db')
      → (blank t ≡ false)
        × (any (λ r. not (matches r.tenant_id t)) rs ≡ false)
        × (length rs ≤ to_nat limit)
        × (to_nat limit ≤ 100)
  unfolding list_events
  list_events_page down enabled t action resource limit offset db {rs} {db'} done =
      elim (Bool-cases (
        blank t
        || not enabled
        || not (at_least 1 limit)
        || not (at_most 100 limit)
        || not (at_least 0 offset)
        || ltb 128 (bytes (trim_space action))
        || ltb 128 (bytes (trim_space resource)))) [
          | inl e ↦ absurd (run-ensures {P = λ r d. ⊥} (ensures_fail _) (rw e at done))
          | inr e ↦
              let (mine, short) =
                run-ensures {P = λ r d. IsPage t (to_nat limit) r}
                  (then_query _ _ _ _ (
                    ensures_pure _ (
                      audit_page-IsPage t (trim_space action) (trim_space resource) (to_nat limit)
                        (to_nat offset) db)))
                  (labelled_call-ok _ _ db (rw e at done)) in
              (ground arith, mine, short, to_nat-le 100 limit (ground arith))
        ]
