-- ===== src/Identity/AccountRows.antt =====
-- The rows and WHERE clauses of the account statements in
-- backend/internal/modules/identity/postgres/store.go.
use modura.Prelude.{
  ℕ, ◌+◌, String, Bool, true, false, not, ◌&&◌, ◌||◌, Option, none, some, ◌==◌, nat_eq, ltb,
  is_some, blank, find, any, if◌then◌else◌,
}
use modura.Errors.{Error, Result, ok, err}
use modura.Database.{
  Tenant, TenantStatus, User, UserStatus, AuthSession, OneTimeToken, OneTimePurpose, Db,
}
use modura.Database.Tx.{Tx, pure, fail, failure}
use modura.Identity.Types.{Actor, Account}
use modura.Identity.Rows.{
  tenant_is_active, user_is_active, user_is_invited, user_is_locked, same_purpose, is_user, is_live,
  joined,
}

-- password_hash = $n, which is not true of NULL
abbrev pub has_hash : String → Option String → Bool
has_hash h none = false
has_hash h (some x) = x == h

abbrev pub verified_email_is : String → User → Bool
verified_email_is login u = has_hash login u.normalized_email && is_some u.email_verified_at

-- The WHERE clause of `FindActiveAccount`.
abbrev pub matches_login : String → String → Db → User → Bool
matches_login slug login db u =
    any (λ t. t.id == u.tenant_id && t.slug == slug && tenant_is_active t) db.tenants
    && user_is_active u
    && (u.normalized_username == login || verified_email_is login u)

-- `Scan` refuses a NULL hash.
abbrev pub account_of : User → Option String → Tx (Result Account)
account_of u none = fail (failure "find active account")
account_of u (some h) = pure (
    ok (record {
      tenant_id = u.tenant_id;
      user_id = u.id;
      password_hash = h;
      security_version = u.security_version;
    }))

-- status = 'disabled', security_version = security_version + 1, updated_at = now
abbrev pub disabled_at : ℕ → User → User
disabled_at now u = record u {
  status = UserStatus.disabled;
  security_version = u.security_version + 1;
  updated_at = now;
}

abbrev pub can_disable : String → String → User → Bool
can_disable t u r = is_user t u r && (user_is_active r || user_is_locked r)

abbrev pub with_password : String → ℕ → ℕ → User → User
with_password hash version now u = record u {
  password_hash = some hash;
  security_version = version;
  updated_at = now;
}

-- CASE WHEN email IS NULL THEN NULL ELSE COALESCE(email_verified_at, now) END
abbrev pub verified_at : ℕ → Option String → Option ℕ → Option ℕ
verified_at now none at = none
verified_at now (some e) none = some now
verified_at now (some e) (some at) = some at

abbrev pub credential_set : OneTimePurpose → String → ℕ → User → User
credential_set OneTimePurpose.invitation hash now u = record u {
  password_hash = some hash;
  security_version = u.security_version + 1;
  status = UserStatus.active;
  email_verified_at = verified_at now u.email u.email_verified_at;
  updated_at = now;
}
credential_set OneTimePurpose.password_reset hash now u = record u {
  password_hash = some hash;
  security_version = u.security_version + 1;
  updated_at = now;
}

-- ($4 = 'invitation' AND u.status = 'invited') OR ($4 = 'password_reset' AND u.status = 'active')
abbrev pub may_hold : OneTimePurpose → User → Bool
may_hold OneTimePurpose.invitation u = user_is_invited u
may_hold OneTimePurpose.password_reset u = user_is_active u

abbrev pub purpose_text : OneTimePurpose → String
purpose_text OneTimePurpose.invitation = "invitation"
purpose_text OneTimePurpose.password_reset = "password_reset"

-- consumed_at IS NULL
abbrev pub is_open : OneTimeToken → Bool
is_open k = not (is_some k.consumed_at)

abbrev pub is_outstanding : String → String → OneTimePurpose → OneTimeToken → Bool
is_outstanding t u purpose k =
    k.tenant_id == t
    && k.user_id == u
    && same_purpose k.purpose purpose
    && not (is_some k.consumed_at)

-- The WHERE clause of the lock in `ConsumeOneTimeToken`.
abbrev pub can_consume : String → OneTimePurpose → Db → OneTimeToken → Bool
can_consume hash purpose db k =
    k.token_hash == hash
    && same_purpose k.purpose purpose
    && not (is_some k.consumed_at)
    && joined db k.tenant_id k.user_id (may_hold purpose)

-- The WHERE clause of the lock in `ChangePassword`.
abbrev pub can_change : Actor → String → String → ℕ → Db → AuthSession → Bool
can_change actor expected presented now db s =
    s.id == actor.session_id
    && s.tenant_id == actor.tenant_id
    && s.user_id == actor.user_id
    && s.refresh_token_hash == presented
    && is_live s
    && ltb now s.expires_at
    && joined db s.tenant_id s.user_id (λ u. user_is_active u && has_hash expected u.password_hash)

-- The row of the join: the session and its user.
abbrev pub with_user : Db → Option AuthSession → Option (AuthSession × User)
with_user db none = none
with_user db (some s) = elim (find (is_user s.tenant_id s.user_id) db.users) [
  | none ↦ none
  | some u ↦ some (s, u)
]

abbrev pub nullable_text : String → Option String
nullable_text s = if blank s then none else some s

abbrev pub is_provisioning : Tenant → Bool
is_provisioning t = elim t.status [ TenantStatus.provisioning ↦ true | _ ↦ false ]

-- The affected rows, where one is expected.
abbrev pub one_row : Error → ℕ → Tx (Result (Unit {0}))
one_row e n = if nat_eq n 1 then pure (ok tt) else pure (err e)
