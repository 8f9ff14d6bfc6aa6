-- ===== src/Identity/Rows.antt =====
-- The WHERE clauses and assignments that the statements of the identity store share.
use modura.Prelude.{
  ◌≡◌, ℕ, String, Bool, true, false, not, ◌&&◌, ◌∷◌, some, ◌==◌, is_some, any, update_where,
  count_where,
}
use modura.Database.{
  Tenant, TenantStatus, User, UserStatus, AuthSession, OneTimeToken, OneTimePurpose, Db,
}

abbrev pub tenant_is_active : Tenant → Bool
tenant_is_active t = elim t.status [ TenantStatus.active ↦ true | _ ↦ false ]

abbrev pub user_is_active : User → Bool
user_is_active u = elim u.status [ UserStatus.active ↦ true | _ ↦ false ]

abbrev pub user_is_invited : User → Bool
user_is_invited u = elim u.status [ UserStatus.invited ↦ true | _ ↦ false ]

abbrev pub user_is_locked : User → Bool
user_is_locked u = elim u.status [ UserStatus.locked ↦ true | _ ↦ false ]

abbrev pub user_is_disabled : User → Bool
user_is_disabled u = elim u.status [ UserStatus.disabled ↦ true | _ ↦ false ]

abbrev pub same_purpose : OneTimePurpose → OneTimePurpose → Bool
same_purpose OneTimePurpose.invitation OneTimePurpose.invitation = true
same_purpose OneTimePurpose.password_reset OneTimePurpose.password_reset = true
same_purpose _ _ = false

-- tenant_id = $1 AND id = $2
abbrev pub is_user : String → String → User → Bool
is_user t u r = r.tenant_id == t && r.id == u

-- tenant_id = $1 AND user_id = $2 AND revoked_at IS NULL
abbrev pub is_live : AuthSession → Bool
is_live s = not (is_some s.revoked_at)

abbrev pub is_live_of : String → String → AuthSession → Bool
is_live_of t u s = s.tenant_id == t && s.user_id == u && is_live s

-- SET revoked_at = now, revocation_reason = reason
abbrev pub revoked : ℕ → String → AuthSession → AuthSession
revoked now reason s = record s { revoked_at = some now; revocation_reason = some reason }

-- JOIN users u ON u.tenant_id = s.tenant_id AND u.id = s.user_id JOIN tenants t ON t.id = s.tenant_id
-- WHERE … AND t.status = 'active': a row of the join for which `p` holds. The keys that are joined
-- are unique, so a session meets at most one user and one tenant.
unfoldable pub joined : Db → String → String → (User → Bool) → Bool
joined db t u p =
    any (λ r. is_user t u r && p r) db.users
    && any (λ r. r.id == t && tenant_is_active r) db.tenants

abbrev pub update_users : (User → Bool) → (User → User) → Db → ℕ × Db
update_users p f db = (count_where p db.users, record db { users = update_where p f db.users })

abbrev pub update_sessions : (AuthSession → Bool) → (AuthSession → AuthSession) → Db → ℕ × Db
update_sessions p f db = (
  count_where p db.auth_sessions,
  record db { auth_sessions = update_where p f db.auth_sessions },
)

abbrev pub update_tokens : (OneTimeToken → Bool) → (OneTimeToken → OneTimeToken) → Db → ℕ × Db
update_tokens p f db = (
  count_where p db.one_time_tokens,
  record db { one_time_tokens = update_where p f db.one_time_tokens },
)

-- INSERT INTO auth_refresh_token_uses.
abbrev pub insert_use : String → String → String → ℕ → Db → ℕ × Db
insert_use hash session family now db = (
  1,
  record db {
    refresh_token_uses =
        record { token_hash = hash; session_id = session; family_id = family; consumed_at = now }
        ∷ db.refresh_token_uses;
  },
)

pub joined-of_same :
    (db db' : Db) (t u : String) (p : User → Bool)
    → db'.users ≡ db.users
    → db'.tenants ≡ db.tenants
    → joined db' t u p ≡ joined db t u p
unfolding joined
joined-of_same db db' t u p h k = rw (h, k)

-- Where no row of the user satisfies `p`, neither does a row of the join.
pub joined-false :
    (db : Db) (t u : String) (p : User → Bool)
    → any (λ r. is_user t u r && p r) db.users ≡ false
    → joined db t u p ≡ false
unfolding joined
joined-false db t u p h = rw h
