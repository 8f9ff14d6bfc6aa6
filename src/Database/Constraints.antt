-- ===== src/Database/Constraints.antt =====
-- The constraints of the migrations, as a test on the whole database. A statement after which they
-- do not hold is refused. Left out: the CHECKs on blank and lower-case texts and the ones that list
-- the resources, actions and scopes of policies, which restate what the services validate, the ones
-- that list the values of a column whose type shows them, and the NOT NULLs, which the row types
-- show.
pub mod Departments
pub mod Configurations
pub mod Dictionaries
pub mod Policies
pub mod Sessions
use modura.Prelude.{
  ℕ, String, Bool, true, false, not, ◌&&◌, ◌||◌, Option, none, some, ◌==◌, ltb, leb, is_some, any,
  all, unique, ℤ, pos, negsuc,
}
use modura.Database.{UserStatus, Db}

-- The largest `bigint`: the server refuses to add beyond it, and Go's `int64` wraps to a negative
-- number there, which the CHECK of each version column refuses.
abbrev pub max_bigint : ℕ
max_bigint = 9223372036854775807

-- Equality of nullable columns where NULL differs from NULL (UNIQUE) and where it does not.
abbrev pub same_value : Option String → Option String → Bool
same_value (some a) (some b) = a == b
same_value _ _ = false

abbrev pub not_distinct : Option String → Option String → Bool
not_distinct (some a) (some b) = a == b
not_distinct none none = true
not_distinct _ _ = false

-- FOREIGN KEY (tenant_id, …) REFERENCES users (tenant_id, id), and the like.
user_exists : Db → String → String → Bool
user_exists db t u = any (λ r. r.tenant_id == t && r.id == u) db.users

tenant_exists : Db → String → Bool
tenant_exists db t = any (λ r. r.id == t) db.tenants

department_exists : Db → String → String → Bool
department_exists db t d = any (λ r. r.tenant_id == t && r.id == d) db.departments

role_exists : Db → String → String → Bool
role_exists db t x = any (λ r. r.tenant_id == t && r.id == x) db.roles

position_exists : Db → String → String → Bool
position_exists db t p = any (λ r. r.tenant_id == t && r.id == p) db.positions

abbrev null_or : (String → Bool) → Option String → Bool
null_or p none = true
null_or p (some s) = p s

abbrev needs_credential : UserStatus → Bool
needs_credential UserStatus.active = true
needs_credential _ = false

abbrev fits_version : ℕ → Bool
fits_version n = ltb 0 n && leb n max_bigint

-- PostgreSQL's `integer`.
abbrev fits_integer : ℤ → Bool
fits_integer (pos n) = leb n 2147483647
fits_integer (negsuc n) = leb n 2147483647

-- CHECK ((… IS NULL) = (… IS NULL))
abbrev both_or_neither : Bool → Bool → Bool
both_or_neither true b = b
both_or_neither false b = not b

tenants_hold : Db → Bool
tenants_hold db =
    unique (λ a b. a.id == b.id) db.tenants && unique (λ a b. a.slug == b.slug) db.tenants

users_hold : Db → Bool
unfolding tenant_exists
users_hold db =
    unique (λ a b. a.id == b.id) db.users
    && unique (λ a b. a.tenant_id == b.tenant_id && a.normalized_username == b.normalized_username)
        db.users
    && unique
        (λ a b. a.tenant_id == b.tenant_id && same_value a.normalized_email b.normalized_email)
        db.users
    && all
        (λ u.
          tenant_exists db u.tenant_id
          && (not (needs_credential u.status) || is_some u.password_hash)
          && (not (is_some u.email_verified_at) || is_some u.normalized_email)
          && ltb 0 u.security_version
          && leb u.security_version max_bigint
          && both_or_neither (is_some u.email) (is_some u.normalized_email))
        db.users

sessions_hold : Db → Bool
unfolding user_exists
sessions_hold db =
    unique (λ a b. a.id == b.id) db.auth_sessions
    && unique (λ a b. a.refresh_token_hash == b.refresh_token_hash) db.auth_sessions
    && all
        (λ s.
          user_exists db s.tenant_id s.user_id
          && ltb s.created_at s.expires_at
          && ltb 0 s.security_version
          && leb s.security_version max_bigint
          && both_or_neither (is_some s.revoked_at) (is_some s.revocation_reason))
        db.auth_sessions
    && unique (λ a b. a.token_hash == b.token_hash) db.refresh_token_uses
    && all (λ u. any (λ s. s.id == u.session_id) db.auth_sessions) db.refresh_token_uses

tokens_hold : Db → Bool
unfolding user_exists
tokens_hold db =
    unique (λ a b. a.id == b.id) db.one_time_tokens
    && unique (λ a b. a.token_hash == b.token_hash) db.one_time_tokens
    && all (λ t. user_exists db t.tenant_id t.user_id && ltb t.created_at t.expires_at)
        db.one_time_tokens

organization_holds : Db → Bool
unfolding user_exists tenant_exists department_exists position_exists
organization_holds db =
    unique (λ a b. a.id == b.id) db.departments
    && unique
        (λ a b.
          a.tenant_id == b.tenant_id
          && not_distinct a.parent_id b.parent_id
          && a.normalized_name == b.normalized_name)
        db.departments
    && unique
        (λ a b.
          a.tenant_id == b.tenant_id && not (is_some a.parent_id) && not (is_some b.parent_id))
        db.departments
    && all
        (λ d.
          tenant_exists db d.tenant_id
          && null_or (λ p. not (p == d.id) && department_exists db d.tenant_id p) d.parent_id
          && fits_integer d.sort_order)
        db.departments
    && unique (λ a b. a.id == b.id) db.positions
    && unique (λ a b. a.tenant_id == b.tenant_id && a.normalized_name == b.normalized_name)
        db.positions
    && unique (λ a b. a.tenant_id == b.tenant_id && a.user_id == b.user_id) db.user_organization
    && all
        (λ o.
          user_exists db o.tenant_id o.user_id
          && department_exists db o.tenant_id o.primary_department_id
          && null_or (position_exists db o.tenant_id) o.position_id)
        db.user_organization

pub authorization_holds : Db → Bool
unfolding user_exists tenant_exists department_exists role_exists
authorization_holds db =
    unique (λ a b. a.id == b.id) db.roles
    && unique (λ a b. a.tenant_id == b.tenant_id && a.code == b.code) db.roles
    && all (λ r. tenant_exists db r.tenant_id && ltb 0 r.version && leb r.version max_bigint)
        db.roles
    && unique (λ a b. a.role_id == b.role_id && a.resource == b.resource && a.action == b.action)
        db.role_policies
    && all
        (λ p.
          role_exists db p.tenant_id p.role_id
          && unique (λ x y. x == y) p.department_ids
          && all (department_exists db p.tenant_id) p.department_ids)
        db.role_policies
    && unique
        (λ a b. a.tenant_id == b.tenant_id && a.user_id == b.user_id && a.role_id == b.role_id)
        db.user_roles
    && all (λ g. user_exists db g.tenant_id g.user_id && role_exists db g.tenant_id g.role_id)
        db.user_roles
    && unique (λ a b. a.tenant_id == b.tenant_id && a.user_id == b.user_id) db.user_role_versions
    && all (λ v. user_exists db v.tenant_id v.user_id && fits_version v.version)
        db.user_role_versions

platform_holds : Db → Bool
unfolding tenant_exists
platform_holds db =
    unique (λ a b. a.idempotency_key == b.idempotency_key) db.tenant_provisioning_requests
    && unique (λ a b. a.tenant_id == b.tenant_id) db.tenant_provisioning_requests
    && all (λ r. tenant_exists db r.tenant_id) db.tenant_provisioning_requests
    && unique (λ a b. a.id == b.id) db.platform_administrators
    && unique (λ a b. a.normalized_username == b.normalized_username) db.platform_administrators
    && all (λ a. fits_version a.security_version) db.platform_administrators
    && unique (λ a b. a.id == b.id) db.platform_auth_sessions
    && unique (λ a b. a.refresh_token_hash == b.refresh_token_hash) db.platform_auth_sessions
    && all
        (λ s.
          any (λ a. a.id == s.administrator_id) db.platform_administrators
          && ltb s.created_at s.expires_at
          && fits_version s.security_version
          && both_or_neither (is_some s.revoked_at) (is_some s.revocation_reason))
        db.platform_auth_sessions
    && unique (λ a b. a.token_hash == b.token_hash) db.platform_refresh_token_uses
    && all (λ u. any (λ s. s.id == u.session_id) db.platform_auth_sessions)
        db.platform_refresh_token_uses

-- Rows of the same table: both global, or both of tenants.
abbrev same_table : Option String → Option String → Bool
same_table none none = true
same_table (some a) (some b) = true
same_table _ _ = false

dictionaries_hold : Db → Bool
unfolding tenant_exists
dictionaries_hold db =
    unique (λ a b. same_table a.owner b.owner && a.id == b.id) db.dictionary_types
    && unique (λ a b. not_distinct a.owner b.owner && a.code == b.code) db.dictionary_types
    && all (λ d. null_or (tenant_exists db) d.owner && fits_version d.version) db.dictionary_types
    && unique (λ a b. same_table a.owner b.owner && a.id == b.id) db.dictionary_items
    && unique
        (λ a b.
          not_distinct a.owner b.owner
          && a.dictionary_type_id == b.dictionary_type_id
          && a.code == b.code)
        db.dictionary_items
    && all
        (λ i.
          any (λ d. not_distinct d.owner i.owner && d.id == i.dictionary_type_id)
            db.dictionary_types
          && fits_integer i.sort_order)
        db.dictionary_items

abbrev is_value_type : String → Bool
is_value_type s = s == "string" || s == "boolean" || s == "integer" || s == "json"

configurations_hold : Db → Bool
unfolding tenant_exists
configurations_hold db =
    unique (λ a b. a.id == b.id) db.configuration_definitions
    && unique (λ a b. a.key == b.key) db.configuration_definitions
    && all (λ d. is_value_type d.value_type) db.configuration_definitions
    && unique (λ a b. not_distinct a.owner b.owner && a.key == b.key) db.configuration_values
    && all
        (λ v.
          null_or (tenant_exists db) v.owner
          && any (λ d. d.key == v.key) db.configuration_definitions
          && fits_version v.version)
        db.configuration_values

unfoldable pub constraints : Db → Bool
unfolding tenant_exists tenants_hold users_hold sessions_hold tokens_hold organization_holds
    authorization_holds platform_holds dictionaries_hold configurations_hold
constraints db =
    tenants_hold db
    && users_hold db
    && sessions_hold db
    && tokens_hold db
    && organization_holds db
    && authorization_holds db
    && platform_holds db
    && dictionaries_hold db
    && configurations_hold db
    && unique (λ a b. a.id == b.id) db.audit_events
    && all (λ e. null_or (tenant_exists db) e.tenant_id) db.audit_events
