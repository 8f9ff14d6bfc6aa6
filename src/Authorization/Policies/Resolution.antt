-- ===== src/Authorization/Policies/Resolution.antt =====
-- The resolved data scope is the union of the scopes of all granting policies.
use modura.Prelude.{
  String, Bool, true, false, ◌&&◌, ◌||◌, List, [], ◌∷◌, ◌≡◌, refl, ◌∙◌, ◌==◌, eq_iff, contains, any,
  insertion_sort, insert_sorted, if◌then◌else◌, arith, Bool-cases, inl, inr,
}
use modura.Text.{text_le}
use modura.Database.{DataScopeKind}
use modura.Authorization.Types.{
  Permission, same_permission, Policy, ResolvedDataScope, RolePolicies,
}
use modura.Authorization.Policies.{
  grant, nothing, add_keys, resolve_policies, resolve_roles, resolved_scope,
}

-- Some assigned role has a policy for the permission whose scope and departments satisfy `test`.
abbrev pub granted_by : (DataScopeKind → List String → Bool) → Permission → List RolePolicies → Bool
granted_by test permission roles =
    any
      (λ role.
        any (λ p. same_permission p.permission permission && test p.scope p.department_ids)
          role.policies)
      roles

abbrev pub is_kind_all : DataScopeKind → List String → Bool
is_kind_all DataScopeKind.all ids = true
is_kind_all _ ids = false

abbrev pub is_kind_self : DataScopeKind → List String → Bool
is_kind_self DataScopeKind.self ids = true
is_kind_self _ ids = false

abbrev pub is_kind_department : DataScopeKind → List String → Bool
is_kind_department DataScopeKind.department ids = true
is_kind_department _ ids = false

abbrev pub is_kind_descendants : DataScopeKind → List String → Bool
is_kind_descendants DataScopeKind.department_descendants ids = true
is_kind_descendants _ ids = false

-- A custom scope that lists the department.
abbrev pub lists_department : String → DataScopeKind → List String → Bool
lists_department id DataScopeKind.custom ids = contains id ids
lists_department id _ ids = false

pub contains-add_keys :
    (id : String) (ids keys : List String)
    → contains id (add_keys ids keys) ≡ (contains id ids || contains id keys)
unfolding add_keys contains
contains-add_keys id [] keys = refl
contains-add_keys id (x ∷ ids) keys =
    ground
      (arith, contains-add_keys id ids (if contains x keys then keys else x ∷ keys), eq_iff x id)

contains-insert_sorted :
    (id x : String) (xs : List String)
    → contains id (insert_sorted text_le x xs) ≡ (x == id || contains id xs)
unfolding insert_sorted contains
contains-insert_sorted id x [] = refl
contains-insert_sorted id x (y ∷ ys) = ground (arith, contains-insert_sorted id x ys)

pub contains-insertion_sort :
    (id : String) (xs : List String) → contains id (insertion_sort text_le xs) ≡ contains id xs
unfolding insertion_sort contains
contains-insertion_sort id [] = refl
contains-insertion_sort id (x ∷ xs) =
    ground (
      arith,
      contains-insert_sorted id x (insertion_sort text_le xs),
      contains-insertion_sort id xs,
    )

all-grant :
    (kind : DataScopeKind) (ids : List String) (r : ResolvedDataScope)
    → (grant kind ids r).all ≡ (is_kind_all kind ids || r.all)
all-grant DataScopeKind.all ids r = refl
all-grant DataScopeKind.self ids r = refl
all-grant DataScopeKind.department ids r = refl
all-grant DataScopeKind.department_descendants ids r = refl
all-grant DataScopeKind.custom ids r = refl
all-grant (DataScopeKind.other s) ids r = refl

self-grant :
    (kind : DataScopeKind) (ids : List String) (r : ResolvedDataScope)
    → (grant kind ids r).self ≡ (is_kind_self kind ids || r.self)
self-grant DataScopeKind.all ids r = refl
self-grant DataScopeKind.self ids r = refl
self-grant DataScopeKind.department ids r = refl
self-grant DataScopeKind.department_descendants ids r = refl
self-grant DataScopeKind.custom ids r = refl
self-grant (DataScopeKind.other s) ids r = refl

department-grant :
    (kind : DataScopeKind) (ids : List String) (r : ResolvedDataScope)
    → (grant kind ids r).department ≡ (is_kind_department kind ids || r.department)
department-grant DataScopeKind.all ids r = refl
department-grant DataScopeKind.self ids r = refl
department-grant DataScopeKind.department ids r = refl
department-grant DataScopeKind.department_descendants ids r = refl
department-grant DataScopeKind.custom ids r = refl
department-grant (DataScopeKind.other s) ids r = refl

descendants-grant :
    (kind : DataScopeKind) (ids : List String) (r : ResolvedDataScope)
    → (grant kind ids r).department_and_descendants
      ≡ (is_kind_descendants kind ids || r.department_and_descendants)
descendants-grant DataScopeKind.all ids r = refl
descendants-grant DataScopeKind.self ids r = refl
descendants-grant DataScopeKind.department ids r = refl
descendants-grant DataScopeKind.department_descendants ids r = refl
descendants-grant DataScopeKind.custom ids r = refl
descendants-grant (DataScopeKind.other s) ids r = refl

custom-grant :
    (id : String) (kind : DataScopeKind) (ids : List String) (r : ResolvedDataScope)
    → contains id (grant kind ids r).custom_department_ids
      ≡ (lists_department id kind ids || contains id r.custom_department_ids)
custom-grant id DataScopeKind.all ids r = refl
custom-grant id DataScopeKind.self ids r = refl
custom-grant id DataScopeKind.department ids r = refl
custom-grant id DataScopeKind.department_descendants ids r = refl
custom-grant id DataScopeKind.custom ids r = contains-add_keys id ids r.custom_department_ids
custom-grant id (DataScopeKind.other s) ids r = refl

-- What a flag or a department of the result depends on: it was there before, or a policy gives it.
module _ (permission : Permission) (read : ResolvedDataScope → Bool)
    (test : DataScopeKind → List String → Bool)
    (one : (kind : DataScopeKind) (ids : List String) (r : ResolvedDataScope)
      → read (grant kind ids r) ≡ (test kind ids || read r)) where
  resolve_policies_union :
      (ps : List Policy) (r : ResolvedDataScope)
      → read (resolve_policies permission ps r) ≡ (
          any (λ p. same_permission p.permission permission && test p.scope p.department_ids) ps
          || read r)
  unfolding resolve_policies
  resolve_policies_union [] r = refl
  resolve_policies_union (p ∷ ps) r = elim (Bool-cases (same_permission p.permission permission)) [
    | inl e ↦ rw e (
        resolve_policies_union ps (grant p.scope p.department_ids r)
        ∙ rw (one p.scope p.department_ids r) (ground arith))
    | inr e ↦ rw e (resolve_policies_union ps r)
  ]

  resolve_roles_union :
      (roles : List RolePolicies) (r : ResolvedDataScope)
      → read (resolve_roles permission roles r) ≡ (granted_by test permission roles || read r)
  unfolding resolve_roles
  resolve_roles_union [] r = refl
  resolve_roles_union (role ∷ roles) r =
      resolve_roles_union roles (resolve_policies permission role.policies r)
      ∙ rw (resolve_policies_union role.policies r) (ground arith)

or_false : (b : Bool) → (b || false) ≡ b
or_false true = refl
or_false false = refl

-- Each flag of the resolved scope is set exactly when an assigned role has a policy for the
-- permission with that scope, and the custom departments are exactly those that a policy for the
-- permission with a custom scope lists.
pub resolved_scope_union :
    (permission : Permission) (roles : List RolePolicies)
    → ((resolved_scope permission roles).all ≡ granted_by is_kind_all permission roles)
      × ((resolved_scope permission roles).self ≡ granted_by is_kind_self permission roles)
      × ((resolved_scope permission roles).department
          ≡ granted_by is_kind_department permission roles)
      × ((resolved_scope permission roles).department_and_descendants
          ≡ granted_by is_kind_descendants permission roles)
      × ((id : String)
          → contains id (resolved_scope permission roles).custom_department_ids
            ≡ granted_by (lists_department id) permission roles)
unfolding resolved_scope contains
resolved_scope_union permission roles = (
  resolve_roles_union permission (λ r. r.all) is_kind_all all-grant roles nothing ∙ or_false _,
  resolve_roles_union permission (λ r. r.self) is_kind_self self-grant roles nothing ∙ or_false _,
  resolve_roles_union permission (λ r. r.department) is_kind_department department-grant roles
        nothing
      ∙ or_false _,
  resolve_roles_union permission (λ r. r.department_and_descendants) is_kind_descendants
        descendants-grant roles nothing
      ∙ or_false _,
  λ id.
      contains-insertion_sort id (resolve_roles permission roles nothing).custom_department_ids
      ∙ resolve_roles_union permission (λ r. contains id r.custom_department_ids)
          (lists_department id) (custom-grant id) roles nothing
      ∙ or_false _,
)
