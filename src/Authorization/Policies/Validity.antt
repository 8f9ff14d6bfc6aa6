-- ===== src/Authorization/Policies/Validity.antt =====
-- What `validPolicies` lets through.
use modura.Prelude.{
  String, Bool, true, false, List, [], ◌∷◌, ◌≡◌, ◌≢◌, refl, ◌==◌, contains, any, All, arith, unique,
  blank, any_imply_false,
}
use modura.Text.{trim_space}
use modura.Database.{DataScopeKind}
use modura.Authorization.Types.{Permission, same_permission, Policy, known_permission}
use modura.Authorization.Policies.{
  valid_policies, valid_policies_from, valid_policy, valid_scope, duplicate_strings,
  duplicate_strings_from, is_nil, is_all, is_scoped_resource,
}

-- The department ids of a custom scope: some, none blank, each once.
pub record IsCustomList (ids : List String) : Type 0 where
  pub some_id : ids ≢ []
  pub each_once : unique (λ a b. a == b) ids ≡ true
  pub none_blank : any (λ id. blank (trim_space id)) ids ≡ false

-- A policy that may be stored: a known permission, and a scope of the Closed set whose departments
-- fit it; a scope other than all only on departments and user organization.
abbrev pub HasScope : DataScopeKind → List String → Type 0
HasScope DataScopeKind.custom ids = IsCustomList ids
HasScope (DataScopeKind.other s) ids = ⊥
HasScope _ ids = ids ≡ []

pub record IsStorable (p : Policy) : Type 0 where
  pub known : known_permission p.permission ≡ true
  pub has_scope : HasScope p.scope p.department_ids
  pub unscoped : is_scoped_resource p.permission.resource ≡ false → p.scope ≡ DataScopeKind.all

no_duplicates_from :
    (seen ids : List String)
    → duplicate_strings_from seen ids ≡ false
    → (unique (λ a b. a == b) ids ≡ true)
      × (any (λ id. blank (trim_space id)) ids ≡ false)
      × (any (λ id. contains id seen) ids ≡ false)
unfolding duplicate_strings_from unique contains
no_duplicates_from seen [] h = (refl, refl, refl)
no_duplicates_from seen (v ∷ vs) h =
    let (once, filled, fresh) = no_duplicates_from (v ∷ seen) vs (ground arith) in
    (
      ground (
        arith,
        any_imply_false (λ id. contains id (v ∷ seen)) (λ id. v == id) vs fresh
            (λ id k. ground arith),
      ),
      ground arith,
      ground (
        arith,
        any_imply_false (λ id. contains id (v ∷ seen)) (λ id. contains id seen) vs fresh
            (λ id k. ground arith),
      ),
    )

nil-of_is_nil : (ids : List String) → is_nil ids ≡ true → ids ≡ []
nil-of_is_nil [] h = refl
nil-of_is_nil (x ∷ xs) h = cc

HasScope-of_valid :
    (kind : DataScopeKind) (ids : List String) → valid_scope kind ids ≡ true → HasScope kind ids
unfolding valid_scope duplicate_strings
HasScope-of_valid DataScopeKind.custom ids h =
    let (once, filled, fresh) = no_duplicates_from [] ids (ground arith) in
    record { some_id = λ e. ground arith; each_once = once; none_blank = filled }
HasScope-of_valid (DataScopeKind.other s) ids h = cc
HasScope-of_valid DataScopeKind.all ids h = nil-of_is_nil ids h
HasScope-of_valid DataScopeKind.self ids h = nil-of_is_nil ids h
HasScope-of_valid DataScopeKind.department ids h = nil-of_is_nil ids h
HasScope-of_valid DataScopeKind.department_descendants ids h = nil-of_is_nil ids h

all-of_is_all : (kind : DataScopeKind) → is_all kind ≡ true → kind ≡ DataScopeKind.all
all-of_is_all DataScopeKind.all h = refl
all-of_is_all _ h = cc

IsStorable-of_valid :
    (seen : List Permission) (p : Policy)
    → valid_policy seen p ≡ true
    → IsStorable p × (any (λ q. same_permission q p.permission) seen ≡ false)
unfolding valid_policy
IsStorable-of_valid seen p h = (
  record {
    known = ground arith;
    has_scope = HasScope-of_valid p.scope p.department_ids (ground arith);
    unscoped = λ u. all-of_is_all p.scope (ground arith);
  },
  ground arith,
)

abbrev pub repeats : Policy → Policy → Bool
repeats p q = same_permission p.permission q.permission

valid_policies_from_sound :
    (seen : List Permission) (ps : List Policy)
    → valid_policies_from seen ps ≡ true
    → All IsStorable ps
      × (unique repeats ps ≡ true)
      × (any (λ p. any (λ q. same_permission q p.permission) seen) ps ≡ false)
unfolding valid_policies_from unique
valid_policies_from_sound seen [] h = (tt, refl, refl)
valid_policies_from_sound seen (p ∷ ps) h =
    let (storable, fresh) = IsStorable-of_valid seen p (ground arith) in
    let (rest, once, apart) = valid_policies_from_sound (p.permission ∷ seen) ps (ground arith) in
    (
      (storable, rest),
      ground (
        arith,
        any_imply_false (λ q. any (λ r. same_permission r q.permission) (p.permission ∷ seen))
            (repeats p) ps apart (λ q k. ground arith),
      ),
      ground (
        arith,
        any_imply_false (λ q. any (λ r. same_permission r q.permission) (p.permission ∷ seen))
            (λ q. any (λ r. same_permission r q.permission) seen) ps apart (λ q k. ground arith),
      ),
    )

-- Policies that pass `validPolicies` are all storable, and no two are for the same permission.
valid_policies_sound :
    (ps : List Policy) → valid_policies ps ≡ true → All IsStorable ps × (unique repeats ps ≡ true)
unfolding valid_policies
valid_policies_sound ps h = let (a, b, c) = valid_policies_from_sound [] ps h in (a, b)
