-- ===== src/Authorization/Policies/Delegation.antt =====
-- Delegation never widens what is visible: `canDelegate` against the visibility of departments.
use modura.Prelude.{String, true, List, [], ◌∷◌, ◌≡◌, eq_iff, contains, arith}
use modura.Database.{DataScopeKind}
use modura.Organization.Types.{DataScope}
use modura.Organization.Tree.{in_scope}
use modura.Authorization.Types.{Policy, ResolvedDataScope}
use modura.Authorization.Policies.{can_delegate, all_contained, grant, nothing}
use modura.Authorization.Policies.Resolution.{contains-add_keys}

-- The scope that the transport hands to the organization store.
abbrev pub scope_of : String → ResolvedDataScope → DataScope
scope_of actor r = record {
  actor_id = actor;
  all = r.all;
  self = r.self;
  department = r.department;
  department_and_descendants = r.department_and_descendants;
  custom_department_ids = r.custom_department_ids;
}

contains-of_all_contained :
    (granted ids : List String) (d : String)
    → all_contained granted ids ≡ true
    → contains d ids ≡ true
    → contains d granted ≡ true
unfolding contains
contains-of_all_contained granted [] d h m = cc
contains-of_all_contained granted (x ∷ ids) d h m =
    ground (arith, eq_iff x d, contains-of_all_contained granted ids d)

-- The scope that one policy gives by itself.
abbrev pub policy_scope : Policy → ResolvedDataScope
policy_scope p = grant p.scope p.department_ids nothing

-- Where a policy may be delegated by an actor with the granted scope, whoever looks at departments
-- under that policy sees none that the same viewer would not see under the granted scope. `own` and
-- `below` are the viewer's primary department and the departments of its subtree.
pub can_delegate_sound :
    (granted : ResolvedDataScope) (desired : Policy) (viewer : String) (own below : List String)
    (d : String)
    → (contains d own ≡ true → contains d below ≡ true)
    → can_delegate granted desired ≡ true
    → in_scope (scope_of viewer (policy_scope desired)) own below d ≡ true
    → in_scope (scope_of viewer granted) own below d ≡ true
unfolding can_delegate contains
can_delegate_sound granted desired viewer own below d own_below delegable seen =
    by_kind desired.scope desired.department_ids delegable seen
  where
    by_kind :
        (kind : DataScopeKind) (ids : List String)
        → can_delegate granted (record desired { scope = kind; department_ids = ids }) ≡ true
        → in_scope (scope_of viewer (grant kind ids nothing)) own below d ≡ true
        → in_scope (scope_of viewer granted) own below d ≡ true
    by_kind DataScopeKind.all ids h k = ground arith
    by_kind DataScopeKind.self ids h k = ground arith
    by_kind DataScopeKind.department ids h k = ground arith
    by_kind DataScopeKind.department_descendants ids h k = ground arith
    by_kind DataScopeKind.custom ids h k = ground (
      arith,
      contains-add_keys d ids [],
      contains-of_all_contained granted.custom_department_ids ids d,
    )
    by_kind (DataScopeKind.other s) ids h k = cc
