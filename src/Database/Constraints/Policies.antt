-- ===== src/Database/Constraints/Policies.antt =====
-- What the constraints say of the policies of roles: one for a permission.
use modura.Prelude.{
  Bool, true, false, ◌&&◌, List, [], ◌∷◌, ◌++◌, ◌≡◌, refl, ◌==◌, any, any-append, unique, arith,
}
use modura.Database.{RolePolicy, Db}
use modura.Database.Constraints.{constraints, authorization_holds}

abbrev pub same_permission : RolePolicy → RolePolicy → Bool
same_permission a b = a.role_id == b.role_id && a.resource == b.resource && a.action == b.action

authorization-of-constraints : (db : Db) → constraints db ≡ true → authorization_holds db ≡ true
unfolding constraints
authorization-of-constraints db h = ground arith

policies-of-authorization :
    (db : Db) → authorization_holds db ≡ true → unique same_permission db.role_policies ≡ true
unfolding authorization_holds
policies-of-authorization db h = ground arith

-- The rows before the last of a table without two of the same permission do not have the last's.
last_alone :
    (rows : List RolePolicy) (p : RolePolicy)
    → unique same_permission (rows ++ p ∷ []) ≡ true
    → any (λ r. same_permission r p) rows ≡ false
unfolding unique
last_alone [] p h = refl
last_alone (r ∷ rows) p h =
    ground (arith, last_alone rows p (ground arith), any-append (same_permission r) rows (p ∷ []))

pub last_policy_alone :
    (db : Db) (rows : List RolePolicy) (p : RolePolicy)
    → db.role_policies ≡ rows ++ p ∷ []
    → constraints db ≡ true
    → any (λ r. same_permission r p) rows ≡ false
last_policy_alone db rows p same h =
    last_alone rows p
      (rw same at (policies-of-authorization db (authorization-of-constraints db h)))
