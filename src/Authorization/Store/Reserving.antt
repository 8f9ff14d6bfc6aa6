-- ===== src/Authorization/Store/Reserving.antt =====
-- The reserved role of a tenant's administrator writes the tables of roles and policies.
use modura.Prelude.{ℕ, suc, String, List, [], ◌∷◌, ◌≡◌, refl}
use modura.Database.{Db}
use modura.Database.Tx.{Faults}
use modura.Database.Tx.Rules.{Ensures, ensures_pure, then_exec}
use modura.Authorization.Types.{Permission, Role}
use modura.Authorization.StoreRows.{tenant_administrator_permissions}
use modura.Authorization.Store.{insert_reserved_policies, create_reserved_role}

insert_reserved_policies-keeps :
    (down : Faults) (t role : String) (i : ℕ) (ps : List Permission) (db : Db)
    → Ensures
        (insert_reserved_policies down t role i ps)
        db
        (λ u d. d.tenant_provisioning_requests ≡ db.tenant_provisioning_requests)
unfolding insert_reserved_policies
insert_reserved_policies-keeps down t role i [] db = ensures_pure _ refl
insert_reserved_policies-keeps down t role i (p ∷ ps) db =
    then_exec _ _ _ _ _ _ (insert_reserved_policies-keeps down t role (suc i) ps _)

pub create_reserved_role-keeps :
    (down : Faults) (role : Role) (db : Db)
    → Ensures
        (create_reserved_role down role)
        db
        (λ u d. d.tenant_provisioning_requests ≡ db.tenant_provisioning_requests)
unfolding create_reserved_role
create_reserved_role-keeps down role db = then_exec _ _ _ _ _ _ (
    insert_reserved_policies-keeps down role.tenant_id role.id 0 tenant_administrator_permissions _)
