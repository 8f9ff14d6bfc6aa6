-- ===== src/Authorization/Store/Reading.antt =====
-- The reads of a role's policies in backend/internal/modules/authorization/postgres/management.go.
use modura.Prelude.{String, Bool, Option, none, some, ◌≡◌, refl}
use modura.Errors.{ok}
use modura.Database.{RolePolicy, RoleRow, Db}
use modura.Database.Tx.{Faults}
use modura.Database.Tx.Rules.{Ensures, ensures_pure, ensures_fail, then_query}
use modura.Database.Tx.Runs.{run-ensures}
use modura.Authorization.Types.{RolePolicySet}
use modura.Authorization.Store.{policy_set, get_role_policy_set}

pub get_role_policy_set-keeps :
    (down : Faults) (before : RolePolicy → RolePolicy → Bool) (t role : String) (db : Db)
    {set : RolePolicySet} {db' : Db}
    → get_role_policy_set down before t role db ≡ (ok set, db')
    → db' ≡ db
unfolding get_role_policy_set
get_role_policy_set-keeps down before t role db h =
    run-ensures {P = λ r d. d ≡ db} (then_query _ _ _ _ (kept _)) h
  where
    kept : (o : Option RoleRow) → Ensures (policy_set down before t o) db (λ r d. d ≡ db)
    kept none = unfold policy_set in ensures_fail _
    kept (some r) = unfold policy_set in then_query _ _ _ _ (ensures_pure _ refl)
