-- ===== src/Authorization/Store/Loading.antt =====
-- What `LoadActorPolicies` returns: the policies of the roles granted to the actor in its tenant.
use modura.Prelude.{
  any-append, any-insertion_sort, any-filter, String, Bool, ◌&&◌, ◌||◌, List, [], ◌∷◌, ◌≡◌, refl,
  ◌∙◌, ap, ◌==◌, any, filter, insertion_sort, arith,
}
use modura.Errors.{Result, ok, err}
use modura.Database.{RolePolicy, UserRole, Db}
use modura.Database.Tx.{Faults}
use modura.Database.Tx.Rules.{ensures_pure, then_query}
use modura.Database.Tx.Runs.{run-ensures}
use modura.Identity.Types.{Actor}
use modura.Authorization.Types.{Policy, RolePolicies}
use modura.Authorization.Store.{load_actor_policies}
use modura.Authorization.StoreRows.{
  PolicyRow, policy_of, rows_of_grant, joined_rows, add_row, by_role, is_policy_of,
}

-- Some role has a policy that satisfies `test`.
abbrev pub some_policy : (Policy → Bool) → List RolePolicies → Bool
some_policy test roles = any (λ role. any test role.policies) roles

module _ (test : Policy → Bool) where
  any-rows_of_grant :
      (role : String) (ps : List RolePolicy)
      → any (λ row. test row.1) (rows_of_grant role ps) ≡ any (λ p. test (policy_of p)) ps
  unfolding rows_of_grant
  any-rows_of_grant role [] = refl
  any-rows_of_grant role (p ∷ ps) = ap (λ b. test (policy_of p) || b) (any-rows_of_grant role ps)

  -- A row of the table for one of the grants.
  abbrev pub in_tables : List UserRole → List RolePolicy → Bool
  in_tables grants policies =
      any (λ g. any (λ p. is_policy_of g.tenant_id g.role_id p && test (policy_of p)) policies)
        grants

  any-joined_rows :
      (gs : List UserRole) (ps : List RolePolicy)
      → any (λ row. test row.1) (joined_rows gs ps) ≡ in_tables gs ps
  unfolding joined_rows
  any-joined_rows [] ps = refl
  any-joined_rows (g ∷ gs) ps =
      any-append (λ row. test row.1)
        (rows_of_grant g.role_id (filter (is_policy_of g.tenant_id g.role_id) ps))
        (joined_rows gs ps)
      ∙ rw (
        any-rows_of_grant g.role_id (filter (is_policy_of g.tenant_id g.role_id) ps),
        any-joined_rows gs ps,
        any-filter (is_policy_of g.tenant_id g.role_id) (λ p. test (policy_of p)) ps,
      )

  some_policy-add_row :
      (row : PolicyRow) (rs : List RolePolicies)
      → some_policy test (add_row row rs) ≡ (test row.1 || some_policy test rs)
  unfolding add_row
  some_policy-add_row (role, p) [] = ground arith
  some_policy-add_row (role, p) (r ∷ rs) =
      ground (arith, any-append test r.policies (p ∷ []), some_policy-add_row (role, p) rs)

  some_policy-by_role :
      (rows : List PolicyRow) (rs : List RolePolicies)
      → some_policy test (by_role rows rs) ≡ (any (λ row. test row.1) rows || some_policy test rs)
  unfolding by_role
  some_policy-by_role [] rs = refl
  some_policy-by_role (row ∷ rows) rs =
      some_policy-by_role rows (add_row row rs) ∙ rw (some_policy-add_row row rs) (ground arith)

  -- A successful load returns, over all roles, exactly the policies of the tables whose role is
  -- granted to the actor in the actor's tenant: no policy of another user or tenant, and none left
  -- out.
  pub load_actor_policies_exact :
      (down : Faults) (before : PolicyRow → PolicyRow → Bool) (actor : Actor) (db : Db)
      {roles : List RolePolicies} {db' : Db}
      → load_actor_policies down before actor db ≡ (ok roles, db')
      → some_policy test roles
        ≡ in_tables
            (filter
              (λ g. g.tenant_id == actor.tenant_id && g.user_id == actor.user_id)
              db.user_roles)
            db.role_policies
  unfolding load_actor_policies
  load_actor_policies_exact down before actor db done =
      run-ensures {P = λ r d. Exact r} (then_query _ _ _ _ (ensures_pure _ exact)) done
    where
      grants : List UserRole
      grants =
          filter (λ g. g.tenant_id == actor.tenant_id && g.user_id == actor.user_id) db.user_roles

      Exact : Result (List RolePolicies) → Type 0
      Exact (ok roles) = some_policy test roles ≡ in_tables grants db.role_policies
      Exact (err e) = Unit

      exact :
          some_policy test
            (by_role (insertion_sort before (joined_rows grants db.role_policies)) [])
          ≡ in_tables grants db.role_policies
      exact =
          some_policy-by_role (insertion_sort before (joined_rows grants db.role_policies)) []
          ∙ rw
              (
                any-insertion_sort before (λ row. test row.1) (joined_rows grants db.role_policies),
                any-joined_rows grants db.role_policies,
              )
              (ground arith)
