-- ===== src/Authorization/Service/Decisions.antt =====
-- What a decision for an actor says about the tables.
use modura.Prelude.{
  Bool, true, false, not, ◌&&◌, ◌||◌, ◌==◌, List, ◌≡◌, refl, sym, ◌∙◌, filter, Bool-cases, inl, inr,
  arith, if◌then◌else◌,
}
use modura.Errors.{ok}
use modura.Database.{Db}
use modura.Database.Tx.{Faults, run, pure, fail}
use modura.Database.Tx.Rules.{ensures_pure, then_query}
use modura.Database.Tx.Runs.{labelled_call-ok, run-ensures}
use modura.Database.Tx.Calls.{and_then-ok, lifted-ok, refused-not_ok}
use modura.Identity.Types.{Actor}
use modura.Authorization.Types.{
  Permission, same_permission, known_permission, RolePolicies, ResolvedDataScope,
}
use modura.Authorization.Policies.{resolved_scope}
use modura.Authorization.Store.{load_actor_policies}
use modura.Authorization.StoreRows.{PolicyRow}
use modura.Authorization.Store.Loading.{in_tables, load_actor_policies_exact}
use modura.Authorization.Enforcer.{Casbin, IsDocumented, is_granted, enforce_granted}
use modura.Authorization.Service.{
  denied, valid_actor, actor_policies, allowed_roles, authorize, resolve_data_scope,
}

both_true : (a b : Bool) → (not a || not b) ≡ false → (a ≡ true) × (b ≡ true)
both_true a b h = ground arith

module _ {State : Type 0} (casbin : Casbin State) (law : IsDocumented casbin) (down : Faults)
    (before : PolicyRow → PolicyRow → Bool) (actor : Actor) (permission : Permission)
    (db : Db) where
  -- A policy for the permission, of a role that is granted to the actor in the actor's tenant.
  abbrev pub in_actor_tables : Bool
  in_actor_tables =
      in_tables (λ p. same_permission p.permission permission)
        (filter (λ g. g.tenant_id == actor.tenant_id && g.user_id == actor.user_id) db.user_roles)
        db.role_policies

  actor_policies-ok :
      {roles : List RolePolicies} {db' : Db}
      → actor_policies casbin down before actor permission db ≡ (ok roles, db')
      → (valid_actor actor ≡ true)
        × (known_permission permission ≡ true)
        × (load_actor_policies down before actor db ≡ (ok roles, db'))
  unfolding actor_policies
  actor_policies-ok {roles} {db'} h =
      elim (Bool-cases (not (valid_actor actor) || not (known_permission permission))) [
        | inl e ↦ absurd (refused-not_ok _ db (rw e at h))
        | inr e ↦
            (let (a, k) = both_true (valid_actor actor) (known_permission permission) e in
              (a, k, labelled_call-ok _ _ db (rw e at h)))
      ]

  allowed_roles-ok :
      (roles : List RolePolicies) (d : Db) {rs : List RolePolicies} {db' : Db}
      → allowed_roles casbin down before actor permission roles d ≡ (ok rs, db')
      → is_granted casbin actor law permission roles ≡ true
  unfolding allowed_roles
  allowed_roles-ok roles d h =
      let (b, d1, h1, k1) = and_then-ok _ _ d h in
      let (asked, _) = lifted-ok _ d (labelled_call-ok _ _ d h1) in
      sym (enforce_granted casbin actor law permission roles b asked) ∙ allowed b d1 k1
    where
      allowed :
          (b : Bool) (d1 : Db) {rs : List RolePolicies} {db' : Db}
          → (if b then run (pure (ok roles)) else run (fail denied)) d1 ≡ (ok rs, db')
          → b ≡ true
      allowed true d1 k = refl
      allowed false d1 k = absurd (refused-not_ok _ d1 k)

  -- What a successful load and decision have shown.
  decided :
      (roles : List RolePolicies) {d : Db} {rs : List RolePolicies} {d' : Db}
      → load_actor_policies down before actor db ≡ (ok roles, d)
      → allowed_roles casbin down before actor permission roles d ≡ (ok rs, d')
      → in_actor_tables ≡ true
  decided roles {d} loaded allowed =
      sym (
        load_actor_policies_exact (λ p. same_permission p.permission permission) down before actor
          db loaded)
      ∙ allowed_roles-ok roles d allowed

  -- Where casbin is as documented, an actor is authorized only for a known permission for which the
  -- tables have a policy of a role that is granted to the actor in the actor's tenant.
  pub authorize_sound :
      {db' : Db}
      → authorize casbin down before actor permission db ≡ (ok tt, db')
      → (known_permission permission ≡ true) × (in_actor_tables ≡ true)
  unfolding authorize
  authorize_sound h =
      let (roles, d, h1, k1) = and_then-ok _ _ db h in
      let (_, known, loaded) = actor_policies-ok h1 in
      let (rs, d2, h2, k2) = and_then-ok _ _ d k1 in (known, decided roles loaded h2)

  -- A data scope that is resolved for an actor is the union over the roles that the store loads for
  -- the actor, and is resolved only where the actor is authorized.
  resolve_data_scope_sound :
      {scope : ResolvedDataScope} {db' : Db}
      → resolve_data_scope casbin down before actor permission db ≡ (ok scope, db')
      → (in_actor_tables ≡ true)
        × ((roles : List RolePolicies) × (d : Db) × (load_actor_policies down before actor db
              ≡ (ok roles, d))
            × (scope ≡ resolved_scope permission roles))
  unfolding resolve_data_scope
  resolve_data_scope_sound h =
      let (roles, d, h1, k1) = and_then-ok _ _ db h in
      let (_, known, loaded) = actor_policies-ok h1 in
      let (rs, d2, h2, k2) = and_then-ok _ _ d k1 in
      let (made, _) = lifted-ok _ d2 k2 in (decided roles loaded h2, (roles, d, loaded, cc made))

  load_actor_policies-keeps :
      {roles : List RolePolicies} {d : Db}
      → load_actor_policies down before actor db ≡ (ok roles, d)
      → d ≡ db
  unfolding load_actor_policies
  load_actor_policies-keeps h =
      run-ensures {P = λ r d. d ≡ db} (then_query _ _ _ _ (ensures_pure _ refl)) h

  allowed_roles-keeps :
      (roles : List RolePolicies) (d : Db) {rs : List RolePolicies} {d' : Db}
      → allowed_roles casbin down before actor permission roles d ≡ (ok rs, d')
      → d' ≡ d
  unfolding allowed_roles
  allowed_roles-keeps roles d h =
      let (b, d1, h1, k1) = and_then-ok _ _ d h in
      let (_, same) = lifted-ok _ d (labelled_call-ok _ _ d h1) in allowed b d1 k1 ∙ same
    where
      allowed :
          (b : Bool) (d1 : Db) {rs : List RolePolicies} {db' : Db}
          → (if b then run (pure (ok roles)) else run (fail denied)) d1 ≡ (ok rs, db')
          → db' ≡ d1
      allowed true d1 k = let (_, same) = lifted-ok _ d1 k in same
      allowed false d1 k = absurd (refused-not_ok _ d1 k)

  pub resolve_data_scope-keeps :
      {scope : ResolvedDataScope} {db' : Db}
      → resolve_data_scope casbin down before actor permission db ≡ (ok scope, db')
      → db' ≡ db
  unfolding resolve_data_scope
  resolve_data_scope-keeps h =
      let (roles, d, h1, k1) = and_then-ok _ _ db h in
      let (_, known, loaded) = actor_policies-ok h1 in
      let (rs, d2, h2, k2) = and_then-ok _ _ d k1 in
      let (_, same) = lifted-ok _ d2 k2 in
      same ∙ allowed_roles-keeps roles d h2 ∙ load_actor_policies-keeps loaded
