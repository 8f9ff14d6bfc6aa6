-- ===== src/Organization/Members/Changes.antt =====
-- What the operations on positions and assignments change, when they succeed.
use modura.Prelude.{
  ℕ, String, Bool, true, nat_eq, Option, none, ◌∷◌, ◌≡◌, refl, inl, inr, ◌&&◌, ◌||◌, ◌==◌,
  Bool-cases, update_where,
}
use modura.Database.{PositionRow, PositionStatus, UserOrganization, Db}
use modura.Database.Constraints.{constraints}
use modura.Database.Tx.{Faults, Tx, ◌>>=◌}
use modura.Database.Tx.Rules.{
  Ensures, ensures_pure, ensures_fail, ensures_if, then_exec, then_exec_held, then_pure,
}
use modura.Organization.Types.{Department, Position, DataScope}
use modura.Organization.Departments.{visible_department, visible_user, department_row}
use modura.Organization.Departments.Visibility.{then_visible}
use modura.Organization.Members.{
  upserted, create_position, update_position, one_position, assign_user,
  provision_initial_organization,
}

abbrev pub position_row : Position → PositionRow
position_row p = record {
  id = p.id;
  tenant_id = p.tenant_id;
  name = p.name;
  normalized_name = p.normalized_name;
  status = PositionStatus.active;
  created_at = p.created_at;
  updated_at = p.created_at;
}

abbrev pub restated : String → String → PositionStatus → ℕ → PositionRow → PositionRow
restated name normalized status now p = record p {
  name = name;
  normalized_name = normalized;
  status = status;
  updated_at = now;
}

abbrev pub assignment : String → String → String → Option String → ℕ → UserOrganization
assignment t user d position now = record {
  tenant_id = t;
  user_id = user;
  primary_department_id = d;
  position_id = position;
  created_at = now;
  updated_at = now;
}

module _ (down : Faults) (db : Db) where
  pub create_position-ensures :
      (p : Position)
      → Ensures
          (create_position down p)
          db
          (λ u db'. db' ≡ record db { positions = position_row p ∷ db.positions })
  unfolding create_position
  create_position-ensures p = then_exec _ _ _ _ _ _ (ensures_pure _ refl)

  if_one :
      {P : Unit {0} → Db → Type 0} (n : ℕ) (db1 : Db)
      → P tt db1
      → Ensures (one_position down n) db1 P
  unfolding one_position
  if_one n db1 h = ensures_if (nat_eq n 1) (λ _. ensures_pure tt h) (λ _. ensures_fail _)

  pub update_position-ensures :
      (t id name normalized : String) (status : PositionStatus) (now : ℕ)
      → Ensures (update_position down t id name normalized status now) db (λ u db'.
        db' ≡ record db {
          positions =
              update_where
                (λ p. p.tenant_id == t && p.id == id)
                (restated name normalized status now)
                db.positions;
        })
  unfolding update_position
  update_position-ensures t id name normalized status now = then_exec _ _ _ _ _ _ (if_one _ _ refl)

  then_user :
      {P : Unit {0} → Db → Type 0} (fuel : ℕ) (t user : String) (scope : DataScope)
      (f : Bool → Tx (Unit {0}))
      → ((b : Bool) → Ensures (f b) db P)
      → Ensures (visible_user down fuel t user scope >>= f) db P
  unfolding visible_user
  then_user fuel t user scope f k =
      elim (Bool-cases (scope.all || (scope.self && user == scope.actor_id))) [
        | inl e ↦ rw e (then_pure _ f (k _))
        | inr e ↦ rw e (then_pure _ f (k _))
      ]

  pub assign_user-ensures :
      (fuel : ℕ) (t user d : String) (position : Option String) (scope : DataScope) (now : ℕ)
      → Ensures (assign_user down fuel t user d position scope now) db (λ u db'. db' ≡ record db {
        user_organization = upserted (assignment t user d position now) db.user_organization;
      })
  unfolding assign_user visible_department
  assign_user-ensures fuel t user d position scope now = then_user fuel t user scope _ λ b.
      ensures_if b
        (λ _. then_visible _ _ _ _ λ c _.
          ensures_if c (λ _. then_exec _ _ _ _ _ _ (ensures_pure _ refl)) (λ _. ensures_fail _))
        (λ _. ensures_fail _)

  -- The constraints hold of the departments with the new root.
  pub provision_initial_organization-ensures :
      (root : Department) (administrator : String)
      → Ensures (provision_initial_organization down root administrator) db (λ u db'.
        (db' ≡ record db {
          departments = record (department_row root) { parent_id = none } ∷ db.departments;
          user_organization =
              assignment root.tenant_id administrator root.id none root.created_at
              ∷ db.user_organization;
        })
        × (constraints db' ≡ true))
  unfolding provision_initial_organization
  provision_initial_organization-ensures root administrator =
      then_exec _ _ _ _ _ _ (then_exec_held _ _ _ _ _ _ λ held. ensures_pure _ (refl, held))
