-- ===== src/Organization/History/Isolation.antt =====
-- A write of the organization's store for one tenant, and the tables of the others.
use modura.Prelude.{
  ℕ, String, Bool, true, false, Option, List, ◌≡◌, refl, sym, subst, ap, ◌&&◌, ◌==◌, eq_iff, any,
  and-eq-true, update_where, ◌∙◌, filter, filter-cons_false, filter-delete_where,
  filter-update_where, Bool-cases, inl, inr,
}
use modura.Errors.{ok}
use modura.Database.{DepartmentRow, PositionRow, UserOrganization, Db}
use modura.Database.Tx.{Faults, within_transaction}
use modura.Database.Tx.Atomic.{within_transaction-ensures}
use modura.Database.Tx.Rules.{Ensures, weaken}
use modura.Organization.Tree.{is_department}
use modura.Organization.Departments.Changes.{
  create_department-ensures, update_department-ensures, delete_department-ensures,
}
use modura.Organization.Departments.Moves.{move_department-ensures}
use modura.Organization.Members.{upserted}
use modura.Organization.Members.Changes.{
  create_position-ensures, update_position-ensures, assign_user-ensures,
  provision_initial_organization-ensures, assignment,
}
use modura.Organization.History.{
  Write, creates, updates, moves, deletes, adds_position, updates_position, assigns, provisions,
  tenant_of, perform,
}

-- The rows of a tenant in the organization's tables are the same in both databases.
pub record IsUntouched (t : String) (db db' : Db) : Type 0 where
  pub departments :
      filter (λ r. r.tenant_id == t) db'.departments ≡ filter (λ r. r.tenant_id == t) db.departments
  pub positions :
      filter (λ r. r.tenant_id == t) db'.positions ≡ filter (λ r. r.tenant_id == t) db.positions
  pub assignments :
      filter (λ r. r.tenant_id == t) db'.user_organization
      ≡ filter (λ r. r.tenant_id == t) db.user_organization

-- The other tables stay as they are.
abbrev pub KeepsRest : Db → Db → Type 0
KeepsRest db db' = db' ≡ record db {
  departments = db'.departments;
  positions = db'.positions;
  user_organization = db'.user_organization;
}

other_tenant : (s t other : String) → (t == other) ≡ false → (s == t) ≡ true → (s == other) ≡ false
other_tenant s t other h k = rw ((eq_iff s t).0 k) h

module _ (down : Faults) (fuel : ℕ) (other : String) (db : Db) where
  abbrev pub Isolated : Unit {0} → Db → Type 0
  Isolated u db' = IsUntouched other db db' × KeepsRest db db'

  with_departments :
      (rows : List DepartmentRow)
      → filter (λ r. r.tenant_id == other) rows ≡ filter (λ r. r.tenant_id == other) db.departments
      → Isolated tt (record db { departments = rows })
  with_departments rows h = (record { departments = h; positions = refl; assignments = refl }, refl)

  with_positions :
      (rows : List PositionRow)
      → filter (λ r. r.tenant_id == other) rows ≡ filter (λ r. r.tenant_id == other) db.positions
      → Isolated tt (record db { positions = rows })
  with_positions rows h = (record { departments = refl; positions = h; assignments = refl }, refl)

  with_assignments :
      (rows : List UserOrganization)
      → filter (λ r. r.tenant_id == other) rows
        ≡ filter (λ r. r.tenant_id == other) db.user_organization
      → Isolated tt (record db { user_organization = rows })
  with_assignments rows h = (record { departments = refl; positions = refl; assignments = h }, refl)

  from_equation : (db1 : Db) → Isolated tt db1 → (db' : Db) → db' ≡ db1 → Isolated tt db'
  from_equation db1 h db' e = subst (Isolated tt) (sym e) h

  module _ (t : String) (apart : (t == other) ≡ false) where
    keyed_other : (s : String) (b : Bool) → (s == t && b) ≡ true → (s == other) ≡ false
    keyed_other s b k = other_tenant s t other apart (and-eq-true _ _ k).0

    departments-updated :
        (d : String) (f : DepartmentRow → DepartmentRow)
        → ((r : DepartmentRow) → (f r).tenant_id ≡ r.tenant_id)
        → Isolated tt
            (record db { departments = update_where (is_department t d) f db.departments })
    departments-updated d f same = with_departments _ (
        filter-update_where _ _ f db.departments
          λ r k. (keyed_other r.tenant_id _ k, rw (same r) (keyed_other r.tenant_id _ k)))

    upserted-other :
        (user d : String) (position : Option String) (now : ℕ) (rows : List UserOrganization)
        → filter (λ r. r.tenant_id == other) (upserted (assignment t user d position now) rows)
          ≡ filter (λ r. r.tenant_id == other) rows
    unfolding upserted
    upserted-other user d position now rows =
        elim (Bool-cases (any (λ o. o.tenant_id == t && o.user_id == user) rows)) [
          | inl e ↦ rw e (
              filter-update_where _ _ _ rows
                λ r k. (keyed_other r.tenant_id _ k, keyed_other r.tenant_id _ k))
          | inr e ↦ rw e (filter-cons_false _ rows apart)
        ]

  -- A write that succeeds changes only the organization's tables, and there no row of a tenant that
  -- it is not for.
  pub perform-Isolated :
      (w : Write) → (tenant_of w == other) ≡ false → Ensures (perform down fuel w) db Isolated
  perform-Isolated (creates d scope) apart =
      weaken (create_department-ensures down fuel db d scope)
        λ u db' (e, held). from_equation _ (with_departments _ (filter-cons_false _ _ apart)) db' e
  perform-Isolated (updates t d name normalized order scope now) apart =
      weaken (update_department-ensures down fuel db t d name normalized order scope now)
        λ u db' (e, held). from_equation _ (departments-updated t apart d _ (λ r. refl)) db' e
  perform-Isolated (moves t d parent scope now) apart =
      weaken (move_department-ensures down fuel t d parent now db scope) λ u db' m.
        from_equation _ (departments-updated t apart d _ (λ r. refl)) db'
          (m.rest ∙ ap (λ rows. record db { departments = rows }) m.rows)
  perform-Isolated (deletes t d scope) apart =
      weaken (delete_department-ensures down fuel db t d scope) λ u db' (e, held).
        from_equation _
          (with_departments _ (
            filter-delete_where _ _ db.departments
              λ r k. keyed_other t apart r.tenant_id _ (and-eq-true _ _ k).0))
          db' e
  perform-Isolated (adds_position p) apart =
      weaken (create_position-ensures down db p)
        λ u db' e. from_equation _ (with_positions _ (filter-cons_false _ _ apart)) db' e
  perform-Isolated (updates_position t id name normalized status now) apart =
      weaken (update_position-ensures down db t id name normalized status now) λ u db' e.
        from_equation _
          (with_positions _ (
            filter-update_where _ _ _ db.positions
              λ r k. (keyed_other t apart r.tenant_id _ k, keyed_other t apart r.tenant_id _ k)))
          db' e
  perform-Isolated (assigns t user d position scope now) apart =
      weaken (assign_user-ensures down db fuel t user d position scope now) λ u db' e.
        from_equation _
          (with_assignments _ (upserted-other t apart user d position now db.user_organization)) db'
          e
  perform-Isolated (provisions root administrator) apart =
      weaken (provision_initial_organization-ensures down db root administrator) λ u db' (e, held).
        from_equation _
          (
            record {
              departments = filter-cons_false _ _ apart;
              positions = refl;
              assignments = filter-cons_false _ _ apart;
            },
            refl,
          )
          db' e

  -- A committed write of the organization's store leaves the departments, the positions and the
  -- assignments of every tenant that it is not for as they were, and every other table too.
  pub write_isolated :
      (w : Write) (db' : Db)
      → (tenant_of w == other) ≡ false
      → within_transaction down (perform down fuel w) db ≡ (ok tt, db')
      → IsUntouched other db db' × KeepsRest db db'
  write_isolated w db' apart done =
      within_transaction-ensures down _ db (perform-Isolated w apart) done
