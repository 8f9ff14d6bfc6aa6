-- ===== src/Organization/Service.antt =====
-- backend/internal/modules/organization/service.go. `lower` is unicode.ToLower, `new_id` the generator
-- of the service's identifiers, `new_event_id` the auditor's, `now` the time that the clock returns,
-- and `fuel` bounds the rounds of the recursive queries.
pub mod Writes
pub mod Requests
pub mod Audited
use modura.Prelude.{
  ℕ, ℤ, String, Char, Bool, true, false, not, ◌&&◌, ◌||◌, ◌==◌, Option, none, some, List, blank,
  is_some, if◌then◌else◌,
}
use modura.Errors.{Error, message, Result, ok, err}
use modura.Text.{trim_space, map_runes}
use modura.Database.{DepartmentRow, PositionRow, PositionStatus, Db}
use modura.Database.Tx.{
  Faults, Tx, Op, pure, fail, run, within_transaction, labelled, labelled_call, and_then, ◌>>=◌,
  ◌>>◌,
}
use modura.Audit
use modura.Organization.Types.{
  Department, DepartmentView, Position, PositionView, DataScope, valid_scope, WriteContext,
}
use modura.Organization.Departments
use modura.Organization.Members

-- validWrite
unfoldable pub valid_write : WriteContext → Bool
unfolding valid_scope
valid_write w =
    not (blank w.actor.tenant_id)
    && not (blank w.actor.user_id)
    && not (blank w.actor.session_id)
    && not (blank (trim_space w.correlation_id))
    && valid_scope w.scope
    && w.scope.actor_id == w.actor.user_id

unfoldable pub event_of : WriteContext → ℕ → String → String → String → Audit.Event
event_of w now action resource id = record {
  actor_id = w.actor.user_id;
  tenant_id = w.actor.tenant_id;
  action = action;
  resource = resource;
  resource_id = id;
  reason = "authorized tenant management request";
  correlation_id = w.correlation_id;
  occurred_at = some now;
  before_state = "";
  after_state = "";
}

abbrev pub refuse : {A : Type 0} → String → Op A
refuse s = run (fail (message s))

module _ (lower : Char → Char) (valid_json : String → Bool) (new_event_id : ℕ → Result String)
    (down : Faults) (fuel now : ℕ) where
  -- NormalizeName
  abbrev pub normalize_name : String → String
  normalize_name s = map_runes lower (trim_space s)

  -- (*Service).write
  unfoldable pub write_audited :
      WriteContext → String → String → String → Tx (Unit {0}) → Op (Unit {0})
  unfolding event_of
  write_audited w action resource id change = within_transaction down do
    change
    Audit.record_tenant_write valid_json new_event_id down (event_of w now action resource id)

  unfoldable pub list_positions :
      (PositionRow → PositionRow → Bool) → String → Op (List PositionView)
  list_positions before t =
      if blank t
      then refuse "invalid tenant scope"
      else labelled_call "list positions" (Members.list_positions down before t)

  unfoldable pub list_departments :
      (DepartmentRow → DepartmentRow → Bool) → String → DataScope → Op (List DepartmentView)
  unfolding valid_scope
  list_departments before t scope =
      if blank t || not (valid_scope scope)
      then refuse "invalid tenant scope"
      else labelled_call "list departments" (Members.list_departments down fuel before t scope)

  -- `id` is the identifier that the generator returned.
  create_department_as : WriteContext → Option String → String → ℤ → String → Op String
  create_department_as w parent name sort_order id = labelled_call "create department" (
      and_then
        (write_audited w "organization.department.created" "department" id (
          Departments.create_department down fuel
            (record {
              id = id;
              tenant_id = w.actor.tenant_id;
              parent_id = parent;
              name = trim_space name;
              normalized_name = normalize_name name;
              sort_order = sort_order;
              created_at = now;
            })
            w.scope))
        (λ u. run (pure (ok id))))

  unfoldable pub create_department :
      (ℕ → Result String) → WriteContext → Option String → String → ℤ → Op String
  unfolding create_department_as valid_write
  create_department new_id w parent name sort_order =
      if not (valid_write w) || blank (normalize_name name)
      then refuse "invalid department"
      else and_then (labelled_call "generate department ID" (run (pure (new_id now))))
          (create_department_as w parent name sort_order)

  unfoldable pub update_department : WriteContext → String → String → ℤ → Op (Unit {0})
  unfolding valid_write
  update_department w d name sort_order =
      if not (valid_write w) || blank d || blank (normalize_name name)
      then refuse "invalid department update"
      else write_audited w "organization.department.updated" "department" d (
          Departments.update_department down fuel w.actor.tenant_id d (trim_space name)
            (normalize_name name) sort_order w.scope now)

  unfoldable pub move_department : WriteContext → String → String → Op (Unit {0})
  unfolding valid_write
  move_department w d parent =
      if not (valid_write w) || blank d || blank parent
      then refuse "invalid department move"
      else write_audited w "organization.department.moved" "department" d
          (Departments.move_department down fuel w.actor.tenant_id d parent w.scope now)

  unfoldable pub delete_department : WriteContext → String → Op (Unit {0})
  unfolding valid_write
  delete_department w d =
      if not (valid_write w) || blank d
      then refuse "invalid department delete"
      else write_audited w "organization.department.deleted" "department" d
          (Departments.delete_department down fuel w.actor.tenant_id d w.scope)

  create_position_as : WriteContext → String → String → Op String
  create_position_as w name id = labelled_call "create position" (
      and_then
        (write_audited w "organization.position.created" "position" id (
          Members.create_position down (record {
            id = id;
            tenant_id = w.actor.tenant_id;
            name = trim_space name;
            normalized_name = normalize_name name;
            created_at = now;
          })))
        (λ u. run (pure (ok id))))

  unfoldable pub create_position : (ℕ → Result String) → WriteContext → String → Op String
  unfolding create_position_as valid_write
  create_position new_id w name =
      if not (valid_write w) || blank (normalize_name name)
      then refuse "invalid position"
      else and_then (labelled_call "generate position ID" (run (pure (new_id now))))
          (create_position_as w name)

  -- `valid` of PositionStatus holds of both values of the type.
  unfoldable pub update_position : WriteContext → String → String → PositionStatus → Op (Unit {0})
  unfolding valid_write
  update_position w id name status =
      if not (valid_write w) || blank id || blank (normalize_name name)
      then refuse "invalid position update"
      else write_audited w "organization.position.updated" "position" id (
          Members.update_position down w.actor.tenant_id id (trim_space name) (normalize_name name)
            status now)

  unfoldable pub assign_user : WriteContext → String → String → Option String → Op (Unit {0})
  unfolding valid_write
  assign_user w user d position =
      if not (valid_write w) || blank user || blank d
      then refuse "invalid user organization assignment"
      else write_audited w "organization.user-assigned" "user" user
          (Members.assign_user down fuel w.actor.tenant_id user d position w.scope now)

  unfoldable pub provision_initial_organization : Department → String → Tx (Unit {0})
  provision_initial_organization root administrator =
      if blank root.tenant_id || blank root.id || is_some root.parent_id || blank administrator
      then fail (message "invalid initial organization")
      else labelled "provision initial organization"
          (Members.provision_initial_organization down root administrator)
