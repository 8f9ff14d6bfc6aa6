-- ===== src/Examples/Requests.antt =====
-- Requests to the HTTP handlers, over the services as they are.
use modura.Prelude.{
  ℕ, String, Bool, true, Option, none, some, [], ◌∷◌, pos, ◌≡◌, refl, ◌==◌, find, filter, contains,
  update_where, delete_where, count_where, unique, insertion_sort, if◌then◌else◌,
}
use modura.Text.{trim_space, text_le}
use modura.Errors.{Result, ok}
use modura.Database.{DataScopeKind, Db}
use modura.Database.Constraints.{constraints}
use modura.Database.Tx.{
  run, control, query, exec_or, ◌>>=◌, pure, fail, and_then, on_error, labelled, labelled_call,
  from_result, within_transaction,
}
use modura.Audit
use modura.Audit.Redaction.{Json}
use modura.Authorization.Types.{known_permission}
use modura.Authorization.Policies.{valid_policies, valid_policy, can_delegate, resolved_scope}
use modura.Authorization.Store
use modura.Authorization.StoreRows
use modura.Authorization.Enforcer.{enforce}
use modura.Authorization.Service
use modura.Authorization.Management
use modura.Identity.Service as Users
use modura.Identity.Sessions
use modura.Identity.Rows.{joined}
use modura.Transport.{
  Request, Response, json, problem_response, Security, then_passed, attempt, bearer, equal_fold,
  cut_space, cookie_and_csrf,
}
use modura.Transport.Identity as IdentityHttp
use modura.Transport.Identity.{IdentityService, with_actor}
use modura.Transport.Permissions.{with_permission}
use modura.Transport.Authorization.{
  AuthorizationService, ReplaceRolePoliciesRequest, authorized, replace_bound, create_role,
  replace_role_policies, replace_user_role_grants,
}
use modura.Transport.Authorization.Guards.{IsGuarded, replace_role_policies_guarded}
use modura.Transport.Authorization as AuthorizationHttp
use modura.Transport.Organization as OrganizationHttp
use modura.Transport.Organization.{Authorizer, OrganizationService}
use modura.Transport.Protection.{Bodies, unverified_refused}
use modura.Organization.Service as Departments
use modura.Settings.Service as SettingsOps
use modura.Settings.Service.{SettingsMarshal, SettingsOrders}
use modura.Transport.Settings as SettingsHttp
use modura.Transport.Settings.{SettingsService}
use modura.Examples.{up, sample, policy}
use modura.Examples.Casbin.{listed_casbin}
use modura.Examples.Login
use modura.Examples.Decisions.{in_order, orders, marshal, any_json, same_rune, event_id, desired}

-- Bob's role may read departments and update policies.
abbrev managed : Db
managed = record sample {
  role_policies =
      policy "clerk" "authorization.policies" "update" DataScopeKind.all [] ∷ sample.role_policies;
}

-- The one token that is accepted is of bob's session.
abbrev env : Users.Environment
env = record Login.env {
  verify_token = λ s at. ok (record {
    issuer = "modura";
    audience = "api";
    principal_type = "tenant";
    session_id = "s3";
    tenant_id = "t1";
    subject = if s == "bob" then "u2" else "";
    token_id = "k1";
    security_version = pos 1;
    issued_at = pos 0;
    expires_at = pos 1;
  });
}

abbrev users : IdentityService
users = record {
  login = λ slug name password. Users.login same_rune env up slug name password 50;
  refresh = Users.refresh same_rune env up;
  authenticate_access = Users.authenticate_access same_rune env up;
  logout = Users.logout same_rune env up;
  logout_all = Users.logout_all same_rune env up;
  change_password = Users.change_password same_rune env up;
  consume_one_time_token = Users.consume_one_time_token same_rune env up;
}

abbrev new_id : ℕ → Result String
new_id at = ok "n1"

abbrev roles : AuthorizationService
roles = record {
  authorize = Service.authorize listed_casbin up in_order;
  effective_permissions = Service.effective_permissions listed_casbin up in_order;
  list_roles =
      Management.list_roles listed_casbin same_rune marshal any_json event_id up orders true 50;
  create_role =
      Management.create_role listed_casbin same_rune marshal any_json event_id up orders true 50
        new_id;
  get_role_policy_set =
      Management.get_role_policy_set listed_casbin same_rune marshal any_json event_id up orders
        true 50;
  replace_role_policies =
      Management.replace_role_policies listed_casbin same_rune marshal any_json event_id up orders
        true 50;
  get_user_role_grants =
      Management.get_user_role_grants listed_casbin same_rune marshal any_json event_id up orders
        true 50;
  replace_user_role_grants =
      Management.replace_user_role_grants listed_casbin same_rune marshal any_json event_id up
        orders true 50;
}

abbrev security : Security
security = record { cookie_secure = true; new_csrf = ok "csrf" }

abbrev any_uuid : String → Bool
any_uuid s = true

abbrev request : Request
request = record {
  authorization = "bearer bob";
  cookie = λ name. some (if name == "modura_csrf" then "c" else "r3");
  csrf_header = "c";
  request_id = "q1";
}

abbrev body : Option ReplaceRolePoliciesRequest
body = some (record { expected_version = 1; policies = desired })

abbrev replaced : Db
replaced = (replace_role_policies users security roles any_uuid request "guest" body managed).1

replacing :
    replace_role_policies users security roles any_uuid request "guest" body managed
    ≡ (json 200 2, replaced)
unfolding replace_role_policies then_passed attempt bearer equal_fold cut_space cookie_and_csrf
    with_actor with_permission authorized Users.authenticate_access Sessions.validate_session joined
    Service.authorize Service.resolve_data_scope Management.replace_role_policies valid_policies
    valid_policy can_delegate Store.replace_role_policies StoreRows.policies_of
    Audit.record_tenant_write trim_space within_transaction labelled from_result on_error find
    update_where delete_where count_where constraints unique control exec_or resolved_scope
    known_permission contains enforce Store.load_actor_policies StoreRows.joined_rows
    StoreRows.rows_of_grant StoreRows.by_role StoreRows.add_row insertion_sort text_le run query
    ◌>>=◌ pure fail and_then labelled_call filter
replacing = refl

replace_role_policies_guarded_example :
    IsGuarded users security roles any_uuid request "guest" body managed (json 200 2) replaced
replace_role_policies_guarded_example =
    replace_role_policies_guarded users security roles any_uuid request "guest" body managed
      replacing

-- The same request with another header.
abbrev forged : Request
forged = record request { csrf_header = "d" }

abbrev refused : {A : Type 0} → Response A × Db
refused = (problem_response 403 "request verification failed", managed)

abbrev authorizer : Authorizer
authorizer = record {
  authorize = Service.authorize listed_casbin up in_order;
  resolve_data_scope = Service.resolve_data_scope listed_casbin up in_order;
}

abbrev organization : OrganizationService
organization = record {
  list_departments = Departments.list_departments same_rune any_json event_id up 3 50 in_order;
  list_positions = Departments.list_positions same_rune any_json event_id up 3 50 in_order;
  create_department = Departments.create_department same_rune any_json event_id up 3 50 new_id;
  update_department = Departments.update_department same_rune any_json event_id up 3 50;
  move_department = Departments.move_department same_rune any_json event_id up 3 50;
  delete_department = Departments.delete_department same_rune any_json event_id up 3 50;
  create_position = Departments.create_position same_rune any_json event_id up 3 50 new_id;
  update_position = Departments.update_position same_rune any_json event_id up 3 50;
  assign_user = Departments.assign_user same_rune any_json event_id up 3 50;
}

abbrev as_stored : {A : Type 0} → A → A → Bool
as_stored a b = true

abbrev item_id : ℕ → ℕ → Result String
item_id k at = ok "i1"

abbrev no_json : String → Option Json
no_json s = none

abbrev settings_marshal : SettingsMarshal
settings_marshal = record {
  null = ok "null";
  dictionary = λ d. ok d.name;
  configuration = λ c. ok c.value;
}

abbrev settings_orders : SettingsOrders
settings_orders = record { types = as_stored; items = as_stored; definitions = as_stored }

abbrev settings : SettingsService
settings = record {
  list_dictionaries =
      SettingsOps.list_dictionaries same_rune settings_marshal (λ s. s) no_json any_json event_id
        item_id up settings_orders 50;
  replace_dictionary =
      SettingsOps.replace_dictionary same_rune settings_marshal (λ s. s) no_json any_json event_id
        item_id up settings_orders 50;
  delete_dictionary =
      SettingsOps.delete_dictionary same_rune settings_marshal (λ s. s) no_json any_json event_id
        item_id up settings_orders 50;
  list_configurations =
      SettingsOps.list_configurations same_rune settings_marshal (λ s. s) no_json any_json event_id
        item_id up settings_orders 50;
  put_configuration =
      SettingsOps.put_configuration same_rune settings_marshal (λ s. s) no_json any_json event_id
        item_id up settings_orders 50;
}

abbrev bodies : Bodies
bodies = record {
  password = none;
  role = none;
  policies = body;
  grants = none;
  new_department = none;
  department = none;
  parent = some "lab";
  position = some "chief";
  position_update = none;
  assignment = none;
  dictionary = none;
  configuration = none;
}

unverified_refused_example :
    (((IdentityHttp.refresh users security forged managed ≡ refused)
        × (IdentityHttp.logout users security forged managed ≡ refused)
        × (IdentityHttp.logout_all users security forged managed ≡ refused)
        × (IdentityHttp.change_password users security forged bodies.password managed ≡ refused))
      × ((AuthorizationHttp.create_role users security roles any_uuid forged bodies.role managed
            ≡ refused)
          × (AuthorizationHttp.replace_role_policies users security roles any_uuid forged "sales"
                bodies.policies managed
              ≡ refused)
          × (AuthorizationHttp.replace_user_role_grants users security roles any_uuid forged "sales"
                bodies.grants managed
              ≡ refused))
      × ((OrganizationHttp.create_department users security authorizer organization any_uuid forged
              bodies.new_department managed
            ≡ refused)
          × (OrganizationHttp.update_department users security authorizer organization any_uuid
                forged "sales" bodies.department managed
              ≡ refused)
          × (OrganizationHttp.move_department users security authorizer organization any_uuid forged
                "sales" bodies.parent managed
              ≡ refused)
          × (OrganizationHttp.delete_department users security authorizer organization any_uuid
                forged "sales" managed
              ≡ refused)
          × (OrganizationHttp.create_position users security authorizer organization any_uuid forged
                bodies.position managed
              ≡ refused)
          × (OrganizationHttp.update_position users security authorizer organization any_uuid forged
                "sales" bodies.position_update managed
              ≡ refused)
          × (OrganizationHttp.assign_user users security authorizer organization any_uuid forged
                "sales" bodies.assignment managed
              ≡ refused))
      × ((SettingsHttp.replace_dictionary users security authorizer.authorize settings any_json
              forged "sales" bodies.dictionary managed
            ≡ refused)
          × (SettingsHttp.delete_dictionary users security authorizer.authorize settings any_json
                forged "sales" 2 managed
              ≡ refused)
          × (SettingsHttp.put_configuration users security authorizer.authorize settings any_json
                forged "sales" bodies.configuration managed
              ≡ refused)))
unverified_refused_example =
    unverified_refused users security roles authorizer organization settings any_uuid any_json
      forged "sales" 2 bodies managed refl
