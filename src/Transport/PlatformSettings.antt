-- ===== src/Transport/PlatformSettings.antt =====
-- backend/internal/modules/settings/transport/http/platform_handler.go. `decodes` is whether
-- json.Unmarshal reads a text; the content of a response is the view that it is made from.
use modura.Prelude.{ℕ, String, Bool, Option, none, some, List, map, all, if◌then◌else◌}
use modura.Errors.{Error, SettingsError, settings, cause, Result, ok, err}
use modura.Database.Tx.{Op}
use modura.PlatformAdmin.{PlatformActor}
use modura.Settings.Types.{Dictionary, DictionaryItem, Configuration, PlatformWriteContext}
use modura.Transport.{
  Request, Response, Handler, answer, then_passed, attempt, problem_response, json, Security,
}
use modura.Transport.Permissions.{internal, bad_request}
use modura.Transport.Platform.{PlatformAdminService, platform_csrf, with_platform_actor}
use modura.Transport.Settings.{unidentified}

pub record PlatformSettingsService : Type 0 where
  pub list_global_dictionaries : PlatformActor → Op (List Dictionary)
  pub replace_global_dictionary :
      PlatformWriteContext → String → String → ℕ → List DictionaryItem → Op Dictionary
  pub list_global_configurations : PlatformActor → Op (List Configuration)
  pub put_global_configuration :
      PlatformWriteContext → String → String → String → Bool → ℕ → String → Op Configuration

pub record ReplacePlatformDictionaryRequest : Type 0 where
  pub reason : String
  pub name : String
  pub expected_version : ℕ
  pub items : List DictionaryItem

-- `value` is what json.Marshal makes of the value of the body.
pub record PutPlatformConfigurationRequest : Type 0 where
  pub reason : String
  pub name : String
  pub value_type : String
  pub tenant_overridable : Bool
  pub expected_version : ℕ
  pub value : Result String

-- platformWriteContext
abbrev platform_write_context : Request → PlatformActor → String → PlatformWriteContext
platform_write_context r actor reason = record {
  actor = actor;
  reason = reason;
  correlation_id = r.request_id;
}

abbrev problem_of : {A : Type 0} → Error → Response A
problem_of (settings SettingsError.not_found) = problem_response 404 "not found"
problem_of (settings SettingsError.conflict) = problem_response 409 "version conflict"
problem_of _ = bad_request

-- writeError
abbrev write_error : {A : Type 0} → Error → Response A
write_error e = problem_of (cause e)

module _ (admins : PlatformAdminService) (security : Security) (service : PlatformSettingsService)
    (decodes : String → Bool) where
  dictionaries_listed : Result (List Dictionary) → Handler (List Dictionary)
  dictionaries_listed (ok ds) = answer (json 200 ds)
  dictionaries_listed (err e) = answer internal

  -- ListPlatformDictionaries
  unfoldable pub list_platform_dictionaries : Request → Handler (List Dictionary)
  unfolding with_platform_actor dictionaries_listed
  list_platform_dictionaries r =
      with_platform_actor admins security r
        λ actor. attempt (service.list_global_dictionaries actor) dictionaries_listed

  replaced : Result Dictionary → Handler Dictionary
  replaced (ok d) = answer (json 200 d)
  replaced (err e) = answer (write_error e)

  replace_bound :
      Request
      → String
      → Option ReplacePlatformDictionaryRequest
      → PlatformActor
      → Handler Dictionary
  unfolding replaced
  replace_bound r code none actor = answer bad_request
  replace_bound r code (some q) actor =
      attempt
        (service.replace_global_dictionary (platform_write_context r actor q.reason) code q.name
          q.expected_version (map unidentified q.items))
        replaced

  -- ReplacePlatformDictionary
  unfoldable pub replace_platform_dictionary :
      Request → String → Option ReplacePlatformDictionaryRequest → Handler Dictionary
  unfolding with_platform_actor replace_bound
  replace_platform_dictionary r code body =
      then_passed (platform_csrf r)
        λ token. with_platform_actor admins security r (replace_bound r code body)

  configurations_listed : Result (List Configuration) → Handler (List Configuration)
  configurations_listed (ok cs) =
      answer (if all (λ (c : Configuration). decodes c.value) cs then json 200 cs else internal)
  configurations_listed (err e) = answer internal

  -- ListPlatformConfigurations
  unfoldable pub list_platform_configurations : Request → Handler (List Configuration)
  unfolding with_platform_actor configurations_listed
  list_platform_configurations r =
      with_platform_actor admins security r
        λ actor. attempt (service.list_global_configurations actor) configurations_listed

  stored : Result Configuration → Handler Configuration
  stored (ok c) = answer (if decodes c.value then json 200 c else internal)
  stored (err e) = answer (write_error e)

  put_value :
      Request
      → String
      → PutPlatformConfigurationRequest
      → PlatformActor
      → Result String
      → Handler Configuration
  unfolding stored
  put_value r key q actor (err e) = answer bad_request
  put_value r key q actor (ok value) =
      attempt
        (service.put_global_configuration (platform_write_context r actor q.reason) key q.name
          q.value_type q.tenant_overridable q.expected_version value)
        stored

  put_bound :
      Request
      → String
      → Option PutPlatformConfigurationRequest
      → PlatformActor
      → Handler Configuration
  unfolding put_value
  put_bound r key none actor = answer bad_request
  put_bound r key (some q) actor = put_value r key q actor q.value

  -- PutPlatformConfiguration
  unfoldable pub put_platform_configuration :
      Request → String → Option PutPlatformConfigurationRequest → Handler Configuration
  unfolding with_platform_actor put_bound
  put_platform_configuration r key body =
      then_passed (platform_csrf r)
        λ token. with_platform_actor admins security r (put_bound r key body)
