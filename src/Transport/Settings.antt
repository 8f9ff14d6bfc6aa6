-- ===== src/Transport/Settings.antt =====
-- backend/internal/modules/settings/transport/http/handler.go. `decodes` is whether json.Unmarshal reads
-- a text; the content of a response is the view that it is made from.
use modura.Prelude.{ℕ, String, Bool, Option, none, some, List, [], map, all, if◌then◌else◌}
use modura.Errors.{Error, SettingsError, settings, cause, Result, ok, err}
use modura.Database.Tx.{Op}
use modura.Identity.Types.{Actor}
use modura.Authorization.Types.{Permission}
use modura.Settings.Types.{Dictionary, DictionaryItem, Configuration, WriteContext}
use modura.Transport.{
  Request, Response, Body, Handler, answer, then_passed, attempt, problem_response, json, Security,
}
use modura.Transport.Identity.{IdentityService, csrf}
use modura.Transport.Permissions.{permission, internal, bad_request, forbidden, with_permission}

pub record SettingsService : Type 0 where
  pub list_dictionaries : Actor → Op (List Dictionary)
  pub replace_dictionary : WriteContext → String → String → ℕ → List DictionaryItem → Op Dictionary
  pub delete_dictionary : WriteContext → String → ℕ → Op (Unit {0})
  pub list_configurations : Actor → Op (List Configuration)
  pub put_configuration : WriteContext → String → ℕ → String → Op Configuration

pub record ReplaceDictionaryRequest : Type 0 where
  pub name : String
  pub expected_version : ℕ
  pub items : List DictionaryItem

-- `value` is what json.Marshal makes of the value of the body.
pub record PutConfigurationRequest : Type 0 where
  pub expected_version : ℕ
  pub value : Result String

abbrev dictionaries : String
dictionaries = "settings.dictionaries"

abbrev configurations : String
configurations = "settings.configurations"

-- The items of the body have no identifiers.
abbrev pub unidentified : DictionaryItem → DictionaryItem
unidentified i = record i { id = "" }

-- writeContext
abbrev write_context : Request → Actor → WriteContext
write_context r actor = record { actor = actor; correlation_id = r.request_id }

abbrev problem_of : {A : Type 0} → Error → Response A
problem_of (settings SettingsError.not_found) = problem_response 404 "not found"
problem_of (settings SettingsError.conflict) = problem_response 409 "version conflict"
problem_of (settings SettingsError.not_overridable) = forbidden
problem_of _ = bad_request

-- writeError
abbrev write_error : {A : Type 0} → Error → Response A
write_error e = problem_of (cause e)

module _ (users : IdentityService) (security : Security)
    (authorize : Actor → Permission → Op (Unit {0})) (service : SettingsService)
    (decodes : String → Bool) where
  dictionaries_listed : Result (List Dictionary) → Handler (List Dictionary)
  dictionaries_listed (ok ds) = answer (json 200 ds)
  dictionaries_listed (err e) = answer internal

  -- ListDictionaries
  unfoldable pub list_dictionaries : Request → Handler (List Dictionary)
  unfolding with_permission dictionaries_listed
  list_dictionaries r =
      with_permission users security authorize r (permission dictionaries "read")
        λ actor. attempt (service.list_dictionaries actor) dictionaries_listed

  replaced : Result Dictionary → Handler Dictionary
  replaced (ok d) = answer (json 200 d)
  replaced (err e) = answer (write_error e)

  replace_bound : Request → String → Option ReplaceDictionaryRequest → Actor → Handler Dictionary
  unfolding replaced
  replace_bound r code none actor = answer bad_request
  replace_bound r code (some q) actor =
      attempt
        (service.replace_dictionary (write_context r actor) code q.name q.expected_version
          (map unidentified q.items))
        replaced

  -- ReplaceDictionary
  unfoldable pub replace_dictionary :
      Request → String → Option ReplaceDictionaryRequest → Handler Dictionary
  unfolding with_permission replace_bound
  replace_dictionary r code body = then_passed (csrf r) λ token.
      with_permission users security authorize r (permission dictionaries "update")
        (replace_bound r code body)

  deleted : Result (Unit {0}) → Handler (Unit {0})
  deleted (ok u) = answer (record { status = 204; body = Body.no_content; cookies = [] })
  deleted (err e) = answer (write_error e)

  -- DeleteDictionary
  unfoldable pub delete_dictionary : Request → String → ℕ → Handler (Unit {0})
  unfolding with_permission deleted
  delete_dictionary r code expected = then_passed (csrf r) λ token.
      with_permission users security authorize r (permission dictionaries "delete")
        λ actor. attempt (service.delete_dictionary (write_context r actor) code expected) deleted

  -- configurationResponse: whether the value can be read.
  abbrev readable_configuration : Configuration → Bool
  readable_configuration c = decodes c.value

  configurations_listed : Result (List Configuration) → Handler (List Configuration)
  configurations_listed (ok cs) =
      answer (if all readable_configuration cs then json 200 cs else internal)
  configurations_listed (err e) = answer internal

  -- ListConfigurations
  unfoldable pub list_configurations : Request → Handler (List Configuration)
  unfolding with_permission configurations_listed
  list_configurations r =
      with_permission users security authorize r (permission configurations "read")
        λ actor. attempt (service.list_configurations actor) configurations_listed

  stored : Result Configuration → Handler Configuration
  stored (ok c) = answer (if readable_configuration c then json 200 c else internal)
  stored (err e) = answer (write_error e)

  put_value : Request → String → ℕ → Actor → Result String → Handler Configuration
  unfolding stored
  put_value r key expected actor (err e) = answer bad_request
  put_value r key expected actor (ok value) =
      attempt (service.put_configuration (write_context r actor) key expected value) stored

  put_bound : Request → String → Option PutConfigurationRequest → Actor → Handler Configuration
  unfolding put_value
  put_bound r key none actor = answer bad_request
  put_bound r key (some q) actor = put_value r key q.expected_version actor q.value

  -- PutConfiguration
  unfoldable pub put_configuration :
      Request → String → Option PutConfigurationRequest → Handler Configuration
  unfolding with_permission put_bound
  put_configuration r key body = then_passed (csrf r) λ token.
      with_permission users security authorize r (permission configurations "update")
        (put_bound r key body)
