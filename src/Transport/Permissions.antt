-- ===== src/Transport/Permissions.antt =====
-- The check that the tenants' handlers share: the bearer token of an actor, then a permission of it
-- (`authorized` and `authorizedActor` of the handlers, which have the same text).
use modura.Prelude.{String, Bool, true, false, if◌then◌else◌}
use modura.Errors.{Error, AuthorizationError, authorization, cause, Result, ok, err}
use modura.Database.Tx.{Op}
use modura.Identity.Types.{Actor}
use modura.Authorization.Types.{Permission}
use modura.Transport.{Request, Response, Handler, answer, attempt, problem_response, Security}
use modura.Transport.Identity.{IdentityService, with_actor}

abbrev pub permission : String → String → Permission
permission resource action = record { resource = resource; action = action }

abbrev pub internal : {A : Type 0} → Response A
internal = problem_response 500 "internal server error"

abbrev pub bad_request : {A : Type 0} → Response A
bad_request = problem_response 400 "invalid request"

abbrev pub forbidden : {A : Type 0} → Response A
forbidden = problem_response 403 "forbidden"

abbrev pub is_denied : Error → Bool
is_denied (authorization AuthorizationError.denied) = true
is_denied _ = false

abbrev pub denied_or_internal : {A : Type 0} → Error → Response A
denied_or_internal e = if is_denied (cause e) then forbidden else internal

module _ (users : IdentityService) (security : Security)
    (authorize : Actor → Permission → Op (Unit {0})) where
  abbrev pub allowed : {A : Type 0} → (Actor → Handler A) → Actor → Result (Unit {0}) → Handler A
  allowed f actor (ok u) = f actor
  allowed f actor (err e) = answer (denied_or_internal e)

  unfoldable pub with_permission :
      {A : Type 0} → Request → Permission → (Actor → Handler A) → Handler A
  unfolding with_actor
  with_permission r p f =
      with_actor users security r λ actor. attempt (authorize actor p) (allowed f actor)
