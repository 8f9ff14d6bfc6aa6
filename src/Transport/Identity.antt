-- ===== src/Transport/Identity.antt =====
-- backend/internal/modules/identity/transport/http/handler.go. The service is the record of the use
-- cases that the handlers call; a JSON body is what ShouldBindJSON reads, or none.
use modura.Prelude.{String, Option, none, some, [], if◌then◌else◌, Bool, true, false}
use modura.Errors.{Error, IdentityError, identity, cause, Result, ok, err}
use modura.Database.{OneTimePurpose}
use modura.Database.Tx.{Op}
use modura.Identity.Types.{Actor, Tokens}
use modura.Transport.{
  Request, Body, Response, Handler, Checked, answer, then_passed, attempt, problem_response,
  tenant_refresh_cookie, tenant_csrf_cookie, bearer, cookie_and_csrf, Security, AccessTokenResponse,
  write_tokens, clear_cookies,
}

pub record IdentityService : Type 0 where
  pub login : String → String → String → Op Tokens
  pub refresh : String → Op Tokens
  pub authenticate_access : String → Op Actor
  pub logout : Actor → Op (Unit {0})
  pub logout_all : Actor → Op (Unit {0})
  pub change_password : Actor → String → String → String → Op Tokens
  pub consume_one_time_token : String → OneTimePurpose → String → Op (Unit {0})

pub record LoginRequest : Type 0 where
  pub tenant : String
  pub login : String
  pub password : Option String

pub record ChangePasswordRequest : Type 0 where
  pub current_password : Option String
  pub new_password : Option String

pub record OneTimeCredentialRequest : Type 0 where
  pub token : Option String
  pub new_password : Option String

abbrev pub unauthenticated : {A : Type 0} → Response A
unauthenticated = problem_response 401 "authentication failed"

abbrev bad_request : {A : Type 0} → Response A
bad_request = problem_response 400 "invalid request"

abbrev pub csrf : {A : Type 0} → Request → Checked A String
csrf r = cookie_and_csrf r tenant_refresh_cookie tenant_csrf_cookie

abbrev is_invalid_password : Error → Bool
is_invalid_password (identity IdentityError.invalid_password) = true
is_invalid_password _ = false

module _ (service : IdentityService) (security : Security) where
  abbrev tokens_of : Tokens → Response AccessTokenResponse
  tokens_of t =
      write_tokens security t.access_token t.refresh_token t.expires_in t.refresh_expires_in
        tenant_refresh_cookie tenant_csrf_cookie "/api/auth"

  abbrev cleared : {A : Type 0} → Response A → Response A
  cleared r = record r {
    cookies = clear_cookies security tenant_refresh_cookie tenant_csrf_cookie "/api/auth";
  }

  abbrev no_content : {A : Type 0} → Response A
  no_content = record { status = 204; body = Body.no_content; cookies = [] }

  abbrev pub authenticated : {A : Type 0} → (Actor → Handler A) → Result Actor → Handler A
  authenticated f (ok actor) = f actor
  authenticated f (err e) = answer unauthenticated

  -- Actor, and what the caller does with the actor.
  unfoldable pub with_actor : {A : Type 0} → Request → (Actor → Handler A) → Handler A
  with_actor r f =
      then_passed (bearer r) λ token. attempt (service.authenticate_access token) (authenticated f)

  abbrev or_unauthenticated : Result Tokens → Handler AccessTokenResponse
  or_unauthenticated (ok t) = answer (tokens_of t)
  or_unauthenticated (err e) = answer unauthenticated

  -- Login
  unfoldable pub login : Option LoginRequest → Handler AccessTokenResponse
  login none = answer bad_request
  login (some q) = with_password q.password
    where
      with_password : Option String → Handler AccessTokenResponse
      with_password none = answer bad_request
      with_password (some password) =
          attempt (service.login q.tenant q.login password) or_unauthenticated

  abbrev refreshed : Result Tokens → Handler AccessTokenResponse
  refreshed (ok t) = answer (tokens_of t)
  refreshed (err e) = answer (cleared unauthenticated)

  -- Refresh
  unfoldable pub refresh : Request → Handler AccessTokenResponse
  refresh r = then_passed (csrf r) λ token. attempt (service.refresh token) refreshed

  abbrev logged_out : Result (Unit {0}) → Handler (Unit {0})
  logged_out (ok u) = answer (cleared no_content)
  logged_out (err e) = answer unauthenticated

  -- Logout
  unfoldable pub logout : Request → Handler (Unit {0})
  unfolding with_actor
  logout r =
      then_passed (csrf r) λ token. with_actor r λ actor. attempt (service.logout actor) logged_out

  -- LogoutAll
  unfoldable pub logout_all : Request → Handler (Unit {0})
  unfolding with_actor
  logout_all r =
      then_passed (csrf r)
        λ token. with_actor r λ actor. attempt (service.logout_all actor) logged_out

  change_to : Actor → String → Option String → Option String → Handler AccessTokenResponse
  change_to actor token (some current) (some new) =
      attempt (service.change_password actor current new token) or_unauthenticated
  change_to actor token _ _ = answer bad_request

  change_bound : Actor → String → Option ChangePasswordRequest → Handler AccessTokenResponse
  unfolding change_to
  change_bound actor token none = answer bad_request
  change_bound actor token (some q) = change_to actor token q.current_password q.new_password

  -- ChangePassword
  unfoldable pub change_password :
      Request → Option ChangePasswordRequest → Handler AccessTokenResponse
  unfolding with_actor change_bound
  change_password r body =
      then_passed (csrf r) λ token. with_actor r λ actor. change_bound actor token body

  consumed : Result (Unit {0}) → Handler (Unit {0})
  consumed (ok u) = answer no_content
  consumed (err e) = answer (if is_invalid_password (cause e) then bad_request else unauthenticated)

  consume_with : OneTimePurpose → Option String → Option String → Handler (Unit {0})
  unfolding consumed
  consume_with purpose (some token) (some new) =
      attempt (service.consume_one_time_token token purpose new) consumed
  consume_with purpose _ _ = answer bad_request

  -- consumeOneTimeCredential
  unfoldable pub consume_one_time_credential :
      OneTimePurpose → Option OneTimeCredentialRequest → Handler (Unit {0})
  unfolding consume_with
  consume_one_time_credential purpose none = answer bad_request
  consume_one_time_credential purpose (some q) = consume_with purpose q.token q.new_password

  -- AcceptInvitation
  unfoldable pub accept_invitation : Option OneTimeCredentialRequest → Handler (Unit {0})
  unfolding consume_one_time_credential
  accept_invitation = consume_one_time_credential OneTimePurpose.invitation

  -- ResetPassword
  unfoldable pub reset_password : Option OneTimeCredentialRequest → Handler (Unit {0})
  unfolding consume_one_time_credential
  reset_password = consume_one_time_credential OneTimePurpose.password_reset
