-- ===== src/Transport.antt =====
-- backend/internal/api/transport/security.go: bearer credentials, the double-submit pair of cookies
-- and problem responses, over a request and a response as values. A handler is a function from the
-- database to its response and the database that it leaves.
pub mod Identity
pub mod Authorization
pub mod Checks
pub mod PlatformSettings
pub mod PlatformProtection
pub mod Provisioning
pub mod Audit
pub mod Platform
pub mod Settings
pub mod System
pub mod Protection
pub mod Permissions
pub mod Organization
use Prim.Native.Char.{Char, code}
use Prim.Native.String.{String}
use modura.Prelude.{
  ℕ, ℤ, pos, negsuc, ◌+◌, ◌/◌, Bool, true, false, not, ◌&&◌, ◌||◌, ◌==◌, Option, none, some, List,
  [], ◌∷◌, blank, leb, nat_eq, if◌then◌else◌,
}
use modura.Errors.{Result, ok, err}
use modura.Database.{Db}
use modura.Database.Tx.{Op}
use modura.Identity.Token.{nanoseconds}

-- What the handlers read of a request; `cookie` is c.Cookie, with none for an error, and a header that
-- is not there is blank. `csrf_header` is the X-CSRF-Token parameter.
pub record Request : Type 0 where
  pub authorization : String
  pub cookie : String → Option String
  pub csrf_header : String
  pub request_id : String

pub record Cookie : Type 0 where
  pub name : String
  pub value : String
  pub max_age : ℤ
  pub path : String
  pub secure : Bool
  pub http_only : Bool

pub data Body (A : Type 0) : Type 0 where
  no_content : Body A
  problem : String → Body A
  content : A → Body A
  -- A problem behind what was written before it.
  doubled : Body A → String → Body A

pub record Response (A : Type 0) : Type 0 where
  pub status : ℕ
  pub body : Body A
  pub cookies : List Cookie

abbrev pub Handler : Type 0 → Type 0
Handler A = Db → Response A × Db

-- A check that has written its own response, or a value to go on with.
pub data Checked (A X : Type 0) : Type 0 where
  stopped : Response A → Checked A X
  passed : X → Checked A X

abbrev pub answer : {A : Type 0} → Response A → Handler A
answer r db = (r, db)

unfoldable pub then_passed : {A X : Type 0} → Checked A X → (X → Handler A) → Handler A
then_passed (stopped r) f db = (r, db)
then_passed (passed x) f db = f x db

-- A call of a service, and what the handler makes of its result.
unfoldable pub attempt : {A X : Type 0} → Op X → (Result X → Handler A) → Handler A
attempt m f db = f (m db).0 (m db).1

-- Problem
abbrev pub problem_response : {A : Type 0} → ℕ → String → Response A
problem_response status title = record { status = status; body = Body.problem title; cookies = [] }

abbrev pub json : {A : Type 0} → ℕ → A → Response A
json status a = record { status = status; body = Body.content a; cookies = [] }

abbrev pub tenant_refresh_cookie : String
tenant_refresh_cookie = "modura_refresh"

abbrev pub tenant_csrf_cookie : String
tenant_csrf_cookie = "modura_csrf"

abbrev ascii_lower : ℕ → ℕ
ascii_lower c = if leb 65 c && leb c 90 then c + 32 else c

-- strings.EqualFold, where one text is of letters without other case forms than the two of ASCII.
unfoldable pub equal_fold : String → String → Bool
equal_fold String.[] String.[] = true
equal_fold String.[] (String.◌∷◌ d t) = false
equal_fold (String.◌∷◌ c s) String.[] = false
equal_fold (String.◌∷◌ c s) (String.◌∷◌ d t) =
    nat_eq (ascii_lower (code c)) (ascii_lower (code d)) && equal_fold s t

abbrev before_cut : Char → Option (String × String) → Option (String × String)
before_cut c none = none
before_cut c (some (a, b)) = some (String.◌∷◌ c a, b)

-- strings.Cut at a space
unfoldable pub cut_space : String → Option (String × String)
cut_space String.[] = none
cut_space (String.◌∷◌ c s) =
    let rest = cut_space s in
    if nat_eq (code c) b' ' then some (String.[], s) else before_cut c rest

abbrev unauthenticated : {A X : Type 0} → Checked A X
unauthenticated = stopped (problem_response 401 "authentication failed")

abbrev credential : {A : Type 0} → Option (String × String) → Checked A String
credential none = unauthenticated
credential (some (prefix, token)) =
    if not (equal_fold prefix "Bearer") || blank token then unauthenticated else passed token

-- Bearer
unfoldable pub bearer : {A : Type 0} → Request → Checked A String
bearer r = credential (cut_space r.authorization)

abbrev unverified : {A X : Type 0} → Checked A X
unverified = stopped (problem_response 403 "request verification failed")

abbrev pair_of : {A : Type 0} → Option String → Option String → String → Checked A String
pair_of none csrf header = unverified
pair_of (some refresh) none header = unverified
pair_of (some refresh) (some csrf) header =
    if blank header || not (header == csrf) then unverified else passed refresh

-- CookieAndCSRF
unfoldable pub cookie_and_csrf : {A : Type 0} → Request → String → String → Checked A String
cookie_and_csrf r refresh_name csrf_name =
    pair_of (r.cookie refresh_name) (r.cookie csrf_name) r.csrf_header

pub record Security : Type 0 where
  pub cookie_secure : Bool
  pub new_csrf : Result String

pub record AccessTokenResponse : Type 0 where
  pub access_token : String
  pub expires_in : ℕ
  pub csrf_token : String

module _ (security : Security) where
  abbrev set_cookie : String → String → ℤ → Bool → String → Cookie
  set_cookie name value max_age http_only path = record {
    name = name;
    value = value;
    max_age = max_age;
    path = path;
    secure = security.cookie_secure;
    http_only = http_only;
  }

  tokens_response :
      String
      → String
      → ℕ
      → ℕ
      → String
      → String
      → String
      → Result String
      → Response AccessTokenResponse
  tokens_response access refresh expires refresh_expires refresh_name csrf_name path (err e) =
      problem_response 500 "internal server error"
  tokens_response access refresh expires refresh_expires refresh_name csrf_name path (ok csrf) =
      record {
        status = 200;
        body = Body.content (record {
          access_token = access;
          expires_in = expires / nanoseconds;
          csrf_token = csrf;
        });
        cookies =
            set_cookie refresh_name refresh (pos (refresh_expires / nanoseconds)) true path
            ∷ set_cookie csrf_name csrf (pos (refresh_expires / nanoseconds)) false path
            ∷ [];
      }

  -- WriteTokens
  unfoldable pub write_tokens :
      String → String → ℕ → ℕ → String → String → String → Response AccessTokenResponse
  unfolding tokens_response
  write_tokens access refresh expires refresh_expires refresh_name csrf_name path =
      tokens_response access refresh expires refresh_expires refresh_name csrf_name path
        security.new_csrf

  -- ClearCookies
  unfoldable pub clear_cookies : String → String → String → List Cookie
  clear_cookies refresh_name csrf_name path =
      set_cookie refresh_name "" (negsuc 0) true path
      ∷ set_cookie csrf_name "" (negsuc 0) false path
      ∷ []
