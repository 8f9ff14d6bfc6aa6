-- ===== src/Transport/Checks.antt =====
-- What the checks of a request establish: the pair of cookies and the bearer credential.
use modura.Prelude.{
  String, Bool, true, false, not, ◌&&◌, ◌||◌, ◌==◌, Option, none, some, ◌≡◌, ◌⊎◌, refl, inl, inr,
  blank, Bool-cases, arith,
}
use modura.Database.{Db}
use modura.Transport.{
  stopped, Request, Response, Body, Handler, passed, then_passed, problem_response,
  tenant_refresh_cookie, tenant_csrf_cookie, bearer, credential, cut_space, equal_fold, unverified,
  pair_of, cookie_and_csrf,
}
use modura.Transport.Identity.{csrf}

-- The header is there and is the value of the one cookie, and the other cookie is there.
abbrev pub matching : Option String → Option String → String → Bool
matching (some refresh) (some csrf) header = not (blank header) && header == csrf
matching _ _ header = false

abbrev pub verified : Request → Bool
verified r = matching (r.cookie tenant_refresh_cookie) (r.cookie tenant_csrf_cookie) r.csrf_header

abbrev pub is_problem : {A : Type 0} → Body A → Bool
is_problem (Body.problem s) = true
is_problem (Body.doubled b s) = true
is_problem _ = false

pair_of-refused :
    {A : Type 0} (a b : Option String) (header : String)
    → matching a b header ≡ false
    → pair_of {A = A} a b header ≡ unverified
pair_of-refused none b header h = refl
pair_of-refused (some a) none header h = refl
pair_of-refused (some a) (some b) header h = ground arith

pair_of-passed :
    {A : Type 0} (a b : Option String) (header : String)
    → matching a b header ≡ true
    → (token : String) × (pair_of {A = A} a b header ≡ passed token)
pair_of-passed none b header h = cc h
pair_of-passed (some a) none header h = cc h
pair_of-passed (some a) (some b) header h =
    let fits : (blank header || not (header == b)) ≡ false = ground arith in (a, rw fits)

-- A handler answers with 403 and changes nothing.
abbrev pub Refuses : {A : Type 0} → Handler A → Db → Type 0
Refuses f db = f db ≡ (problem_response 403 "request verification failed", db)

-- Without the pair a handler that starts with it does nothing.
pub pair-refused :
    {A : Type 0} (r : Request) (refresh_cookie csrf_cookie : String) (f : String → Handler A)
    (db : Db)
    → matching (r.cookie refresh_cookie) (r.cookie csrf_cookie) r.csrf_header ≡ false
    → Refuses (then_passed (cookie_and_csrf r refresh_cookie csrf_cookie) f) db
unfolding cookie_and_csrf then_passed
pair-refused r refresh_cookie csrf_cookie f db h =
    rw (pair_of-refused (r.cookie refresh_cookie) (r.cookie csrf_cookie) r.csrf_header h)

pub csrf-refused :
    {A : Type 0} (r : Request) (f : String → Handler A) (db : Db)
    → verified r ≡ false
    → Refuses (then_passed (csrf r) f) db
csrf-refused r = pair-refused r tenant_refresh_cookie tenant_csrf_cookie

-- With the pair a handler goes on to the rest.
pub csrf-verified :
    {A : Type 0} (r : Request) (f : Handler A) (db : Db) {x : Response A} {db' : Db}
    → verified r ≡ true
    → then_passed (csrf r) (λ token. f) db ≡ (x, db')
    → f db ≡ (x, db')
unfolding cookie_and_csrf then_passed
csrf-verified {A} r f db good h =
    let (token, e) =
      pair_of-passed {A = A} (r.cookie tenant_refresh_cookie) (r.cookie tenant_csrf_cookie)
        r.csrf_header good in
    rw e at h

pub bearer-cases :
    {A : Type 0} (r : Request)
    → (bearer {A = A} r ≡ stopped (problem_response 401 "authentication failed"))
      ⊎ ((token : String) × (bearer {A = A} r ≡ passed token))
unfolding bearer
bearer-cases {A} r = by_credential (cut_space r.authorization)
  where
    by_credential :
        (o : Option (String × String))
        → (credential {A = A} o ≡ stopped (problem_response 401 "authentication failed"))
          ⊎ ((token : String) × (credential {A = A} o ≡ passed token))
    by_credential none = inl refl
    by_credential (some (prefix, token)) =
        elim (Bool-cases (not (equal_fold prefix "Bearer") || blank token)) [
          | inl e ↦ inl (rw e)
          | inr e ↦ inr (token, rw e)
        ]
