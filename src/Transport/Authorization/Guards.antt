-- ===== src/Transport/Authorization/Guards.antt =====
-- What a request must have shown before a role or a grant is changed for it.
use modura.Prelude.{
  ℕ, String, Bool, true, false, Option, none, some, ◌≡◌, refl, sym, ◌∙◌, if◌then◌else◌, subst,
  Bool-cases, inl, inr,
}
use modura.Errors.{
  Error, AuthorizationError, authorization, identity, organization, platformtenant, platformadmin,
  settings, idempotency_conflict, driver, message, wrap, cause, Result, ok, err,
}
use modura.Database.{Db}
use modura.Identity.Types.{Actor}
use modura.Transport.{
  stopped, problem_response, then_passed, Request, Response, passed, attempt, json, Security,
  bearer,
}
use modura.Transport.Checks.{verified, is_problem, csrf-refused, csrf-verified, bearer-cases}
use modura.Transport.Identity.{unauthenticated, IdentityService, with_actor, authenticated}
use modura.Transport.Permissions.{
  bad_request, denied_or_internal, permission, internal, forbidden, is_denied, allowed,
  with_permission,
}
use modura.Transport.Authorization.{
  AuthorizationService, ReplaceRolePoliciesRequest, write_context, authorized, version_answered,
  problem_of, replace_bound, replace_role_policies,
}

refused_is_problem :
    (A : Type 0) (b : Bool)
    → is_problem (if b then forbidden {A = A} else internal {A = A}).body ≡ true
refused_is_problem A true = refl
refused_is_problem A false = refl

problem_of-is_problem : (A : Type 0) (e : Error) → is_problem (problem_of {A = A} e).body ≡ true
problem_of-is_problem A (authorization AuthorizationError.denied) = refl
problem_of-is_problem A (authorization AuthorizationError.reserved) = refl
problem_of-is_problem A (authorization AuthorizationError.not_found) = refl
problem_of-is_problem A (authorization AuthorizationError.conflict) = refl
problem_of-is_problem A (identity e) = refl
problem_of-is_problem A (organization e) = refl
problem_of-is_problem A (platformtenant e) = refl
problem_of-is_problem A (platformadmin e) = refl
problem_of-is_problem A (settings e) = refl
problem_of-is_problem A idempotency_conflict = refl
problem_of-is_problem A driver = refl
problem_of-is_problem A (message s) = refl
problem_of-is_problem A (wrap s e) = refl

module _ (users : IdentityService) (security : Security) (service : AuthorizationService)
    (is_uuid : String → Bool) where
  -- The request carries the pair of CSRF cookie and header, and a bearer token that the identity
  -- service accepted for an actor.
  pub record IsAuthenticated (r : Request) (db : Db) (actor : Actor) (left : Db) : Type 0 where
    pub pair : verified r ≡ true
    pub token : String
    pub presented : bearer {A = ℕ} r ≡ passed token
    pub accepted : users.authenticate_access token db ≡ (ok actor, left)

  -- What a replacement answers with the service's result.
  abbrev pub Answers : Response ℕ → Result ℕ → Type 0
  Answers x (ok version) = x ≡ json 200 version
  Answers x (err e) = is_problem x.body ≡ true

  -- How a request to replace the policies of a role ends, and who has changed the database by then.
  pub data IsGuarded (r : Request) (role : String) (body : Option ReplaceRolePoliciesRequest)
      (db : Db) (x : Response ℕ) (db' : Db) : Type 0 where
    -- no pair: refused, and nothing was called
    forged :
        verified r ≡ false
        → x ≡ problem_response 403 "request verification failed"
        → db' ≡ db
        → IsGuarded r role body db x db'
    -- no bearer token: a problem, and nothing was called
    nameless :
        verified r ≡ true
        → bearer {A = ℕ} r ≡ stopped unauthenticated
        → is_problem x.body ≡ true
        → db' ≡ db
        → IsGuarded r role body db x db'
    -- the token was refused: a problem, and nothing else was called
    unknown :
        (token : String) (e : Error)
        → users.authenticate_access token db ≡ (err e, db')
        → is_problem x.body ≡ true
        → IsGuarded r role body db x db'
    -- the permission was refused: a problem, and nothing else was called
    unpermitted :
        (actor : Actor) (left : Db)
        → IsAuthenticated r db actor left
        → (e : Error)
        → service.authorize actor (permission "authorization.policies" "update") left ≡ (err e, db')
        → is_problem x.body ≡ true
        → IsGuarded r role body db x db'
    -- no body: a problem, and nothing else was called
    unreadable :
        (actor : Actor) (left : Db)
        → IsAuthenticated r db actor left
        → service.authorize actor (permission "authorization.policies" "update") left ≡ (ok tt, db')
        → body ≡ none
        → is_problem x.body ≡ true
        → IsGuarded r role body db x db'
    -- all passed: the service was called for that actor, and its result is answered
    called :
        (actor : Actor) (left after_permission : Db)
        → IsAuthenticated r db actor left
        → service.authorize actor (permission "authorization.policies" "update") left
          ≡ (ok tt, after_permission)
        → (q : ReplaceRolePoliciesRequest) (m : Result ℕ) → body ≡ some q
        → service.replace_role_policies
            (write_context r actor)
            role
            q.expected_version
            q.policies
            after_permission
          ≡ (m, db')
        → Answers x m
        → IsGuarded r role body db x db'

  module _ (r : Request) (role : String) (db : Db) {x : Response ℕ} {db' : Db} where
    by_body :
        (body : Option ReplaceRolePoliciesRequest) (actor : Actor) (left after_permission : Db)
        → IsAuthenticated r db actor left
        → service.authorize actor (permission "authorization.policies" "update") left
          ≡ (ok tt, after_permission)
        → replace_bound users security service is_uuid r role body actor after_permission ≡ (x, db')
        → IsGuarded r role body db x db'
    unfolding replace_bound version_answered
    by_body none actor left d k permitted h =
        unreadable actor left k (permitted ∙ cc h) refl
          (let same : bad_request ≡ x = cc h in subst (λ y. is_problem y.body ≡ true) same refl)
    by_body (some q) actor left d k permitted h =
        by_result
          (service.replace_role_policies (write_context r actor) role q.expected_version q.policies
            d)
          refl (unfold attempt in h)
      where
        by_result :
            (m : Result ℕ × Db)
            → service.replace_role_policies
                (write_context r actor)
                role
                q.expected_version
                q.policies
                d
              ≡ m
            → version_answered users security service is_uuid m.0 m.1 ≡ (x, db')
            → IsGuarded r role (some q) db x db'
        by_result (ok version, d') run h =
            called actor left d k permitted q (ok version) refl (run ∙ cc h) (cc h)
        by_result (err e, d') run h = called actor left d k permitted q (err e) refl (run ∙ cc h) (
            let same : problem_of (cause e) ≡ x = cc h in
            subst (λ y. is_problem y.body ≡ true) same (problem_of-is_problem ℕ (cause e)))

    by_permission :
        (body : Option ReplaceRolePoliciesRequest) (actor : Actor) (left : Db)
        → IsAuthenticated r db actor left
        → (m : Result (Unit {0}) × Db)
        → service.authorize actor (permission "authorization.policies" "update") left ≡ m
        → allowed users security service.authorize
            (replace_bound users security service is_uuid r role body)
            actor
            m.0
            m.1
          ≡ (x, db')
        → IsGuarded r role body db x db'
    by_permission body actor left k (ok u, d) permitted h = by_body body actor left d k permitted h
    by_permission body actor left k (err e, d) permitted h =
        unpermitted actor left k e (permitted ∙ cc h) (
          let same : denied_or_internal e ≡ x = cc h in
          subst (λ y. is_problem y.body ≡ true) same (refused_is_problem ℕ (is_denied (cause e))))

    by_token :
        (body : Option ReplaceRolePoliciesRequest) (token : String)
        → verified r ≡ true
        → bearer {A = ℕ} r ≡ passed token
        → (m : Result Actor × Db) → users.authenticate_access token db ≡ m
        → authenticated users security
            (λ actor.
              attempt (service.authorize actor (permission "authorization.policies" "update")) (
                allowed users security service.authorize
                  (replace_bound users security service is_uuid r role body)
                  actor))
            m.0
            m.1
          ≡ (x, db')
        → IsGuarded r role body db x db'
    unfolding attempt
    by_token body token pair presented (err e, d) accepted h =
        unknown token e (accepted ∙ cc h)
          (let same : unauthenticated ≡ x = cc h in subst (λ y. is_problem y.body ≡ true) same refl)
    by_token body token pair presented (ok actor, d) accepted h =
        by_permission body actor d
          (record { pair = pair; token = token; presented = presented; accepted = accepted }) _ refl
          h

    by_bearer :
        (body : Option ReplaceRolePoliciesRequest)
        → verified r ≡ true
        → authorized users security service is_uuid r
            (permission "authorization.policies" "update")
            (replace_bound users security service is_uuid r role body)
            db
          ≡ (x, db')
        → IsGuarded r role body db x db'
    unfolding authorized with_permission with_actor attempt then_passed
    by_bearer body pair h = elim (bearer-cases {A = ℕ} r) [
      | inl e ↦
          let l : (unauthenticated, db) ≡ (x, db') = (rw e at h) in
          let same : unauthenticated ≡ x = cc l in
          nameless pair e (subst (λ y. is_problem y.body ≡ true) same refl) (cc l)
      | inr (token, e) ↦
          by_token body token pair e (users.authenticate_access token db) refl (rw e at h)
    ]

  -- Every request to replace the policies of a role, whatever it is answered, ends in one of six
  -- ways. Without the pair of CSRF cookie and header it is refused and the database is as it was.
  -- Without a bearer token, or with one that the identity service refuses, or for an actor to whom
  -- the authorization service refuses the permission to update policies, or without a body, it is
  -- answered with a problem, and the database is what the last of these checks left. Else the service
  -- was called for that actor with the body's version and policies, and its result is answered.
  pub replace_role_policies_guarded :
      (r : Request) (role : String) (body : Option ReplaceRolePoliciesRequest) (db : Db)
      {x : Response ℕ} {db' : Db}
      → replace_role_policies users security service is_uuid r role body db ≡ (x, db')
      → IsGuarded r role body db x db'
  unfolding replace_role_policies
  replace_role_policies_guarded r role body db {x} {db'} h = elim (Bool-cases (verified r)) [
    | inr e ↦
        let l : (problem_response 403 "request verification failed", db) ≡ (x, db') =
          sym (csrf-refused r _ db e) ∙ h in
        forged e (cc l) (cc l)
    | inl e ↦ by_bearer r role db body e (csrf-verified r _ db e h)
  ]
