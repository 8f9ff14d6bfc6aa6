-- ===== src/Authorization/Enforcer.antt =====
-- The policy enforcer of backend/internal/modules/authorization/service.go: `enforce` builds a casbin
-- enforcer from the actor's roles and asks it. casbin is a record of functions with the behaviour
-- that its documentation gives them for the model in `enforce`:
-- m = g(r.sub, p.sub, r.dom) && r.dom == p.dom && r.obj == p.obj && r.act == p.act.
use modura.Prelude.{
  String, Bool, true, false, false≢true, ◌&&◌, ◌||◌, ◌==◌, eq_iff, eq_refl, List, [], ◌∷◌, ◌≡◌, ◌⊎◌,
  refl, sym, ◌∙◌, subst, any, arith, Bool-cases, inl, inr,
}
use modura.Errors.{Result, ok, err, ◌>>=◌}
use modura.Identity.Types.{Actor}
use modura.Authorization.Types.{Permission, same_permission, Policy, RolePolicies}

-- `has_grouping s u r d`: the rule g, u, r, d is in the enforcer; `has_policy s r d o a`: p, r, d, o, a.
pub record Casbin (State : Type 0) : Type 0 where
  pub new_enforcer : Result State
  pub add_grouping : String → String → String → State → Result State
  pub add_policy : String → String → String → String → State → Result State
  pub decide : String → String → String → String → State → Result Bool
  pub has_grouping : State → String → String → String → Bool
  pub has_policy : State → String → String → String → String → Bool

module _ {State : Type 0} (casbin : Casbin State) where
  -- A new enforcer has no rules, a rule that is added is there with those before, and a request is
  -- allowed by a policy of the subject itself or of a role that the subject has in the domain. The
  -- last is stated where no role has roles of its own: all groupings are of one subject.
  pub record IsDocumented : Type 0 where
    pub new_empty :
        {s : State}
        → casbin.new_enforcer ≡ ok s
        → ((u r d : String) → casbin.has_grouping s u r d ≡ false)
          × ((r d o a : String) → casbin.has_policy s r d o a ≡ false)
    pub grouping_added :
        (u r d : String) (s : State) {s' : State}
        → casbin.add_grouping u r d s ≡ ok s'
        → ((v q e : String)
            → casbin.has_grouping s' v q e
              ≡ ((u == v && r == q && d == e) || casbin.has_grouping s v q e))
          × ((q e o a : String) → casbin.has_policy s' q e o a ≡ casbin.has_policy s q e o a)
    pub policy_added :
        (r d o a : String) (s : State) {s' : State}
        → casbin.add_policy r d o a s ≡ ok s'
        → ((v q e : String) → casbin.has_grouping s' v q e ≡ casbin.has_grouping s v q e)
          × ((q e p b : String)
              → casbin.has_policy s' q e p b
                ≡ ((r == q && d == e && o == p && a == b) || casbin.has_policy s q e p b))
    pub allows :
        (u d o a : String) (s : State)
        → casbin.decide u d o a s ≡ ok true
        → ((v r e : String) → casbin.has_grouping s v r e ≡ true → v ≡ u)
        → (r : String) × ((r ≡ u) ⊎ (casbin.has_grouping s u r d ≡ true))
          × (casbin.has_policy s r d o a ≡ true)
    pub denies :
        (u d o a r : String) (s : State)
        → casbin.decide u d o a s ≡ ok false
        → casbin.has_grouping s u r d ≡ true
        → casbin.has_policy s r d o a ≡ false

  module _ (actor : Actor) where
    add_policies : String → List Policy → State → Result State
    add_policies role [] s = ok s
    add_policies role (p ∷ ps) s =
        casbin.add_policy role actor.tenant_id p.permission.resource p.permission.action s
        >>= add_policies role ps

    add_roles : List RolePolicies → State → Result State
    unfolding add_policies
    add_roles [] s = ok s
    add_roles (role ∷ roles) s =
        casbin.add_grouping actor.user_id role.role_id actor.tenant_id s >>= λ s1.
        add_policies role.role_id role.policies s1 >>= add_roles roles

    unfoldable pub enforce : Permission → List RolePolicies → Result Bool
    unfolding add_roles
    enforce permission roles = casbin.new_enforcer >>= λ s.
        add_roles roles s
        >>= casbin.decide actor.user_id actor.tenant_id permission.resource permission.action

    -- What the rules say after the loop over a role's policies, and over the roles.
    abbrev policy_of_role : String → String → String → String → List Policy → String → Bool
    policy_of_role q e o a ps role =
        role == q
        && actor.tenant_id == e
        && any (λ p. p.permission.resource == o && p.permission.action == a) ps

    bind-ok :
        {A B : Type 0} (r : Result A) (f : A → Result B) {b : B}
        → (r >>= f) ≡ ok b
        → (x : A) × (r ≡ ok x) × (f x ≡ ok b)
    bind-ok (ok x) f h = (x, refl, h)
    bind-ok (err e) f h = cc

    module _ (law : IsDocumented) where
      add_policies-rules :
          (role : String) (ps : List Policy) (s : State) {s' : State}
          → add_policies role ps s ≡ ok s'
          → ((v q e : String) → casbin.has_grouping s' v q e ≡ casbin.has_grouping s v q e)
            × ((q e o a : String)
                → casbin.has_policy s' q e o a
                  ≡ (policy_of_role q e o a ps role || casbin.has_policy s q e o a))
      unfolding add_policies
      add_policies-rules role [] s {s'} h =
          let same : s ≡ s' = cc h in
          (
            λ v q e. cc same,
            λ q e o a.
                subst
                  (λ z.
                    casbin.has_policy z q e o a
                    ≡ (policy_of_role q e o a [] role || casbin.has_policy s q e o a))
                  same (ground arith),
          )
      add_policies-rules role (p ∷ ps) s h =
          let (s1, first, then) =
            bind-ok
              (casbin.add_policy role actor.tenant_id p.permission.resource p.permission.action s) _
              h in
          let (g1, p1) =
            law.policy_added role actor.tenant_id p.permission.resource p.permission.action s
              first in
          let (g2, p2) = add_policies-rules role ps s1 then in
          (λ v q e. g2 v q e ∙ g1 v q e, λ q e o a. ground (arith, p2 q e o a, p1 q e o a))

      add_roles-rules :
          (roles : List RolePolicies) (s : State) {s' : State}
          → add_roles roles s ≡ ok s'
          → ((v q e : String)
              → casbin.has_grouping s' v q e ≡ (
                  (actor.user_id == v
                    && actor.tenant_id == e
                    && any (λ role. role.role_id == q) roles)
                  || casbin.has_grouping s v q e))
            × ((q e o a : String)
                → casbin.has_policy s' q e o a ≡ (
                    any (λ role. policy_of_role q e o a role.policies role.role_id) roles
                    || casbin.has_policy s q e o a))
      unfolding add_roles
      add_roles-rules [] s {s'} h =
          let same : s ≡ s' = cc h in
          (
            λ v q e.
                subst
                  (λ z. casbin.has_grouping z v q e ≡ (
                    (actor.user_id == v && actor.tenant_id == e && false)
                    || casbin.has_grouping s v q e))
                  same (ground arith),
            λ q e o a. cc same,
          )
      add_roles-rules (role ∷ roles) s h =
          let (s1, first, both) =
            bind-ok (casbin.add_grouping actor.user_id role.role_id actor.tenant_id s) _ h in
          let (s2, then, rest) = bind-ok (add_policies role.role_id role.policies s1) _ both in
          let (g1, p1) = law.grouping_added actor.user_id role.role_id actor.tenant_id s first in
          let (g2, p2) = add_policies-rules role.role_id role.policies s1 then in
          let (g3, p3) = add_roles-rules roles s2 rest in
          (
            λ v q e. ground (arith, g3 v q e, g2 v q e, g1 v q e),
            λ q e o a. ground (arith, p3 q e o a, p2 q e o a, p1 q e o a),
          )

      -- Some policy of some role is for the permission.
      abbrev pub is_granted : Permission → List RolePolicies → Bool
      is_granted permission roles =
          any (λ role. any (λ p. same_permission p.permission permission) role.policies) roles

      granted_of_rule :
          (permission : Permission) (q e : String) (roles : List RolePolicies)
          → any
              (λ role.
                policy_of_role q e permission.resource permission.action role.policies role.role_id)
              roles
            ≡ true
          → is_granted permission roles ≡ true
      granted_of_rule permission q e [] h = h
      granted_of_rule permission q e (role ∷ roles) h =
          ground (arith, granted_of_rule permission q e roles)

      -- A role that has a policy for the permission, with the rules that it makes.
      role_of_granted :
          (permission : Permission) (roles : List RolePolicies)
          → is_granted permission roles ≡ true
          → (q : String) × (any (λ role. role.role_id == q) roles ≡ true)
            × (any
                  (λ role.
                    policy_of_role q actor.tenant_id permission.resource permission.action
                      role.policies role.role_id)
                  roles
                ≡ true)
      role_of_granted permission [] h = absurd (false≢true h)
      role_of_granted permission (role ∷ roles) h =
          elim (Bool-cases (any (λ p. same_permission p.permission permission) role.policies)) [
            | inl e ↦ (
              role.role_id,
              rw (eq_refl role.role_id),
              rw (eq_refl role.role_id, eq_refl actor.tenant_id, e),
            )
            | inr e ↦
                let (q, a, b) = role_of_granted permission roles (rw e at h) in
                (q, ground (arith, a), ground (arith, b))
          ]

      decided :
          (permission : Permission) (roles : List RolePolicies) (s s' : State) (b : Bool)
          → casbin.new_enforcer ≡ ok s
          → add_roles roles s ≡ ok s'
          → casbin.decide actor.user_id actor.tenant_id permission.resource permission.action s'
            ≡ ok b
          → b ≡ is_granted permission roles
      decided permission roles s s' true made built asked =
          let (no_grouping, no_policy) = law.new_empty made in
          let (g, p) = add_roles-rules roles s built in
          let (r, _, rule) =
            law.allows actor.user_id actor.tenant_id permission.resource permission.action s' asked
              (λ v q e k. own_grouping v q e (g v q e) (no_grouping v q e) k) in
          sym (
            granted_of_rule permission r actor.tenant_id roles (
              ground (
                arith,
                p r actor.tenant_id permission.resource permission.action,
                no_policy r actor.tenant_id permission.resource permission.action,
              )))
        where
          own_grouping :
              (v q e : String)
              → casbin.has_grouping s' v q e ≡ (
                  (actor.user_id == v
                    && actor.tenant_id == e
                    && any (λ role. role.role_id == q) roles)
                  || casbin.has_grouping s v q e)
              → casbin.has_grouping s v q e ≡ false
              → casbin.has_grouping s' v q e ≡ true
              → v ≡ actor.user_id
          own_grouping v q e a b k = sym ((eq_iff actor.user_id v).0 (ground arith))
      decided permission roles s s' false made built asked =
          elim (Bool-cases (is_granted permission roles)) [
            | inr e ↦ sym e
            | inl e ↦
                let (g, p) = add_roles-rules roles s built in
                let (q, there, rule) = role_of_granted permission roles e in
                let refused =
                  law.denies actor.user_id actor.tenant_id permission.resource permission.action q
                    s' asked
                    (ground (
                      arith,
                      g actor.user_id q actor.tenant_id,
                      eq_refl actor.user_id,
                      eq_refl actor.tenant_id,
                      there,
                    )) in
                absurd (
                  false≢true (
                    sym refused
                    ∙ ground
                        (arith, p q actor.tenant_id permission.resource permission.action, rule)))
          ]

      -- With casbin as documented, `enforce` allows a permission exactly when a policy of one of the
      -- actor's roles is for it.
      pub enforce_granted :
          (permission : Permission) (roles : List RolePolicies) (b : Bool)
          → enforce permission roles ≡ ok b
          → b ≡ is_granted permission roles
      unfolding enforce
      enforce_granted permission roles b h =
          let (s, made, rest) = bind-ok casbin.new_enforcer _ h in
          let (s', built, asked) = bind-ok (add_roles roles s) _ rest in
          decided permission roles s s' b made built asked
