-- ===== src/Examples/Casbin.antt =====
-- An enforcer that keeps its rules in lists, which behaves as casbin is documented.
use modura.Prelude.{
  String, Bool, true, false, false≢true, ◌&&◌, ◌||◌, ◌==◌, eq_iff, eq_refl, List, [], ◌∷◌, ◌≡◌, ◌⊎◌,
  refl, sym, subst, any, arith, Bool-cases, inl, inr,
}
use modura.Errors.{ok}
use modura.Authorization.Enforcer.{Casbin, IsDocumented}

pub record Grouping : Type 0 where
  pub user : String
  pub role : String
  pub domain : String

pub record Rule : Type 0 where
  pub subject : String
  pub domain : String
  pub object : String
  pub action : String

pub record Rules : Type 0 where
  pub groupings : List Grouping
  pub policies : List Rule

abbrev has_grouping : List Grouping → String → String → String → Bool
has_grouping gs u r d = any (λ g. g.user == u && g.role == r && g.domain == d) gs

abbrev has_rule : List Rule → String → String → String → String → Bool
has_rule ps r d o a =
    any (λ p. p.subject == r && p.domain == d && p.object == o && p.action == a) ps

abbrev allowed : List Grouping → String → String → String → String → List Rule → Bool
allowed gs u d o a ps =
    any
      (λ p.
        (p.subject == u || has_grouping gs u p.subject d)
        && p.domain == d
        && p.object == o
        && p.action == a)
      ps

abbrev pub listed_casbin : Casbin Rules
listed_casbin = record {
  new_enforcer = ok (record { groupings = []; policies = [] });
  add_grouping = λ u r d s.
      ok (record s { groupings = (record { user = u; role = r; domain = d }) ∷ s.groupings });
  add_policy = λ r d o a s. ok (record s {
    policies = (record { subject = r; domain = d; object = o; action = a }) ∷ s.policies;
  });
  decide = λ u d o a s. ok (allowed s.groupings u d o a s.policies);
  has_grouping = λ s u r d. has_grouping s.groupings u r d;
  has_policy = λ s r d o a. has_rule s.policies r d o a;
}

module _ (gs : List Grouping) (u d o a : String) where
  allowed-rule :
      (ps : List Rule)
      → allowed gs u d o a ps ≡ true
      → (r : String) × ((r ≡ u) ⊎ (has_grouping gs u r d ≡ true)) × (has_rule ps r d o a ≡ true)
  allowed-rule [] h = absurd (false≢true h)
  allowed-rule (p ∷ ps) h =
      elim (Bool-cases (
        (p.subject == u || has_grouping gs u p.subject d)
        && p.domain == d
        && p.object == o
        && p.action == a)) [
          | inl here ↦ (p.subject, subject_of p here, ground (arith, eq_refl p.subject))
          | inr there ↦ let (r, k, l) = allowed-rule ps (ground arith) in (r, k, ground (arith, l))
        ]
    where
      subject_of :
          (p : Rule)
          → ((p.subject == u || has_grouping gs u p.subject d)
              && p.domain == d
              && p.object == o
              && p.action == a)
            ≡ true
          → (p.subject ≡ u) ⊎ (has_grouping gs u p.subject d ≡ true)
      subject_of p k = elim (Bool-cases (p.subject == u)) [
        | inl e ↦ inl ((eq_iff p.subject u).0 e)
        | inr e ↦ inr (ground arith)
      ]

  refused-rule :
      (r : String) (ps : List Rule)
      → allowed gs u d o a ps ≡ false
      → has_grouping gs u r d ≡ true
      → has_rule ps r d o a ≡ false
  refused-rule r [] h k = refl
  refused-rule r (p ∷ ps) h k = elim (Bool-cases (p.subject == r)) [
    | inl e ↦
        let same : has_grouping gs u p.subject d ≡ true =
          subst (λ x. has_grouping gs u x d ≡ true) (sym ((eq_iff p.subject r).0 e)) k in
        ground (arith, refused-rule r ps)
    | inr e ↦ ground (arith, refused-rule r ps)
  ]

stored : {x s : Rules} → ok x ≡ ok s → x ≡ s
stored e = cc e

pub listed_casbin-IsDocumented : IsDocumented listed_casbin
listed_casbin-IsDocumented = record {
  new_empty = λ {s} e. (
    λ u r d. subst (λ (z : Rules). has_grouping z.groupings u r d ≡ false) (stored e) refl,
    λ r d o a. subst (λ (z : Rules). has_rule z.policies r d o a ≡ false) (stored e) refl,
  );
  grouping_added = λ u r d s {s'} e. (
    λ v q f.
        subst
          (λ (z : Rules).
            has_grouping z.groupings v q f
            ≡ ((u == v && r == q && d == f) || has_grouping s.groupings v q f))
          (stored e) refl,
    λ q f o a.
        subst (λ (z : Rules). has_rule z.policies q f o a ≡ has_rule s.policies q f o a) (stored e)
          refl,
  );
  policy_added = λ r d o a s {s'} e. (
    λ v q f.
        subst (λ (z : Rules). has_grouping z.groupings v q f ≡ has_grouping s.groupings v q f)
          (stored e) refl,
    λ q f p b.
        subst
          (λ (z : Rules).
            has_rule z.policies q f p b
            ≡ ((r == q && d == f && o == p && a == b) || has_rule s.policies q f p b))
          (stored e) refl,
  );
  allows = λ u d o a s e own. allowed-rule s.groupings u d o a s.policies (cc e);
  denies = λ u d o a r s e k. refused-rule s.groupings u d o a r s.policies (cc e) k;
}
