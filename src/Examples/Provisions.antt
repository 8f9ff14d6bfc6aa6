-- ===== src/Examples/Provisions.antt =====
-- Runs of the provisioning of tenants, over the modules' own operations.
use modura.Prelude.{
  ℕ, String, Char, ◌≡◌, ◌⊎◌, refl, find, filter, count_where, update_where, unique, true, nat_eq,
  if◌then◌else◌,
}
use modura.Text.{trim_space, map_runes}
use modura.Errors.{Error, cause, driver, idempotency_conflict, Result, ok, err}
use modura.Database.{Db, empty_db}
use modura.Database.Constraints.{constraints}
use modura.Database.Tx.{run, control, query, exec_or, ◌>>=◌, pure, fail, labelled, from_result}
use modura.Identity.Accounts
use modura.Organization.Members
use modura.Authorization.Store
use modura.Authorization.Service
use modura.Provisioning.{
  Provisioners, Request, Provisioned, ProvisioningEnvironment, trimmed_request, canonical_request,
  provision, record_request,
}
use modura.Provisioning.Later.{Later, start, another}
use modura.Provisioning.Modules.{composed, composed-KeepsRequests}
use modura.Provisioning.Idempotent.{prior_result, provision_idempotent}
use modura.Examples.{up}

abbrev same_rune : Char → Char
same_rune c = c

abbrev numbered : ℕ → String
numbered k =
    if nat_eq k 0
    then "t1"
    else if nat_eq k 1
    then "u1"
    else if nat_eq k 2
    then "d1"
    else if nat_eq k 3
    then "r1"
    else if nat_eq k 4
    then "i1"
    else "e1"

abbrev pub env : ProvisioningEnvironment
env = record {
  now = 50;
  new_id = λ k at. ok (numbered k);
  new_secret = ok "invite";
  hash_token = λ s. s;
  encode = λ i. ok i.slug;
  sha256 = λ s. s;
  invitation_lifetime = 10;
}

abbrev pub modules : Provisioners
modules = composed up

abbrev request : Request
request = record {
  idempotency_key = " key";
  slug = "acme";
  display_name = "Acme";
  root_department_name = "Root";
  administrator_username = "ann";
  administrator_email = "";
  actor = record { administrator_id = "a1"; session_id = "s1" };
  reason = "new";
  correlation_id = "c1";
}

abbrev canonical : Request
canonical = record request { idempotency_key = "key" }

canonical_for_acme : canonical_request same_rune env modules up request ≡ ok (canonical, "acme")
unfolding canonical_request trimmed_request trim_space map_runes
canonical_for_acme = refl

canonical_for_other :
    canonical_request same_rune env modules up (record request { slug = "other" })
    ≡ ok (record canonical { slug = "other" }, "other")
unfolding canonical_request trimmed_request trim_space map_runes
canonical_for_other = refl

abbrev acme : Provisioned
acme = record {
  tenant_id = "t1";
  administrator_id = "u1";
  invitation_token = "invite";
  created = true;
}

abbrev provisioned : Db
provisioned = (provision same_rune env modules up request empty_db).1

provisioning : provision same_rune env modules up request empty_db ≡ (ok acme, provisioned)
unfolding provision canonical_request trimmed_request trim_space map_runes record_request
    Accounts.provision_tenant Accounts.activate_tenant Members.provision_initial_organization
    Service.provision_tenant_administrator Store.create_reserved_role Store.assign_role labelled
    from_result run control query exec_or ◌>>=◌ pure fail find filter update_where count_where
    constraints unique
provisioning = refl

-- Another tenant is provisioned after it, under a key of its own.
abbrev second_id : ℕ → String
second_id k =
    if nat_eq k 0
    then "t2"
    else if nat_eq k 1
    then "u2"
    else if nat_eq k 2
    then "d2"
    else if nat_eq k 3
    then "r2"
    else if nat_eq k 4
    then "i2"
    else "e2"

abbrev second_env : ProvisioningEnvironment
second_env = record env { new_id = λ k at. ok (second_id k); new_secret = ok "invite2" }

abbrev second_request : Request
second_request = record request { idempotency_key = "second"; slug = "beta" }

abbrev second : Result Provisioned × Db
second = provision same_rune second_env modules up second_request provisioned

abbrev beta : Provisioned
beta = record {
  tenant_id = "t2";
  administrator_id = "u2";
  invitation_token = "invite2";
  created = true;
}

provisioning_second : second ≡ (ok beta, second.1)
unfolding provision canonical_request trimmed_request trim_space map_runes record_request
    Accounts.provision_tenant Accounts.activate_tenant Members.provision_initial_organization
    Service.provision_tenant_administrator Store.create_reserved_role Store.assign_role labelled
    from_result run control query exec_or ◌>>=◌ pure fail find filter update_where count_where
    constraints unique
provisioning_second = refl

after_second : Later composed provisioned second.1
after_second = another same_rune second_env up second_request (ok beta) start provisioning_second

-- Another request under the first key is refused.
provisioning_other :
    provision same_rune env modules up (record request { slug = "other" }) second.1
    ≡ (err idempotency_conflict, second.1)
unfolding provision canonical_request trimmed_request trim_space map_runes record_request
    Accounts.provision_tenant Accounts.activate_tenant Members.provision_initial_organization
    Service.provision_tenant_administrator Store.create_reserved_role Store.assign_role labelled
    from_result run control query exec_or ◌>>=◌ pure fail find filter update_where count_where
    constraints unique
provisioning_other = refl

provision_idempotent_example :
    (second.1 ≡ second.1)
    × ((Path String "acme" "other"
          × (Path (Result Provisioned) (err idempotency_conflict) (ok (prior_result "t1"))))
        ⊎ (¬ (Path String "acme" "other")
            × (Path (Result Provisioned) (err idempotency_conflict) (err idempotency_conflict)))
        ⊎ ((e : Error) × (Path (Result Provisioned) (err idempotency_conflict) (err e))
            × (cause e ≡ driver)))
provision_idempotent_example =
    provision_idempotent same_rune env env modules modules composed composed-KeepsRequests up up
      request (record request { slug = "other" }) canonical (record canonical { slug = "other" })
      "acme" "other" empty_db canonical_for_acme canonical_for_other refl provisioning after_second
      provisioning_other
