-- ===== src/Identity/Accounts/OneTime.antt =====
-- One-time tokens in backend/internal/modules/identity/postgres/store.go.
use modura.Prelude.{
  ℕ, String, true, false, ◌&&◌, Option, none, some, ◌≡◌, ◌≢◌, refl, subst, sym, ◌∙◌, any, find,
  find_sound, find-any-false, update_where, count_where, count_where-of-any-false,
  count_where-cons_self, find-cons_self, any-update_where-false, arith, eq_refl, ◌==◌, ltb,
  false≢true, inl, inr, Bool-cases,
}
use modura.Errors.{Result, ok}
use modura.Database.{Db, OneTimeToken, OneTimePurpose}
use modura.Database.Tx.{Faults}
use modura.Database.Tx.Rules.{
  Ensures, ensures_pure, ensures_fail, ensures_if, then_control, then_query, then_exec,
}
use modura.Database.Tx.Runs.{run-ensures}
use modura.Identity.Types.{Session}
use modura.Identity.Rows.{is_live_of, is_user, joined, joined-of_same, same_purpose}
use modura.Identity.Sessions.{validate_session}
use modura.Identity.Sessions.Validation.{validate_session_sound, validates-no_live}
use modura.Identity.Accounts.{
  create_one_time_token, insert_token, commit_token, consume_one_time_token, consume_locked,
  consume_row,
}
use modura.Identity.AccountRows.{is_open, is_outstanding, may_hold, can_consume, credential_set}

abbrev pub locked_token : String → OneTimePurpose → Db → Option OneTimeToken
locked_token hash purpose db = find (can_consume hash purpose db) db.one_time_tokens

module _ (hash : String) (purpose : OneTimePurpose) (new_hash : String) (now : ℕ) (db : Db) where
  -- The token `k` that was consumed, and the tables afterwards.
  pub record IsConsumption (k : OneTimeToken) (db' : Db) : Type 0 where
    pub read : locked_token hash purpose db ≡ some k
    pub in_time : ltb now k.expires_at ≡ true
    pub users :
        db'.users
        ≡ update_where
            (is_user k.tenant_id k.user_id)
            (credential_set purpose new_hash now)
            db.users
    pub spent : any (λ r. r.token_hash == hash && is_open r) db'.one_time_tokens ≡ false
    pub no_session : any (is_live_of k.tenant_id k.user_id) db'.auth_sessions ≡ false

  abbrev pub Consumed : Result (Unit {0}) → Db → Type 0
  Consumed r db' = (k : OneTimeToken) × IsConsumption k db'

module _ (down : Faults) (hash : String) (purpose : OneTimePurpose) (new_hash : String) (now : ℕ)
    (db : Db) where
  consume_row-ensures :
      (k : OneTimeToken)
      → locked_token hash purpose db ≡ some k
      → ltb now k.expires_at ≡ true
      → Ensures
          (consume_row down purpose hash new_hash now k)
          db
          (Consumed hash purpose new_hash now db)
  unfolding consume_row
  consume_row-ensures k h e = then_exec _ _ _ _ _ _ (
      then_exec _ _ _ _ _ _ (
        then_exec _ _ _ _ _ _ (
          then_control _ _ _ (
            ensures_pure _ (
              k,
              record {
                read = h;
                in_time = e;
                users = refl;
                spent =
                    any-update_where-false _ _ _ db.one_time_tokens (λ r q. ground arith)
                      (λ r q. ground arith);
                no_session =
                    any-update_where-false _ _ _ db.auth_sessions (λ s q. ground arith) (λ s q. q);
              },
            )))))

  consume_locked-ensures :
      (o : Option OneTimeToken)
      → locked_token hash purpose db ≡ o
      → Ensures
          (consume_locked down purpose hash new_hash now o)
          db
          (Consumed hash purpose new_hash now db)
  unfolding consume_locked
  consume_locked-ensures none h = ensures_fail _
  consume_locked-ensures (some k) h =
      ensures_if (ltb now k.expires_at) (λ e. consume_row-ensures k h e) (λ e. ensures_fail _)

  -- A successful consumption read an open, unexpired token of the purpose, sets the credential of
  -- its user, and leaves neither that token open nor a session of the user that is not revoked.
  consume_one_time_token_sound :
      {db' : Db}
      → consume_one_time_token down hash purpose new_hash now db ≡ (ok tt, db')
      → (k : OneTimeToken) × IsConsumption hash purpose new_hash now db k db'
  unfolding consume_one_time_token
  consume_one_time_token_sound done =
      run-ensures {P = Consumed hash purpose new_hash now db}
        (then_control _ _ _ (then_query _ _ _ _ (consume_locked-ensures _ refl))) done

  -- After it no access token of the user is accepted.
  pub consume_one_time_token-rejects :
      (down' : Faults) (x : Session) (t : ℕ) (k : OneTimeToken) {db' db'' : Db}
      → consume_one_time_token down hash purpose new_hash now db ≡ (ok tt, db')
      → locked_token hash purpose db ≡ some k
      → x.tenant_id ≡ k.tenant_id
      → x.user_id ≡ k.user_id
      → validate_session down' x t db' ≢ (ok tt, db'')
  consume_one_time_token-rejects down' x t k {db'} done locked same_tenant same_user valid =
      let (k', c) = consume_one_time_token_sound done in
      let same : k' ≡ k = cc (c.read) in
      let dead =
        subst (λ z. any (is_live_of z.tenant_id z.user_id) db'.auth_sessions ≡ false) same
          c.no_session in
      false≢true (
        sym (validates-no_live x t db' (rw (same_tenant, same_user) dead))
        ∙ validate_session_sound down' x t db' valid)

-- A one-time token is good for one use, for either purpose.
pub consume_one_time_token_once :
    (down down' : Faults) (hash : String) (purpose purpose' : OneTimePurpose)
    (new_hash new_hash' : String) (now now' : ℕ) (db : Db) {db' db'' : Db}
    → consume_one_time_token down hash purpose new_hash now db ≡ (ok tt, db')
    → consume_one_time_token down' hash purpose' new_hash' now' db' ≢ (ok tt, db'')
consume_one_time_token_once down down' hash purpose purpose' new_hash new_hash' now now' db {db'}
      done again =
    let (k, c) = consume_one_time_token_sound down hash purpose new_hash now db done in
    let (k', c') = consume_one_time_token_sound down' hash purpose' new_hash' now' db' again in
    let fits = find_sound (can_consume hash purpose' db') db'.one_time_tokens c'.read in
    let shut =
      find-any-false _ (λ r. r.token_hash == hash && is_open r) db'.one_time_tokens c'.read
        c.spent in
    false≢true (ground arith)

-- The token row that `CreateOneTimeToken` inserts.
abbrev pub new_token : String → String → OneTimePurpose → String → String → ℕ → ℕ → OneTimeToken
new_token tenant user purpose id hash now expires = record {
  id = id;
  tenant_id = tenant;
  user_id = user;
  purpose = purpose;
  token_hash = hash;
  created_at = now;
  expires_at = expires;
  consumed_at = none;
}

same_purpose_self : (p : OneTimePurpose) → same_purpose p p ≡ true
same_purpose_self OneTimePurpose.invitation = refl
same_purpose_self OneTimePurpose.password_reset = refl

module _ (down : Faults) (tenant user : String) (purpose : OneTimePurpose) (id hash : String)
    (now expires : ℕ) (db : Db) where
  -- One open token of the user and purpose is left: the new one.
  abbrev pub Created : Db → Type 0
  Created db' =
      (joined db tenant user (may_hold purpose) ≡ true)
      × (find (is_outstanding tenant user purpose) db'.one_time_tokens
          ≡ some (new_token tenant user purpose id hash now expires))
      × (count_where (is_outstanding tenant user purpose) db'.one_time_tokens ≡ 1)

  inserted_sole :
      (d : Db)
      → d.users ≡ db.users
      → d.tenants ≡ db.tenants
      → any (is_outstanding tenant user purpose) d.one_time_tokens ≡ false
      → Ensures
          (commit_token down (insert_token down tenant user purpose id hash now expires d).0)
          (insert_token down tenant user purpose id hash now expires d).1
          (λ r d'. Created d')
  unfolding insert_token commit_token
  inserted_sole d u t none_open = elim (Bool-cases (joined d tenant user (may_hold purpose))) [
    | inl e ↦ rw e (
        then_control _ _ _ (
          ensures_pure _ (
            sym (joined-of_same db d tenant user (may_hold purpose) u t) ∙ e,
            find-cons_self _ d.one_time_tokens is_open_now,
            count_where-cons_self _ d.one_time_tokens is_open_now
                (count_where-of-any-false _ d.one_time_tokens none_open),
          )))
    | inr e ↦ rw e (ensures_fail _)
  ]
    where
      is_open_now :
          is_outstanding tenant user purpose (new_token tenant user purpose id hash now expires)
          ≡ true
      is_open_now = rw (eq_refl tenant, eq_refl user, same_purpose_self purpose)

  -- A successful creation invalidates whatever tokens of the user and purpose were open: the new
  -- token is the only open one. The user may hold a token of the purpose.
  create_one_time_token_sole :
      {db' : Db}
      → create_one_time_token down tenant user purpose id hash now expires db ≡ (ok tt, db')
      → Created db'
  unfolding create_one_time_token
  create_one_time_token_sole done =
      run-ensures {P = λ r d. Created d}
        (then_control _ _ _ (
          then_exec _ _ _ _ _ _ (
            then_exec _ _ _ _ _ _ (
              inserted_sole _ refl refl (
                any-update_where-false _ _ _ db.one_time_tokens (λ k h. ground arith)
                  (λ k h. h))))))
        done
