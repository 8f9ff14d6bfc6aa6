-- ===== src/Identity/Sessions/Rotation.antt =====
-- What a successful `RotateSession` has checked and what it leaves.
use modura.Prelude.{
  ℕ, String, true, Option, none, some, ◌∷◌, ◌≡◌, ◌≢◌, refl, ◌==◌, eq_refl, find, update_where,
  find-cons_self, ltb, inl, inr,
}
use modura.Errors.{Result, ok, err}
use modura.Database.{RefreshTokenUse, AuthSession, Db}
use modura.Database.Tx.{Faults}
use modura.Database.Tx.Rules.{
  Ensures, ensures_pure, ensures_fail, ensures_if, then_control, then_query, then_exec,
}
use modura.Database.Tx.Runs.{run-ensures}
use modura.Identity.Types.{Session}
use modura.Identity.Sessions.{
  rotate_session, rotate_unless_used, rotate_current, rotate_row, revoke_replayed, can_rotate,
  session_of,
}
use modura.Identity.Sessions.Reuse.{used_row, replay-revokes_family}

abbrev pub with_token : String → ℕ → ℕ → AuthSession → AuthSession
with_token next now expires r = record r {
  refresh_token_hash = next;
  last_used_at = now;
  expires_at = expires;
}

abbrev pub use_of : String → ℕ → AuthSession → RefreshTokenUse
use_of presented now s = record {
  token_hash = presented;
  session_id = s.id;
  family_id = s.family_id;
  consumed_at = now;
}

module _ (presented next : String) (now expires : ℕ) (db : Db) where
  -- The row `s` that was rotated, and the tables afterwards.
  pub record IsRotation (s : AuthSession) (db' : Db) : Type 0 where
    pub read : find (can_rotate presented db) db.auth_sessions ≡ some s
    pub in_time : ltb now s.expires_at ≡ true
    pub unused : used_row presented db ≡ none
    pub uses : db'.refresh_token_uses ≡ (use_of presented now s) ∷ db.refresh_token_uses
    pub sessions :
        db'.auth_sessions
        ≡ update_where (λ r. r.id == s.id) (with_token next now expires) db.auth_sessions
    pub users : db'.users ≡ db.users
    pub tenants : db'.tenants ≡ db.tenants

  abbrev pub Rotated : Result Session → Db → Type 0
  Rotated (err e) db' = Unit
  Rotated (ok x) db' = (s : AuthSession) × (session_of s ≡ x) × IsRotation s db'

module _ (down : Faults) (presented next : String) (now expires : ℕ) (db : Db) where
  rotate_row-ensures :
      (s : AuthSession)
      → find (can_rotate presented db) db.auth_sessions ≡ some s
      → ltb now s.expires_at ≡ true
      → used_row presented db ≡ none
      → Ensures
          (rotate_row down presented next now expires s)
          db
          (Rotated presented next now expires db)
  unfolding rotate_row
  rotate_row-ensures s h k l = then_exec _ _ _ _ _ _ (
      then_exec _ _ _ _ _ _ (
        then_control _ _ _ (
          ensures_pure _ (
            s,
            refl,
            record {
              read = h;
              in_time = k;
              unused = l;
              uses = refl;
              sessions = refl;
              users = refl;
              tenants = refl;
            },
          ))))

  rotate_current-ensures :
      (o : Option AuthSession)
      → find (can_rotate presented db) db.auth_sessions ≡ o
      → used_row presented db ≡ none
      → Ensures
          (rotate_current down presented next now expires o)
          db
          (Rotated presented next now expires db)
  unfolding rotate_current
  rotate_current-ensures none h l = ensures_fail _
  rotate_current-ensures (some s) h l =
      ensures_if _ (λ k. rotate_row-ensures s h k l) (λ k. ensures_fail _)

  rotate_unless_used-ensures :
      (o : Option RefreshTokenUse)
      → used_row presented db ≡ o
      → Ensures
          (rotate_unless_used down presented next now expires o)
          db
          (Rotated presented next now expires db)
  unfolding rotate_unless_used revoke_replayed
  rotate_unless_used-ensures none l = then_query _ _ _ _ (rotate_current-ensures _ refl l)
  rotate_unless_used-ensures (some u) l =
      then_exec _ _ _ _ _ _ (then_control _ _ _ (ensures_pure _ tt))

  -- A rotation that returns a session read a live, unexpired row of an active user in an active
  -- tenant under the presented hash, which was not consumed before; it consumes that hash, gives
  -- the row the next hash and times, and leaves users, tenants and the other rows as they were.
  rotate_session_sound :
      (x : Session) (db' : Db)
      → rotate_session down presented next now expires db ≡ (ok x, db')
      → (s : AuthSession) × (session_of s ≡ x) × IsRotation presented next now expires db s db'
  unfolding rotate_session
  rotate_session_sound x db' done =
      run-ensures (then_control _ _ _ (then_query _ _ _ _ (rotate_unless_used-ensures _ refl))) done

  -- A refresh token is good for one rotation: in the database that a successful rotation leaves,
  -- no call with the same token returns a session, whatever its other arguments.
  pub rotate_session_once :
      (x : Session) (db' : Db) (down' : Faults) (next' : String) (now' expires' : ℕ) (y : Session)
      (db'' : Db)
      → rotate_session down presented next now expires db ≡ (ok x, db')
      → rotate_session down' presented next' now' expires' db' ≢ (ok y, db'')
  rotate_session_once x db' down' next' now' expires' y db'' done again =
      let (s, _, rotation) = rotate_session_sound x db' done in
      elim (replay-revokes_family down' presented next' now' expires' db' _ _ _ (used rotation)
        again) [ inl (wrong, _) ↦ cc | inr (e, wrong, _, _) ↦ cc ]
    where
      used :
          {s : AuthSession}
          → IsRotation presented next now expires db s db'
          → used_row presented db' ≡ some (use_of presented now s)
      used k = rw k.uses (find-cons_self _ _ (eq_refl presented))
