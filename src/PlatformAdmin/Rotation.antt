-- ===== src/PlatformAdmin/Rotation.antt =====
-- Rotation of the platform's refresh tokens, and the detection of reuse: what `RotateSession` of
-- backend/internal/modules/platformadmin/postgres/store.go has checked and what it leaves.
use modura.Prelude.{
  ℕ, String, Bool, true, false, ◌&&◌, Option, none, some, ◌∷◌, ◌≡◌, ◌⊎◌, refl, subst, sym, ◌==◌,
  eq_refl, any, find, find-cons_self, any-update_where-false, arith, ltb,
}
use modura.Errors.{Error, Result, ok, err}
use modura.Database.{PlatformAuthSession, PlatformRefreshTokenUse, Db}
use modura.Database.Tx.{Faults}
use modura.Database.Tx.Rules.{
  Ensures, ensures_pure, ensures_fail, ensures_if, then_control, then_query, then_exec,
  fails_then_control, fails_then_query,
}
use modura.Database.Tx.Runs.{run-ensures, run-splits}
use modura.Database.Tx.Failures.{Fails, fails_bind, fails_exec, fails_control, fails_pure}
use modura.Identity.Sessions.Reuse.{IsDriver}
use modura.PlatformAdmin.{
  PlatformSession, invalid_token, session_of, is_live, revoked, can_rotate, revoke_replayed,
  rotate_row, rotate_current, rotate_unless_used, rotate_session,
}

abbrev used_row : String → Db → Option PlatformRefreshTokenUse
used_row presented db = find (λ u. u.token_hash == presented) db.platform_refresh_token_uses

abbrev pub live_in_family : String → Db → Bool
live_in_family family db = any (λ s. s.family_id == family && is_live s) db.platform_auth_sessions

abbrev use_of : String → ℕ → PlatformAuthSession → PlatformRefreshTokenUse
use_of presented now s = record {
  token_hash = presented;
  session_id = s.id;
  family_id = s.family_id;
  consumed_at = now;
}

-- The answer to a consumed token: an error, with which no session of the family stays live; or the
-- driver's, and nothing changed.
abbrev pub IsReplay : String → Db → Result PlatformSession → Db → Type 0
IsReplay family db r db' =
    ((r ≡ err invalid_token) × (live_in_family family db' ≡ false))
    ⊎ ((e : Error) × (r ≡ err e) × (db' ≡ db) × IsDriver e)

module _ (down : Faults) (presented next : String) (now expires : ℕ) (db : Db) where
  -- The row that was rotated, which the first query read, and the consumed token.
  pub record IsRotated (r : Result PlatformSession) (db' : Db) : Type 0 where
    pub row : PlatformAuthSession
    pub returned : r ≡ ok (session_of row)
    pub read : find (can_rotate presented db) db.platform_auth_sessions ≡ some row
    pub in_time : ltb now row.expires_at ≡ true
    pub uses :
        db'.platform_refresh_token_uses ≡ use_of presented now row ∷ db.platform_refresh_token_uses

  abbrev Rotated : Result PlatformSession → Db → Type 0
  Rotated (err e) db' = Unit
  Rotated (ok x) db' = IsRotated (ok x) db'

  rotate_current-Rotated :
      (o : Option PlatformAuthSession)
      → find (can_rotate presented db) db.platform_auth_sessions ≡ o
      → Ensures (rotate_current down presented next now expires o) db Rotated
  unfolding rotate_current rotate_row
  rotate_current-Rotated none h = ensures_fail _
  rotate_current-Rotated (some s) h =
      ensures_if (ltb now s.expires_at)
        (λ k. then_exec _ _ _ _ _ _ (
          then_exec _ _ _ _ _ _ (
            then_control _ _ _ (
              ensures_pure _
                (record { row = s; returned = refl; read = h; in_time = k; uses = refl })))))
        (λ k. ensures_fail _)

  rotate_unless_used-Rotated :
      (o : Option PlatformRefreshTokenUse)
      → Ensures (rotate_unless_used down presented next now expires o) db Rotated
  unfolding rotate_unless_used revoke_replayed
  rotate_unless_used-Rotated none = then_query _ _ _ _ (rotate_current-Rotated _ refl)
  rotate_unless_used-Rotated (some u) =
      then_exec _ _ _ _ _ _ (then_control _ _ _ (ensures_pure _ tt))

  rotate_session-IsRotated :
      {x : PlatformSession} {db' : Db}
      → rotate_session down presented next now expires db ≡ (ok x, db')
      → IsRotated (ok x) db'
  unfolding rotate_session
  rotate_session-IsRotated done =
      run-ensures (then_control _ _ _ (then_query _ _ _ _ (rotate_unless_used-Rotated _))) done

  abbrev Replayed : PlatformRefreshTokenUse → Result PlatformSession → Db → Type 0
  Replayed used r db' = (r ≡ err invalid_token) × (live_in_family used.family_id db' ≡ false)

  revoke_replayed-Replayed :
      (used : PlatformRefreshTokenUse) → Ensures (revoke_replayed down now used) db (Replayed used)
  unfolding revoke_replayed
  revoke_replayed-Replayed used = then_exec _ _ _ _ _ _ (
      then_control _ _ _ (
        ensures_pure _ (
          refl,
          any-update_where-false (λ s. s.family_id == used.family_id && is_live s)
              (λ s. s.family_id == used.family_id && is_live s) (revoked now "refresh_reuse")
              db.platform_auth_sessions (λ s h. ground arith) (λ s h. h),
        )))

  revoke_replayed-fails :
      (used : PlatformRefreshTokenUse) → Fails (revoke_replayed down now used) db IsDriver
  unfolding revoke_replayed
  revoke_replayed-fails used = search (fails_bind, fails_exec, fails_control, fails_pure)

  consumed-IsReplay :
      (used : PlatformRefreshTokenUse) {r : Result PlatformSession} {db' : Db}
      → used_row presented db ≡ some used
      → rotate_session down presented next now expires db ≡ (r, db')
      → IsReplay used.family_id db r db'
  unfolding rotate_session rotate_unless_used
  consumed-IsReplay used h done =
      run-splits
        (then_control _ _ _ (
          then_query _ _ _ _ (
            subst
              (λ o.
                Ensures (rotate_unless_used down presented next now expires o) db (Replayed used))
              (sym h) (revoke_replayed-Replayed used))))
        (fails_then_control _ _ _ refl (
          fails_then_query _ _ _ _ refl (
            subst (λ o. Fails (rotate_unless_used down presented next now expires o) db IsDriver)
              (sym h) (revoke_replayed-fails used))))
        done

-- A rotation that returns a session read a live row that had not expired under the presented hash. In
-- the database that it leaves a call with the same hash returns no session, whatever its other
-- arguments: it revokes every session of the row's family, or the driver fails and nothing changes.
pub rotate_session_replayed :
    (down down' : Faults) (presented next next' : String) (now expires now' expires' : ℕ) (db : Db)
    {x : PlatformSession} {db' db'' : Db} {r : Result PlatformSession}
    → rotate_session down presented next now expires db ≡ (ok x, db')
    → rotate_session down' presented next' now' expires' db' ≡ (r, db'')
    → (s : PlatformAuthSession) × (session_of s ≡ x)
      × (find (can_rotate presented db) db.platform_auth_sessions ≡ some s)
      × (ltb now s.expires_at ≡ true)
      × IsReplay s.family_id db' r db''
rotate_session_replayed down down' presented next next' now expires now' expires' db {db'} done
      again =
    let k = rotate_session-IsRotated down presented next now expires db done in
    (
      k.row,
      cc (k.returned),
      k.read,
      k.in_time,
      consumed-IsReplay down' presented next' now' expires' db' (use_of presented now k.row)
          (used k) again,
    )
  where
    used :
        {q : Result PlatformSession}
        → (k : IsRotated down presented next now expires db q db')
        → used_row presented db' ≡ some (use_of presented now k.row)
    used k = rw k.uses (find-cons_self _ _ (eq_refl presented))
