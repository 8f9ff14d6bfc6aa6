-- ===== src/Identity/Sessions/Reuse.antt =====
-- Refresh-token rotation and the detection of reuse: what `RotateSession` leaves behind.
use modura.Prelude.{
  ℕ, String, Bool, false, ◌&&◌, Option, none, some, ◌⊎◌, ◌≡◌, refl, ◌==◌, List, subst, any, find,
  update_where, any-update_where-false, arith,
}
use modura.Errors.{IdentityError, identity, Error, cause, driver, Result, err}
use modura.Database.{RefreshTokenUse, AuthSession, Db}
use modura.Database.Tx.{Faults}
use modura.Database.Tx.Rules.{
  Ensures, ensures_pure, then_control, then_query, then_exec, fails_then_control, fails_then_query,
}
use modura.Database.Tx.Runs.{run-splits}
use modura.Database.Tx.Failures.{Fails, fails_bind, fails_exec, fails_control, fails_pure}
use modura.Identity.Types.{Session}
use modura.Identity.Rows.{is_live, revoked}
use modura.Identity.Sessions.{rotate_session, rotate_unless_used, revoke_replayed}

abbrev pub used_row : String → Db → Option RefreshTokenUse
used_row presented db = find (λ u. u.token_hash == presented) db.refresh_token_uses

abbrev pub live_in_family : String → Db → Bool
live_in_family family db = any (λ s. s.family_id == family && is_live s) db.auth_sessions

revoked_family_dead :
    (family : String) (now : ℕ) (reason : String) (rows : List AuthSession)
    → any
        (λ s. s.family_id == family && is_live s)
        (update_where (λ s. s.family_id == family && is_live s) (revoked now reason) rows)
      ≡ false
revoked_family_dead family now reason rows =
    any-update_where-false _ _ _ _ (λ s h. ground arith) (λ s h. h)

abbrev pub IsDriver : Error → Type 0
IsDriver e = cause e ≡ driver

-- What a call that meets a consumed token ensures.
abbrev pub Replayed : RefreshTokenUse → Result Session → Db → Type 0
Replayed used r db =
    (r ≡ err (identity IdentityError.refresh_reuse)) × (live_in_family used.family_id db ≡ false)

module _ (down : Faults) (presented next : String) (now expires : ℕ) (db : Db) where
  revoke_replayed-ensures :
      (used : RefreshTokenUse) → Ensures (revoke_replayed down now used) db (Replayed used)
  unfolding revoke_replayed
  revoke_replayed-ensures used = then_exec _ _ _ _ _ _ (
      then_control _ _ _ (
        ensures_pure _
          (refl, revoked_family_dead used.family_id now "refresh_reuse" db.auth_sessions)))

  rotate_unless_used-Replayed :
      (o : Option RefreshTokenUse) (used : RefreshTokenUse)
      → o ≡ some used
      → Ensures (rotate_unless_used down presented next now expires o) db (Replayed used)
  unfolding rotate_unless_used
  rotate_unless_used-Replayed none used e = cc
  rotate_unless_used-Replayed (some u) used e =
      let same : u ≡ used = cc in
      subst (λ w. Ensures (revoke_replayed down now u) db (Replayed w)) same
        (revoke_replayed-ensures u)

  revoke_replayed-fails :
      (used : RefreshTokenUse) → Fails (revoke_replayed down now used) db IsDriver
  unfolding revoke_replayed
  revoke_replayed-fails used = search (fails_bind, fails_exec, fails_control, fails_pure)

  rotate_unless_used-fails :
      (o : Option RefreshTokenUse) (used : RefreshTokenUse)
      → o ≡ some used
      → Fails (rotate_unless_used down presented next now expires o) db IsDriver
  unfolding rotate_unless_used
  rotate_unless_used-fails none used e = cc
  rotate_unless_used-fails (some u) used e = revoke_replayed-fails u

  -- A call with a token that is recorded as consumed reports the reuse, and then no session of the
  -- token's family is live in the database that it leaves; or the driver reports an error, and the
  -- database is as it was.
  pub replay-revokes_family :
      (used : RefreshTokenUse) (r : Result Session) (db' : Db)
      → used_row presented db ≡ some used
      → rotate_session down presented next now expires db ≡ (r, db')
      → Replayed used r db' ⊎ ((e : Error) × (r ≡ err e) × (db' ≡ db) × IsDriver e)
  unfolding rotate_session
  replay-revokes_family used r db' h done =
      run-splits
        (then_control _ _ _
          (then_query _ _ _ _ (rotate_unless_used-Replayed (used_row presented db) used h)))
        (fails_then_control _ _ _ refl
          (fails_then_query _ _ _ _ refl (rotate_unless_used-fails (used_row presented db) used h)))
        done
