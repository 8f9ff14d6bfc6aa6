-- ===== src/Examples/Sessions.antt =====
-- Runs of the session operations.
use modura.Prelude.{true, some, ◌≡◌, ◌≢◌, refl, ◌⊎◌, find, update_where, unique}
use modura.Errors.{Error, IdentityError, identity, Result, ok, err}
use modura.Database.{Db, RefreshTokenUse}
use modura.Database.Constraints.{constraints}
use modura.Database.Tx.{run, control, query, exec_or, ◌>>=◌, pure, fail}
use modura.Identity.Types.{Session}
use modura.Identity.Rows.{joined}
use modura.Identity.Sessions.{rotate_session}
use modura.Identity.Sessions.Rotation.{rotate_session_once}
use modura.Identity.Sessions.Reuse.{used_row, Replayed, IsDriver, replay-revokes_family}
use modura.Examples.{up, sample}

sample-constraints : constraints sample ≡ true
unfolding constraints unique
sample-constraints = refl

abbrev session_1 : Session
session_1 = record { id = "s1"; tenant_id = "t1"; user_id = "u1"; security_version = 1 }

abbrev rotated : Db
rotated = (rotate_session up "r1" "r9" 50 150 sample).1

rotation : rotate_session up "r1" "r9" 50 150 sample ≡ (ok session_1, rotated)
unfolding rotate_session run control query exec_or ◌>>=◌ pure fail find joined update_where
    constraints unique
rotation = refl

-- The token of another user rotates in the database that the first rotation leaves.
other_rotation :
    (rotate_session up "r3" "r8" 60 150 rotated).0
    ≡ ok (record { id = "s3"; tenant_id = "t1"; user_id = "u2"; security_version = 1 })
unfolding rotate_session run control query exec_or ◌>>=◌ pure fail find joined update_where
    constraints unique
other_rotation = refl

abbrev replayed : Result Session × Db
replayed = rotate_session up "r1" "r7" 60 150 rotated

replay_reported : replayed.0 ≡ err (identity IdentityError.refresh_reuse)
unfolding rotate_session run control query exec_or ◌>>=◌ pure fail find joined update_where
    constraints unique
replay_reported = refl

rotate_session_once_example : rotate_session up "r1" "r7" 60 160 rotated ≢ (ok session_1, rotated)
rotate_session_once_example =
    rotate_session_once up "r1" "r9" 50 150 sample session_1 rotated up "r7" 60 160 session_1
      rotated rotation

abbrev consumed : RefreshTokenUse
consumed = record { token_hash = "r1"; session_id = "s1"; family_id = "f1"; consumed_at = 50 }

consumed_found : used_row "r1" rotated ≡ some consumed
unfolding rotate_session run control query exec_or ◌>>=◌ pure fail find joined update_where
    constraints unique
consumed_found = refl

replay-revokes_family_example :
    Replayed consumed replayed.0 replayed.1
    ⊎ ((e : Error) × (replayed.0 ≡ err e) × (replayed.1 ≡ rotated) × IsDriver e)
replay-revokes_family_example =
    replay-revokes_family up "r1" "r7" 60 150 rotated consumed replayed.0 replayed.1 consumed_found
      refl
