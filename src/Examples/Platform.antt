-- ===== src/Examples/Platform.antt =====
-- Runs of the platform administrators' store.
use modura.Prelude.{[], ◌∷◌, ◌≡◌, refl, count_where, unique, find, update_where, some, true, ltb}
use modura.Errors.{Error, PlatformAdminError, platformadmin, Result, ok, err}
use modura.Database.{Db, PlatformAuthSession, empty_db}
use modura.Database.Constraints.{constraints}
use modura.Database.Tx.{run, control, query, exec_or, ◌>>=◌, pure, fail}
use modura.PlatformAdmin.{
  NewPlatformSession, bootstrap, administrator_row, create_session, rotate_session, joined,
  session_of, can_rotate, invalid_token,
}
use modura.PlatformAdmin.Rotation.{IsReplay, rotate_session_replayed}
use modura.PlatformAdmin.Bootstrapping.{IsRefusal, bootstrap_once}
use modura.Examples.{up}

abbrev bootstrapped : Db
bootstrapped = (bootstrap up "a1" "Root" "root" "hash" 5 empty_db).1

bootstrapping : bootstrap up "a1" "Root" "root" "hash" 5 empty_db ≡ (ok tt, bootstrapped)
unfolding bootstrap run control query exec_or ◌>>=◌ pure fail count_where constraints unique
bootstrapping = refl

abbrev complete : Error
complete = platformadmin PlatformAdminError.bootstrap_complete

bootstrapping_again :
    bootstrap up "a2" "Eve" "eve" "other" 6 bootstrapped ≡ (err complete, bootstrapped)
unfolding bootstrap run control query exec_or ◌>>=◌ pure fail count_where constraints unique
bootstrapping_again = refl

bootstrap_once_example :
    (empty_db.platform_administrators ≡ [])
    × (bootstrapped.platform_administrators ≡ administrator_row "a1" "Root" "root" "hash" 5 ∷ [])
    × ((e : Error) × (Path (Result (Unit {0})) (err complete) (err e))
        × (bootstrapped ≡ bootstrapped)
        × IsRefusal e)
bootstrap_once_example =
    bootstrap_once up up "a1" "Root" "root" "hash" "a2" "Eve" "eve" "other" 5 6 empty_db
      bootstrapping bootstrapping_again

abbrev first_session : NewPlatformSession
first_session = record {
  session = record { id = "p1"; administrator_id = "a1"; security_version = 1 };
  family_id = "f1";
  refresh_hash = "h1";
  created_at = 10;
  expires_at = 100;
}

abbrev logged_in : Db
logged_in = (create_session up first_session bootstrapped).1

abbrev rotated : Db
rotated = (rotate_session up "h1" "h2" 20 120 logged_in).1

rotating : rotate_session up "h1" "h2" 20 120 logged_in ≡ (ok first_session.session, rotated)
unfolding bootstrap create_session rotate_session joined run control query exec_or ◌>>=◌ pure fail
    find update_where count_where constraints unique
rotating = refl

abbrev replayed : Db
replayed = (rotate_session up "h1" "h3" 30 130 rotated).1

replaying : rotate_session up "h1" "h3" 30 130 rotated ≡ (err invalid_token, replayed)
unfolding bootstrap create_session rotate_session joined run control query exec_or ◌>>=◌ pure fail
    find update_where count_where constraints unique
replaying = refl

rotate_session_replayed_example :
    (s : PlatformAuthSession) × (session_of s ≡ first_session.session)
    × (find (can_rotate "h1" logged_in) logged_in.platform_auth_sessions ≡ some s)
    × (ltb 20 s.expires_at ≡ true)
    × IsReplay s.family_id rotated (err invalid_token) replayed
rotate_session_replayed_example =
    rotate_session_replayed up up "h1" "h2" "h3" 20 120 30 130 logged_in rotating replaying
