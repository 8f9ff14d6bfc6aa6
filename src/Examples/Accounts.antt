-- ===== src/Examples/Accounts.antt =====
-- Runs of the account operations.
use modura.Prelude.{some, ◌≡◌, ◌≢◌, refl, find, update_where, count_where, unique}
use modura.Errors.{ok}
use modura.Database.{Db, OneTimePurpose, User, UserStatus}
use modura.Database.Constraints.{constraints}
use modura.Database.Tx.{run, control, query, exec_or, ◌>>=◌, pure, fail}
use modura.Identity.Types.{Actor, Session}
use modura.Identity.Rows.{joined}
use modura.Identity.Sessions.{validate_session}
use modura.Identity.Accounts.{
  disable_account, consume_one_time_token, create_one_time_token, change_password,
}
use modura.Identity.AccountRows.{matches_login}
use modura.Identity.Accounts.OneTime.{consume_one_time_token_once}
use modura.Identity.Accounts.Password.{change_password-only_survivor}
use modura.Examples.{up, sample, user}

abbrev session_1 : Session
session_1 = record { id = "s1"; tenant_id = "t1"; user_id = "u1"; security_version = 1 }

abbrev disabled : Db
disabled = (disable_account up "t1" "u1" "left" 50 sample).1

disabling : disable_account up "t1" "u1" "left" 50 sample ≡ (ok tt, disabled)
unfolding disable_account run control query exec_or ◌>>=◌ pure fail find update_where count_where
    constraints unique
disabling = refl

abbrev other_ann : User
other_ann = user "t2" "u4" "ann" (some "pw4") UserStatus.active

-- Ann of the other tenant still logs in.
other_ann_found : find (matches_login "other" "ann" disabled) disabled.users ≡ some other_ann
unfolding disable_account run control query exec_or ◌>>=◌ pure fail find update_where count_where
    constraints unique
other_ann_found = refl

abbrev consumed : Db
consumed = (consume_one_time_token up "invite" OneTimePurpose.invitation "pw3" 50 sample).1

consumption :
    consume_one_time_token up "invite" OneTimePurpose.invitation "pw3" 50 sample ≡ (ok tt, consumed)
unfolding consume_one_time_token run control query exec_or ◌>>=◌ pure fail find joined update_where
    count_where constraints unique
consumption = refl

consume_one_time_token_once_example :
    consume_one_time_token up "invite" OneTimePurpose.password_reset "pw5" 60 consumed
    ≢ (ok tt, consumed)
consume_one_time_token_once_example =
    consume_one_time_token_once up up "invite" OneTimePurpose.invitation
      OneTimePurpose.password_reset "pw3" "pw5" 50 60 sample consumption

abbrev invited : Db
invited =
    (create_one_time_token up "t1" "u3" OneTimePurpose.invitation "k2" "again" 50 150 sample).1

invitation_sent :
    create_one_time_token up "t1" "u3" OneTimePurpose.invitation "k2" "again" 50 150 sample
    ≡ (ok tt, invited)
unfolding create_one_time_token run control query exec_or ◌>>=◌ pure fail find joined update_where
    count_where constraints unique
invitation_sent = refl

abbrev ann : Actor
ann = record { tenant_id = "t1"; user_id = "u1"; session_id = "s1" }

abbrev session_new : Session
session_new = record { id = "s1"; tenant_id = "t1"; user_id = "u1"; security_version = 2 }

abbrev changed : Db
changed = (change_password up ann "pw1" "pw9" "r1" "r9" 50 150 sample).1

change : change_password up ann "pw1" "pw9" "r1" "r9" 50 150 sample ≡ (ok session_new, changed)
unfolding change_password run control query exec_or ◌>>=◌ pure fail find joined update_where
    count_where constraints unique
change = refl

session_accepted : validate_session up session_new 60 changed ≡ (ok tt, changed)
unfolding change_password validate_session run control query exec_or ◌>>=◌ pure fail find joined
    update_where count_where constraints unique
session_accepted = refl

change_password-only_survivor_example :
    (session_new.id ≡ session_new.id)
    × (session_new.security_version ≡ session_new.security_version)
change_password-only_survivor_example =
    change_password-only_survivor up ann "pw1" "pw9" "r1" "r9" 50 150 sample session_new session_new
      up 60 change refl refl session_accepted
