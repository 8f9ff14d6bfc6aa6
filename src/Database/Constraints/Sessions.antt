-- ===== src/Database/Constraints/Sessions.antt =====
-- What the constraints say of a session that was inserted last.
use modura.Prelude.{true, ◌≡◌, List, ◌∷◌, ◌<◌, arith}
use modura.Database.{AuthSession, Db}
use modura.Database.Constraints.{constraints, sessions_hold}

sessions-of-constraints : (db : Db) → constraints db ≡ true → sessions_hold db ≡ true
unfolding constraints
sessions-of-constraints db h = ground arith

version-of-sessions :
    (db : Db) (s : AuthSession) (rest : List AuthSession)
    → sessions_hold (record db { auth_sessions = s ∷ rest }) ≡ true
    → 0 < s.security_version
unfolding sessions_hold
version-of-sessions db s rest h = ground arith

-- Its security version is positive.
pub session_version-pos :
    (db : Db) (s : AuthSession) (rest : List AuthSession)
    → constraints (record db { auth_sessions = s ∷ rest }) ≡ true
    → 0 < s.security_version
session_version-pos db s rest h = version-of-sessions db s rest (sessions-of-constraints _ h)
