-- ===== src/Transport/System.antt =====
-- backend/internal/api/handler/system.go. `ready` is the check that the handler was given, with the
-- timeout of a second as one of its errors.
use modura.Prelude.{String, Option, none, some}
use modura.Errors.{Result, ok, err}
use modura.Database.Tx.{Op}
use modura.Transport.{Handler, answer, attempt, problem_response, json}

-- HealthStatus
abbrev healthy : Handler String
healthy = answer (json 200 "ok")

-- GetLiveness
unfoldable pub get_liveness : Handler String
get_liveness = healthy

abbrev reported : Result (Unit {0}) → Handler String
reported (ok u) = healthy
reported (err e) = answer (problem_response 503 "service unavailable")

-- GetReadiness
unfoldable pub get_readiness : Option (Op (Unit {0})) → Handler String
get_readiness none = healthy
get_readiness (some ready) = attempt ready reported
