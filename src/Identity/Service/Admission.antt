-- ===== src/Identity/Service/Admission.antt =====
-- From a login to the requests that its access token is good for: the service, the store and the
-- tokens together.
use modura.Prelude.{String}
use modura.Identity.Accounts
use modura.Identity.Sessions
