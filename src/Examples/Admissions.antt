-- ===== src/Examples/Admissions.antt =====
-- A login whose access token is presented in a request.
use modura.Errors.{Result, ok, err}
use modura.Database.{Db}
use modura.Identity.Types.{Tokens}
use modura.Identity.Sessions
use modura.Identity.Accounts
use modura.Identity.Token.{sign, verify}
use modura.Identity.Service.{Environment, login}
use modura.Examples.{up, sample}
use modura.Examples.Encoding.{encodings}
use modura.Examples.Login
use modura.Examples.Tokens.{signer, verifier, same_rune}

abbrev env : Environment
env = record Login.env {
  now = λ k. 5000000000;
  sign = sign encodings signer;
  verify_token = verify encodings verifier;
}

abbrev tokens_or_none : Result Tokens → Tokens
tokens_or_none (ok t) = t
tokens_or_none (err e) = record {
  access_token = "";
  refresh_token = "";
  expires_in = 0;
  refresh_expires_in = 0;
}

abbrev given : Tokens
given = tokens_or_none (login same_rune env up " acme" "ann " "pw1" 50 sample).0

abbrev logged_in : Db
logged_in = (login same_rune env up " acme" "ann " "pw1" 50 sample).1
