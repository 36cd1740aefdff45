-- ===== src/App/Keytab.antt =====
-- `keytab`, the handler of `POST /v1/keytab`.
pub mod Audited
pub mod Granted
pub mod Blocked
pub mod Replies
pub mod Attempted
use krb5_token_service.Prelude.{ℕ, Option, none, some, Text, codes}
use krb5_token_service.Python.Utf8.{Bytes, encode}
use krb5_token_service.Python.Base64.{b64encode}
use krb5_token_service.Errors.{Failure, minting, bad_password, value_error}
use krb5_token_service.World.{Outside}
use krb5_token_service.Exec.{Exec, pure, raise, catch, ◌>>=◌, ◌>>◌}
use krb5_token_service.Settings.{Settings}
use krb5_token_service.System.{new_buffer}
use krb5_token_service.Minting.Tickets.{principal_of}
use krb5_token_service.Minting.Keytabs.{mint_keytab}
use krb5_token_service.App.Requests.{Request, KeytabRequest, KeytabResponse}
use krb5_token_service.App.Common.{
  Caller, line_of, denied, error, issued, plain_error, audit, refuse, authenticate, check_name,
  check_limit, limiter_failure, limiter_reset,
}

-- The buffer of the password.
take_password : Option Bytes → Exec ℕ
take_password none = raise (value_error (codes "surrogates not allowed"))
take_password (some bs) = new_buffer bs

module _ (env : Outside) where
  -- The `except` clauses around `mint_keytab`.
  keytab_failed : Caller → Text → Failure → Exec Bytes
  keytab_failed caller username (bad_password _) = do
    limiter_failure env username
    refuse (line_of caller (some username) none denied) (plain_error 400 (codes "bad password"))
  keytab_failed caller username (minting _) =
      refuse (line_of caller (some username) none error)
        (plain_error 502 (codes "Keytab generation failed."))
  keytab_failed caller username f = raise f

  module _ (settings : Settings) (body : KeytabRequest) where
    -- The call of `mint_keytab`, and what follows it.
    keytab_with : Caller → ℕ → Exec KeytabResponse
    keytab_with caller password = do
      keytab_bytes ←
          catch (mint_keytab env settings body.username password)
            (keytab_failed caller body.username)
      limiter_reset body.username
      audit
          (line_of caller (some body.username) (some (principal_of body.username settings)) issued)
      pure (record {
        keytab_b64 = b64encode keytab_bytes;
        principal = principal_of body.username settings;
      })

    -- The handler behind the token.
    keytab_for : Caller → Exec KeytabResponse
    keytab_for caller = do
      check_name env caller body.username
      check_limit env caller body.username
      password ← take_password (encode body.password)
      keytab_with caller password

    unfoldable pub keytab : Request → Exec KeytabResponse
    unfolding keytab_for keytab_with keytab_failed take_password
    keytab request = do
      caller ← authenticate env settings request (some body.username)
      keytab_for caller
