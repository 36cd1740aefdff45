-- ===== src/App/Mint.antt =====
-- `mint`, the handler of `POST /v1/mint`.
pub mod Audited
pub mod Granted
pub mod Lifetimes
pub mod Blocked
pub mod Replies
pub mod Unlimited
pub mod Attempted
use krb5_token_service.Prelude.{ℕ, Option, none, some, if◌then◌else◌, Text, codes, is_empty}
use krb5_token_service.Python.Utf8.{Bytes, encode}
use krb5_token_service.Python.Base64.{b64decode}
use krb5_token_service.Errors.{
  Failure, invalid_lifetime, minting, bad_password, bad_keytab, unknown_principal, account_unusable,
  value_error,
}
use krb5_token_service.World.{Outside}
use krb5_token_service.Exec.{Exec, pure, raise, lift, catch, ◌>>=◌, ◌>>◌}
use krb5_token_service.Settings.{Settings}
use krb5_token_service.System.{new_buffer}
use krb5_token_service.Minting.Names.{validate_lifetime}
use krb5_token_service.Minting.Tickets.{MintedTicket, mint_ticket}
use krb5_token_service.App.Requests.{Request, MintRequest, MintResponse, mint_response}
use krb5_token_service.App.Common.{
  Caller, line_of, denied, error, issued, plain_error, audit, refuse, authenticate, check_name,
  check_limit, limiter_failure, limiter_reset,
}

-- `value or default`: an absent or an empty text gives the default.
abbrev pub or_default : Option Text → Text → Text
or_default none default = default
or_default (some t) default = if is_empty t then default else t

reject_lifetime : Caller → Text → Failure → Exec (Unit {0})
reject_lifetime caller username (invalid_lifetime _) =
    refuse (line_of caller (some username) none denied) (plain_error 422 (codes "invalid lifetime"))
reject_lifetime caller username f = raise f

pub check_lifetimes : Caller → Text → Text → Text → Exec (Unit {0})
check_lifetimes caller username lifetime renewable_lifetime =
    catch (do lift (validate_lifetime lifetime); lift (validate_lifetime renewable_lifetime))
      (reject_lifetime caller username)

-- The buffers of the password and of the keytab.
abbrev pub Secrets : Type 0
Secrets = Option ℕ × Option ℕ

password_secret : Option Bytes → Exec Secrets
password_secret none = raise (value_error (codes "surrogates not allowed"))
password_secret (some bs) = do buffer ← new_buffer bs; pure (some buffer, none)

keytab_secret : Caller → Text → Option Bytes → Exec Secrets
keytab_secret caller username none =
    refuse (line_of caller (some username) none denied)
      (plain_error 422 (codes "invalid keytab_b64"))
keytab_secret caller username (some bs) = do buffer ← new_buffer bs; pure (none, some buffer)

take_keytab : Caller → Text → Option Text → Exec Secrets
take_keytab caller username none = raise (value_error (codes "assert body.keytab_b64 is not None"))
take_keytab caller username (some keytab_b64) = keytab_secret caller username (b64decode keytab_b64)

take_secret : Caller → Text → Option Text → Option Text → Exec Secrets
take_secret caller username (some password) keytab_b64 = password_secret (encode password)
take_secret caller username none keytab_b64 = take_keytab caller username keytab_b64

-- `if body.password is not None:`
abbrev pub with_password : Option Text → Exec (Unit {0}) → Exec (Unit {0})
with_password none m = pure tt
with_password (some password) m = m

module _ (env : Outside) where
  -- The `except` clauses around `mint_ticket`.
  mint_failed : Caller → Text → Failure → Exec MintedTicket
  mint_failed caller username (bad_password _) = do
    limiter_failure env username
    refuse (line_of caller (some username) none denied) (plain_error 400 (codes "bad password"))
  mint_failed caller username (bad_keytab _) =
      refuse (line_of caller (some username) none denied) (plain_error 400 (codes "bad keytab"))
  mint_failed caller username (unknown_principal _) =
      refuse (line_of caller (some username) none denied)
        (plain_error 400 (codes "unknown principal"))
  mint_failed caller username (account_unusable detail) =
      refuse (line_of caller (some username) none denied) (plain_error 403 detail)
  mint_failed caller username (minting _) =
      refuse (line_of caller (some username) none error)
        (plain_error 502 (codes "Ticket minting failed."))
  mint_failed caller username f = raise f

  module _ (settings : Settings) (body : MintRequest) where
    abbrev lifetime_of : Text
    lifetime_of = or_default body.lifetime settings.default_lifetime

    abbrev renewable_lifetime_of : Text
    renewable_lifetime_of = or_default body.renewable_lifetime settings.default_renewable_lifetime

    -- The call of `mint_ticket`, and what follows it.
    mint_with : Caller → Secrets → Exec MintResponse
    mint_with caller (password, keytab) = do
      minted ←
          catch
            (mint_ticket env settings body.username lifetime_of renewable_lifetime_of password
              keytab)
            (mint_failed caller body.username)
      with_password body.password (limiter_reset body.username)
      audit (line_of caller (some body.username) (some minted.principal) issued)
      pure (mint_response minted)

    -- The handler behind the token.
    mint_for : Caller → Exec MintResponse
    mint_for caller = do
      check_name env caller body.username
      check_lifetimes caller body.username lifetime_of renewable_lifetime_of
      with_password body.password (check_limit env caller body.username)
      secrets ← take_secret caller body.username body.password body.keytab_b64
      mint_with caller secrets

    unfoldable pub mint : Request → Exec MintResponse
    unfolding mint_for mint_with mint_failed take_secret take_keytab keytab_secret password_secret
        check_lifetimes reject_lifetime
    mint request = do
      caller ← authenticate env settings request (some body.username)
      mint_for caller
