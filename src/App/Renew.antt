-- ===== src/App/Renew.antt =====
-- `renew`, the handler of `POST /v1/renew`.
pub mod Audited
pub mod Granted
pub mod Replies
pub mod Unlimited
use krb5_token_service.Prelude.{Option, none, some, codes}
use krb5_token_service.Python.Utf8.{Bytes}
use krb5_token_service.Python.Base64.{b64decode}
use krb5_token_service.Errors.{Failure, minting, ccache_parse, ticket_expired}
use krb5_token_service.World.{Outside}
use krb5_token_service.Exec.{Exec, pure, raise, catch, ◌>>=◌, ◌>>◌}
use krb5_token_service.Settings.{Settings}
use krb5_token_service.Minting.Tickets.{MintedTicket}
use krb5_token_service.Minting.Renewals.{renew_ticket}
use krb5_token_service.App.Requests.{Request, RenewRequest, MintResponse, mint_response}
use krb5_token_service.App.Common.{
  Caller, line_of, denied, error, issued, plain_error, audit, refuse, authenticate,
}

take_ccache : Caller → Option Bytes → Exec Bytes
take_ccache caller none =
    refuse (line_of caller none none denied) (plain_error 422 (codes "invalid ccache_b64"))
take_ccache caller (some bs) = pure bs

-- The `except` clauses around `renew_ticket`.
renew_failed : Caller → Failure → Exec MintedTicket
renew_failed caller (ccache_parse _) =
    refuse (line_of caller none none denied) (plain_error 422 (codes "invalid ccache"))
renew_failed caller (ticket_expired detail) =
    refuse (line_of caller none none denied) (plain_error 400 detail)
renew_failed caller (minting _) =
    refuse (line_of caller none none error) (plain_error 502 (codes "Ticket renewal failed."))
renew_failed caller f = raise f

module _ (env : Outside) (settings : Settings) where
  -- The handler behind the token.
  renew_for : RenewRequest → Caller → Exec MintResponse
  renew_for body caller = do
    ccache_bytes ← take_ccache caller (b64decode body.ccache_b64)
    minted ← catch (renew_ticket env settings ccache_bytes) (renew_failed caller)
    audit (line_of caller none (some minted.principal) issued)
    pure (mint_response minted)

  unfoldable pub renew : RenewRequest → Request → Exec MintResponse
  unfolding renew_for renew_failed take_ccache
  renew body request = do caller ← authenticate env settings request none; renew_for body caller
