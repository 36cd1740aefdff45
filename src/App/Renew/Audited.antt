-- ===== src/App/Renew/Audited.antt =====
-- The audit line of a renewal.
use krb5_token_service.Prelude.{refl, Option, none, some}
use krb5_token_service.Python.Utf8.{Bytes}
use krb5_token_service.Errors.{
  Failure, minting, ccache_parse, ticket_expired, value_error, os_error,
}
use krb5_token_service.World.{World, Outside}
use krb5_token_service.Settings.{Settings}
use krb5_token_service.Minting.Renewals.Footprint.{IsRenewFailure, Keeps-renew_ticket}
use krb5_token_service.App.Requests.{Request, RenewRequest}
use krb5_token_service.App.Common.{Caller}
use krb5_token_service.App.Common.Audited.{IsStep-authenticate}
use krb5_token_service.App.Audits.{
  audit_log, Audited, IsStep, IsAnswer, Keeps-audit_log, IsStep-raise, IsStep-refuse,
  IsAnswer-issued,
}
use krb5_token_service.Exec.Stages.{Ends-bind, IsStage-catch, IsStage-pure}
use krb5_token_service.App.Renew.{renew, renew_for, renew_failed, take_ccache}

IsStep-take_ccache : (caller : Caller) (bs : Option Bytes) → IsStep (take_ccache caller bs)
unfolding take_ccache
IsStep-take_ccache caller none = IsStep-refuse _ _ refl
IsStep-take_ccache caller (some bs) = IsStage-pure bs

IsStep-renew_failed :
    (caller : Caller) (f : Failure) → IsRenewFailure f → IsStep (renew_failed caller f)
unfolding renew_failed
IsStep-renew_failed caller (ccache_parse why) h = IsStep-refuse _ _ refl
IsStep-renew_failed caller (ticket_expired why) h = IsStep-refuse _ _ refl
IsStep-renew_failed caller (minting why) h = IsStep-refuse _ _ refl
IsStep-renew_failed caller (value_error why) h = IsStep-raise _ tt
IsStep-renew_failed caller (os_error why) h = IsStep-raise _ tt
IsStep-renew_failed caller _ h = absurd h

module _ (env : Outside) (settings : Settings) (body : RenewRequest) where
  IsAnswer-renew_for : (caller : Caller) → IsAnswer (renew_for env settings body caller)
  unfolding renew_for
  IsAnswer-renew_for caller = Ends-bind _ _ (IsStep-take_ccache caller _) (λ bs.
      Ends-bind _ _
        (IsStage-catch _ _ (Keeps-audit_log _ (Keeps-renew_ticket env settings bs))
          (IsStep-renew_failed caller))
        (λ minted. IsAnswer-issued _ _ refl))

  -- A renewal adds exactly one audit line for every answer: with outcome `issued` where it succeeds,
  -- `error` where it is refused with a status of 500 or above, and `denied` where it is refused with
  -- any other. Where an exception that is not an `HTTPException` escapes, it adds none.
  pub renew-Audited :
      (request : Request) (w : World)
      → let out = renew env settings body request w in Audited out.0 (audit_log w) (audit_log out.1)
  unfolding renew
  renew-Audited request w =
      (Ends-bind _ _ (IsStep-authenticate env settings request none) IsAnswer-renew_for).at w
