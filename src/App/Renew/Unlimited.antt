-- ===== src/App/Renew/Unlimited.antt =====
-- A renewal is no attempt on the limiter.
use krb5_token_service.Prelude.{◌≡◌, Option, none, some}
use krb5_token_service.Python.Utf8.{Bytes}
use krb5_token_service.Errors.{Failure, minting, ccache_parse, ticket_expired}
use krb5_token_service.World.{World, Outside}
use krb5_token_service.Settings.{Settings}
use krb5_token_service.Exec.Keeps.{Keeps-pure, Keeps-raise, Keeps-bind, Keeps-catch}
use krb5_token_service.Minting.Renewals.Footprint.{Keeps-renew_ticket}
use krb5_token_service.App.Requests.{Request, RenewRequest}
use krb5_token_service.App.Common.{Caller}
use krb5_token_service.App.Common.Unlimited.{
  IsUnlimited, Unlimited-of_ledger, Unlimited-audit, IsUnlimited-refuse, IsFront-authenticate,
  IsUnlimited-IsFront,
}
use krb5_token_service.App.Renew.{renew, renew_for, renew_failed, take_ccache}

IsUnlimited-take_ccache :
    (caller : Caller) (bs : Option Bytes) → IsUnlimited (take_ccache caller bs)
unfolding take_ccache
IsUnlimited-take_ccache caller none = IsUnlimited-refuse _ _
IsUnlimited-take_ccache caller (some bs) = Keeps-pure bs

IsUnlimited-renew_failed : (caller : Caller) (f : Failure) → IsUnlimited (renew_failed caller f)
unfolding renew_failed
IsUnlimited-renew_failed caller (ccache_parse why) = IsUnlimited-refuse _ _
IsUnlimited-renew_failed caller (ticket_expired why) = IsUnlimited-refuse _ _
IsUnlimited-renew_failed caller (minting why) = IsUnlimited-refuse _ _
IsUnlimited-renew_failed caller _ = Keeps-raise _ tt

module _ (env : Outside) (settings : Settings) (body : RenewRequest) where
  IsUnlimited-renew_for : (caller : Caller) → IsUnlimited (renew_for env settings body caller)
  unfolding renew_for
  IsUnlimited-renew_for caller = Keeps-bind _ _ (IsUnlimited-take_ccache caller _) (λ bs.
      Keeps-bind _ _
        (Keeps-catch _ _ (Unlimited-of_ledger _ (Keeps-renew_ticket env settings bs))
          (λ f _. IsUnlimited-renew_failed caller f))
        (λ minted. Keeps-bind _ _ (Unlimited-audit _) (λ _. Keeps-pure _)))

  -- A renewal never changes the limiter, whatever becomes of it.
  pub renew-limiter :
      (request : Request) (w : World) → (renew env settings body request w).1.limiter ≡ w.limiter
  unfolding renew
  renew-limiter request w =
      (Keeps-bind _ _ (IsUnlimited-IsFront _ (IsFront-authenticate env settings request _))
          IsUnlimited-renew_for).same
        w
