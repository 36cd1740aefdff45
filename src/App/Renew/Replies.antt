-- ===== src/App/Renew/Replies.antt =====
-- What a renewal can answer with other than a ticket.
use krb5_token_service.Prelude.{arith, Option, none, some, List, [], ◌∷◌, ◌++◌, codes}
use krb5_token_service.Python.Utf8.{Bytes}
use krb5_token_service.Python.Base64.{b64decode}
use krb5_token_service.Errors.{
  Failure, HttpError, minting, ticket_expired, ccache_parse, value_error, os_error,
}
use krb5_token_service.World.{World, Outside}
use krb5_token_service.Settings.{Settings}
use krb5_token_service.Exec.Keeps.{Fails, Keeps-pure, Keeps-raise, Keeps-bind, Keeps-catch}
use krb5_token_service.Identity.{unauthorized, bad_gateway}
use krb5_token_service.Minting.Renewals.Footprint.{IsRenewFailure, Keeps-renew_ticket}
use krb5_token_service.App.Requests.{Request, RenewRequest}
use krb5_token_service.App.Common.{Caller, plain_error}
use krb5_token_service.App.Common.Replies.{
  IsOneOf, IsReply, Replies, Replies-Keeps, Replies-refuse, Replies-authenticate, Replies-audit,
}
use krb5_token_service.App.Renew.{renew, renew_for, renew_failed, take_ccache}

abbrev pub renew_refusals : Settings → List HttpError
renew_refusals settings =
    unauthorized (codes "Not authenticated")
    ∷ unauthorized (codes "Invalid or expired token")
    ∷ bad_gateway (codes "Unable to reach JWKS endpoint: " ++ settings.broker_jwks_url)
    ∷ plain_error 422 (codes "invalid ccache_b64")
    ∷ plain_error 422 (codes "invalid ccache")
    ∷ plain_error 400 (codes "ticket no longer renewable")
    ∷ plain_error 502 (codes "Ticket renewal failed.")
    ∷ []

module _ (env : Outside) (settings : Settings) where
  abbrev pub IsRenewReply : HttpError → Type 0
  IsRenewReply e = IsOneOf (renew_refusals settings) e

  Replies-take_ccache :
      (caller : Caller) (decoded : Option Bytes) → Replies IsRenewReply (take_ccache caller decoded)
  unfolding take_ccache
  Replies-take_ccache caller none = Replies-refuse _ _ _ (ground arith)
  Replies-take_ccache caller (some bs) = Keeps-pure _

  Replies-renew_failed :
      (caller : Caller) (f : Failure)
      → IsRenewFailure f
      → Replies IsRenewReply (renew_failed caller f)
  unfolding renew_failed
  Replies-renew_failed caller (ccache_parse why) h = Replies-refuse _ _ _ (ground arith)
  Replies-renew_failed caller (ticket_expired why) h = Replies-refuse _ _ _ (rw h (ground arith))
  Replies-renew_failed caller (minting why) h = Replies-refuse _ _ _ (ground arith)
  Replies-renew_failed caller (value_error why) h = Keeps-raise _ tt
  Replies-renew_failed caller (os_error why) h = Keeps-raise _ tt
  Replies-renew_failed caller _ h = absurd h

  Replies-renew_for :
      (body : RenewRequest) (caller : Caller)
      → Replies IsRenewReply (renew_for env settings body caller)
  unfolding renew_for
  Replies-renew_for body caller =
      Keeps-bind _ _ (Replies-take_ccache caller (b64decode body.ccache_b64)) (λ ccache.
        Keeps-bind _ _
          (Keeps-catch _ _ (Replies-Keeps _ (Keeps-renew_ticket env settings ccache))
            (Replies-renew_failed caller))
          (λ minted. Keeps-bind _ _ (Replies-audit _ _) (λ _. Keeps-pure _)))

  pub renew-IsReply :
      (body : RenewRequest) (request : Request) (w : World)
      → Fails (IsReply IsRenewReply) (renew env settings body request w).0
  unfolding renew
  renew-IsReply body request w =
      (Keeps-bind _ _
          (Replies-authenticate _ env settings (ground arith) (ground arith) (ground arith) request
            none)
          (Replies-renew_for body)).fails
        w
