-- ===== src/App/Mint/Lifetimes.antt =====
-- The check of the lifetimes of a mint: what it can answer with.
use krb5_token_service.Prelude.{Text, codes}
use krb5_token_service.Errors.{Failure, HttpError, invalid_lifetime}
use krb5_token_service.Exec.Keeps.{Keeps-bind, Keeps-catch, Keeps-lift}
use krb5_token_service.App.Common.{Caller, plain_error}
use krb5_token_service.App.Common.Replies.{Replies, Replies-refuse}
use krb5_token_service.App.Mint.Audited.{IsLifetimeFailure, validate_lifetime-kind}
use krb5_token_service.App.Mint.{check_lifetimes, reject_lifetime}

module _ (P : HttpError → Type 0) (p : P (plain_error 422 (codes "invalid lifetime"))) where
  Replies-reject_lifetime :
      (caller : Caller) (u : Text) (f : Failure)
      → IsLifetimeFailure f
      → Replies P (reject_lifetime caller u f)
  unfolding reject_lifetime
  Replies-reject_lifetime caller u (invalid_lifetime v) h = Replies-refuse _ _ _ p
  Replies-reject_lifetime caller u _ h = absurd h

  pub Replies-check_lifetimes :
      (caller : Caller) (u lifetime renewable : Text)
      → Replies P (check_lifetimes caller u lifetime renewable)
  unfolding check_lifetimes
  Replies-check_lifetimes caller u lifetime renewable =
      Keeps-catch _ _
        (Keeps-bind _ _ (Keeps-lift _ (validate_lifetime-kind lifetime))
          (λ _. Keeps-lift _ (validate_lifetime-kind renewable)))
        (Replies-reject_lifetime caller u)
