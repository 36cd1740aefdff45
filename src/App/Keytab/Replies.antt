-- ===== src/App/Keytab/Replies.antt =====
-- What a keytab bootstrap can answer with other than a keytab.
use krb5_token_service.Prelude.{
  refl, ◌⊎◌, inl, arith, ℕ, Option, none, some, List, [], ◌∷◌, ◌++◌, Text, codes,
}
use krb5_token_service.Python.Utf8.{Bytes, encode}
use krb5_token_service.Errors.{Failure, HttpError, minting, bad_password, os_error}
use krb5_token_service.World.{World, Outside}
use krb5_token_service.Settings.{Settings}
use krb5_token_service.Exec.Keeps.{Fails, Keeps-pure, Keeps-raise, Keeps-bind, Keeps-catch}
use krb5_token_service.Identity.{unauthorized, bad_gateway}
use krb5_token_service.Minting.Keytabs.Footprint.{IsKeytabFailure, Keeps-mint_keytab}
use krb5_token_service.App.Requests.{Request, KeytabRequest}
use krb5_token_service.App.Common.{Caller, plain_error}
use krb5_token_service.App.Common.Replies.{
  IsOneOf, IsLimited, IsReply, Replies, Replies-Keeps, Replies-refuse, Replies-authenticate,
  Replies-check_name, Replies-check_limit, Replies-limiter_failure, Replies-limiter_reset,
  Replies-audit, Replies-new_buffer,
}
use krb5_token_service.App.Keytab.{keytab, keytab_for, keytab_with, keytab_failed, take_password}

-- The refusals of a bootstrap, but for the limiter's.
abbrev pub keytab_refusals : Settings → List HttpError
keytab_refusals settings =
    unauthorized (codes "Not authenticated")
    ∷ unauthorized (codes "Invalid or expired token")
    ∷ bad_gateway (codes "Unable to reach JWKS endpoint: " ++ settings.broker_jwks_url)
    ∷ plain_error 422 (codes "invalid username")
    ∷ plain_error 400 (codes "bad password")
    ∷ plain_error 502 (codes "Keytab generation failed.")
    ∷ []

module _ (env : Outside) (settings : Settings) where
  abbrev pub IsKeytabReply : HttpError → Type 0
  IsKeytabReply e = IsLimited env e ⊎ IsOneOf (keytab_refusals settings) e

  Replies-take_password : (bs : Option Bytes) → Replies IsKeytabReply (take_password bs)
  unfolding take_password
  Replies-take_password none = Keeps-raise _ tt
  Replies-take_password (some bs) = Replies-new_buffer _ bs

  Replies-keytab_failed :
      (caller : Caller) (u : Text) (f : Failure)
      → IsKeytabFailure f
      → Replies IsKeytabReply (keytab_failed env caller u f)
  unfolding keytab_failed
  Replies-keytab_failed caller u (bad_password why) h =
      Keeps-bind _ _ (Replies-limiter_failure _ env u) (λ _. Replies-refuse _ _ _ (ground arith))
  Replies-keytab_failed caller u (minting why) h = Replies-refuse _ _ _ (ground arith)
  Replies-keytab_failed caller u (os_error why) h = Keeps-raise _ tt
  Replies-keytab_failed caller u _ h = absurd h

  module _ (body : KeytabRequest) where
    Replies-keytab_with :
        (caller : Caller) (password : ℕ)
        → Replies IsKeytabReply (keytab_with env settings body caller password)
    unfolding keytab_with
    Replies-keytab_with caller password =
        Keeps-bind _ _
          (Keeps-catch _ _ (Replies-Keeps _ (Keeps-mint_keytab env settings _ password))
            (Replies-keytab_failed caller body.username))
          (λ content.
            Keeps-bind _ _ (Replies-limiter_reset _ body.username)
              (λ _. Keeps-bind _ _ (Replies-audit _ _) (λ _. Keeps-pure _)))

    Replies-keytab_for :
        (caller : Caller) → Replies IsKeytabReply (keytab_for env settings body caller)
    unfolding keytab_for
    Replies-keytab_for caller =
        Keeps-bind _ _ (Replies-check_name _ env caller body.username (ground arith)) (λ _.
          Keeps-bind _ _ (Replies-check_limit _ env caller body.username (λ t. inl (t, refl))) (λ _.
            Keeps-bind _ _ (Replies-take_password (encode body.password))
              (Replies-keytab_with caller)))

    pub keytab-IsReply :
        (request : Request) (w : World)
        → Fails (IsReply IsKeytabReply) (keytab env settings body request w).0
    unfolding keytab
    keytab-IsReply request w =
        (Keeps-bind _ _
            (Replies-authenticate _ env settings (ground arith) (ground arith) (ground arith)
              request (some body.username))
            Replies-keytab_for).fails
          w
