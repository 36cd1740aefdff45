-- ===== src/App/Keytab/Audited.antt =====
-- The audit line of a keytab bootstrap.
use krb5_token_service.Prelude.{ℕ, refl, Option, none, some, Text}
use krb5_token_service.Python.Utf8.{Bytes}
use krb5_token_service.Errors.{Failure, minting, bad_password, os_error}
use krb5_token_service.World.{World, Outside}
use krb5_token_service.Settings.{Settings}
use krb5_token_service.System.Footprint.{Keeps-new_buffer}
use krb5_token_service.Minting.Keytabs.Footprint.{IsKeytabFailure, Keeps-mint_keytab}
use krb5_token_service.App.Requests.{Request, KeytabRequest}
use krb5_token_service.App.Common.{Caller}
use krb5_token_service.App.Common.Audited.{
  IsStep-authenticate, IsStep-check_name, IsStep-check_limit, IsStep-limiter_failure,
  IsStep-limiter_reset,
}
use krb5_token_service.App.Audits.{
  audit_log, Audited, IsStep, IsAnswer, Keeps-audit_log, IsStep-Keeps, IsStep-raise, IsStep-refuse,
  IsAnswer-issued,
}
use krb5_token_service.Exec.Stages.{Ends-bind, IsStage-catch}
use krb5_token_service.App.Keytab.{keytab, keytab_for, keytab_with, keytab_failed, take_password}

IsStep-take_password : (bs : Option Bytes) → IsStep (take_password bs)
unfolding take_password
IsStep-take_password none = IsStep-raise _ tt
IsStep-take_password (some bs) = IsStep-Keeps _ (Keeps-audit_log _ (Keeps-new_buffer bs))

module _ (env : Outside) where
  IsStep-keytab_failed :
      (caller : Caller) (u : Text) (f : Failure)
      → IsKeytabFailure f
      → IsStep (keytab_failed env caller u f)
  unfolding keytab_failed
  IsStep-keytab_failed caller u (bad_password why) h =
      Ends-bind _ _ (IsStep-limiter_failure env u) (λ _. IsStep-refuse _ _ refl)
  IsStep-keytab_failed caller u (minting why) h = IsStep-refuse _ _ refl
  IsStep-keytab_failed caller u (os_error why) h = IsStep-raise _ tt
  IsStep-keytab_failed caller u _ h = absurd h

  module _ (settings : Settings) (body : KeytabRequest) where
    IsAnswer-keytab_with :
        (caller : Caller) (password : ℕ) → IsAnswer (keytab_with env settings body caller password)
    unfolding keytab_with
    IsAnswer-keytab_with caller password =
        Ends-bind _ _
          (IsStage-catch _ _
            (Keeps-audit_log _ (Keeps-mint_keytab env settings body.username password))
            (IsStep-keytab_failed caller body.username))
          (λ bytes.
            Ends-bind _ _ (IsStep-limiter_reset body.username) (λ _. IsAnswer-issued _ _ refl))

    IsAnswer-keytab_for : (caller : Caller) → IsAnswer (keytab_for env settings body caller)
    unfolding keytab_for
    IsAnswer-keytab_for caller = Ends-bind _ _ (IsStep-check_name env caller body.username) (λ _.
        Ends-bind _ _ (IsStep-check_limit env caller body.username)
          (λ _. Ends-bind _ _ (IsStep-take_password _) (IsAnswer-keytab_with caller)))

    -- A keytab bootstrap adds exactly one audit line for every answer: with outcome `issued` where it
    -- succeeds, `error` where it is refused with a status of 500 or above, and `denied` where it is
    -- refused with any other. Where an exception that is not an `HTTPException` escapes, it adds none.
    pub keytab-Audited :
        (request : Request) (w : World)
        → let out = keytab env settings body request w in
          Audited out.0 (audit_log w) (audit_log out.1)
    unfolding keytab
    keytab-Audited request w =
        (Ends-bind _ _ (IsStep-authenticate env settings request (some body.username))
            IsAnswer-keytab_for).at
          w
