-- ===== src/App/Keytab/Attempted.antt =====
-- A request for a keytab as an attempt on the limiter.
use krb5_token_service.Prelude.{refl, Option, none, some, Text, text_eq}
use krb5_token_service.Python.Utf8.{Bytes, encode}
use krb5_token_service.Errors.{Failure, minting, bad_password, os_error}
use krb5_token_service.World.{World, Outside}
use krb5_token_service.Settings.{Settings}
use krb5_token_service.Exec.Stages.{IsStage, IsStage-Keeps, IsStage-catch, Ends-bind}
use krb5_token_service.System.Footprint.{Keeps-new_buffer}
use krb5_token_service.Minting.Keytabs.Footprint.{IsKeytabFailure, Keeps-mint_keytab}
use krb5_token_service.App.Requests.{Request, KeytabRequest}
use krb5_token_service.App.Common.{Caller}
use krb5_token_service.App.Common.Unlimited.{
  limiter_of, Unlimited-of_ledger, IsFront-authenticate, IsFront-check_name,
}
use krb5_token_service.App.Common.Replies.{Replies-authenticate, Replies-check_name}
use krb5_token_service.App.Attempts.{
  is_bad_password, Attempted, Failed, IsAttempt, IsAttempt-bind, IsAttempt-check_limit,
  IsStage-refuse, IsStage-raise, IsStage-bad_password, IsSettled-issued,
}
use krb5_token_service.App.Keytab.{keytab, keytab_for, keytab_with, keytab_failed, take_password}

module _ (env : Outside) (u : Text) where
  IsStage-take_password : (bs : Option Bytes) → IsStage limiter_of (Failed env u) (take_password bs)
  unfolding take_password
  IsStage-take_password none = IsStage-raise env u _ refl
  IsStage-take_password (some bs) =
      IsStage-Keeps {E = λ f. ⊥} _ (Unlimited-of_ledger _ (Keeps-new_buffer bs)) (λ f h b. absurd h)

  IsStage-keytab_failed :
      (caller : Caller) (f : Failure)
      → IsKeytabFailure f
      → IsStage limiter_of (Failed env u) (keytab_failed env caller u f)
  unfolding keytab_failed is_bad_password text_eq
  IsStage-keytab_failed caller (bad_password why) h = IsStage-bad_password env u _ _ refl
  IsStage-keytab_failed caller (minting why) h = IsStage-refuse env u _ _ refl
  IsStage-keytab_failed caller (os_error why) h = IsStage-raise env u _ refl
  IsStage-keytab_failed caller _ h = absurd h

module _ (env : Outside) (settings : Settings) (body : KeytabRequest) where
  IsAttempt-keytab_for :
      (caller : Caller) → IsAttempt env body.username (keytab_for env settings body caller)
  unfolding keytab_for keytab_with is_bad_password text_eq
  IsAttempt-keytab_for caller =
      IsAttempt-bind _ _ _ _ (IsFront-check_name env caller body.username)
        (Replies-check_name _ env caller body.username refl)
        (λ _. IsAttempt-check_limit env caller body.username _ (
          Ends-bind _ _ (IsStage-take_password env body.username (encode body.password))
            (λ password.
              Ends-bind _ _
                (IsStage-catch _ _
                  (Unlimited-of_ledger _ (Keeps-mint_keytab env settings body.username password))
                  (IsStage-keytab_failed env body.username caller))
                (λ keytab_bytes. IsSettled-issued env body.username _ _))))

  -- A request for a keytab either is refused before the limiter is asked, for another reason than a
  -- wrong password, the limiter is as it was and no child has started; or it changes the limiter as one
  -- attempt of the username does, at readings of the clock: a check; then, if the check passes, a
  -- recorded failure where the answer is the refusal `400 bad password`, a reset where the keytab is
  -- issued, and nothing otherwise. If the check does not pass, it is refused with a 429 and no child has
  -- started.
  pub keytab-Attempted :
      (request : Request) (w : World)
      → let out = keytab env settings body request w in Attempted env body.username out.0 w out.1
  unfolding keytab is_bad_password text_eq
  keytab-Attempted request w =
      (IsAttempt-bind env body.username _ _ (IsFront-authenticate env settings request _)
          (Replies-authenticate _ env settings refl refl refl request _) IsAttempt-keytab_for).at
        w
