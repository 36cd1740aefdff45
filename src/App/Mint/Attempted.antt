-- ===== src/App/Mint/Attempted.antt =====
-- A mint with a password as an attempt on the limiter.
use krb5_token_service.Prelude.{refl, Bool, not, Option, none, some, Text}
use krb5_token_service.Python.Utf8.{Bytes, encode}
use krb5_token_service.Errors.{
  Failure, invalid_lifetime, minting, bad_password, bad_keytab, unknown_principal, account_unusable,
  ccache_parse, value_error, os_error,
}
use krb5_token_service.World.{World, Outside}
use krb5_token_service.Settings.{Settings}
use krb5_token_service.Exec.Keeps.{Keeps-pure, Keeps-raise, Keeps-bind, Keeps-catch}
use krb5_token_service.Exec.Stages.{IsStage, IsStage-Keeps, IsStage-catch, Ends-bind}
use krb5_token_service.System.Footprint.{Keeps-new_buffer}
use krb5_token_service.Minting.Names.{validate_lifetime}
use krb5_token_service.Minting.Tickets.{is_none}
use krb5_token_service.Minting.Tickets.Footprint.{IsMintFailure, Keeps-mint_ticket}
use krb5_token_service.App.Requests.{Request, MintRequest}
use krb5_token_service.App.Common.{Caller}
use krb5_token_service.App.Common.Unlimited.{
  limiter_of, IsFront, Unlimited-of_ledger, IsFront-lift, IsFront-refuse, IsFront-authenticate,
  IsFront-check_name,
}
use krb5_token_service.App.Common.Replies.{Replies-authenticate, Replies-check_name}
use krb5_token_service.App.Mint.Lifetimes.{Replies-check_lifetimes}
use krb5_token_service.App.Attempts.{
  is_bad_password, Attempted, Failed, IsAttempt, IsSettled, IsAttempt-bind, IsAttempt-check_limit,
  IsStage-refuse, IsStage-raise, IsStage-bad_password, IsSettled-issued,
}
use krb5_token_service.Prelude.{text_eq}
use krb5_token_service.App.Mint.{
  mint, mint_for, mint_with, mint_failed, take_secret, password_secret, check_lifetimes,
  reject_lifetime, Secrets,
}

IsFront-reject_lifetime :
    (caller : Caller) (u : Text) (f : Failure) → IsFront (reject_lifetime caller u f)
unfolding reject_lifetime
IsFront-reject_lifetime caller u (invalid_lifetime v) = IsFront-refuse _ _
IsFront-reject_lifetime caller u _ = Keeps-raise _ tt

pub IsFront-check_lifetimes :
    (caller : Caller) (u lifetime renewable : Text)
    → IsFront (check_lifetimes caller u lifetime renewable)
unfolding check_lifetimes
IsFront-check_lifetimes caller u lifetime renewable =
    Keeps-catch _ _
      (Keeps-bind _ _ (IsFront-lift (validate_lifetime lifetime))
        (λ _. IsFront-lift (validate_lifetime renewable)))
      (λ f _. IsFront-reject_lifetime caller u f)

module _ (env : Outside) (u : Text) where
  IsStage-password_secret :
      (bs : Option Bytes) → IsStage limiter_of (Failed env u) (password_secret bs)
  unfolding password_secret
  IsStage-password_secret none = IsStage-raise env u _ refl
  IsStage-password_secret (some bs) =
      IsStage-Keeps {E = λ f. ⊥} _
        (Keeps-bind _ _ (Unlimited-of_ledger _ (Keeps-new_buffer bs)) (λ _. Keeps-pure _))
        (λ f h b. absurd h)

  IsStage-mint_failed :
      (b : Bool) (caller : Caller) (f : Failure)
      → IsMintFailure b f
      → IsStage limiter_of (Failed env u) (mint_failed env caller u f)
  unfolding mint_failed is_bad_password text_eq
  IsStage-mint_failed b caller (bad_password why) h = IsStage-bad_password env u _ _ refl
  IsStage-mint_failed b caller (bad_keytab why) h = IsStage-refuse env u _ _ refl
  IsStage-mint_failed b caller (unknown_principal why) h = IsStage-refuse env u _ _ refl
  IsStage-mint_failed b caller (account_unusable why) h = IsStage-refuse env u _ _ refl
  IsStage-mint_failed b caller (minting why) h = IsStage-refuse env u _ _ refl
  IsStage-mint_failed b caller (ccache_parse why) h = IsStage-raise env u _ refl
  IsStage-mint_failed b caller (value_error why) h = IsStage-raise env u _ refl
  IsStage-mint_failed b caller (os_error why) h = IsStage-raise env u _ refl
  IsStage-mint_failed b caller _ h = absurd h

module _ (env : Outside) (settings : Settings) (body : MintRequest) where
  abbrev by_password : Text → MintRequest
  by_password p = record body { password = some p }

  IsSettled-mint_with :
      (p : Text) (caller : Caller) (secrets : Secrets)
      → IsSettled env body.username (mint_with env settings (by_password p) caller secrets)
  unfolding mint_with
  IsSettled-mint_with p caller (password, keytab) =
      Ends-bind _ _
        (IsStage-catch _ _
          (Unlimited-of_ledger _ (Keeps-mint_ticket env settings _ _ _ password keytab))
          (IsStage-mint_failed env body.username (not (is_none keytab)) caller))
        (λ minted. IsSettled-issued env body.username _ _)

  IsAttempt-mint_for :
      (p : Text) (caller : Caller)
      → IsAttempt env body.username (mint_for env settings (by_password p) caller)
  unfolding mint_for take_secret is_bad_password text_eq
  IsAttempt-mint_for p caller =
      IsAttempt-bind _ _ _ _ (IsFront-check_name env caller body.username)
        (Replies-check_name _ env caller body.username refl)
        (λ _.
          IsAttempt-bind _ _ _ _ (IsFront-check_lifetimes caller body.username _ _)
            (Replies-check_lifetimes _ refl caller body.username _ _)
            (λ _. IsAttempt-check_limit env caller body.username _ (
              Ends-bind _ _ (IsStage-password_secret env body.username (encode p))
                (IsSettled-mint_with p caller))))

  -- A mint with a password either is refused before the limiter is asked, for another reason than a
  -- wrong password, the limiter is as it was and no child has started; or it changes the limiter as one
  -- attempt of the username does, at readings of the clock: a check; then, if the check passes, a
  -- recorded failure where the answer is the refusal `400 bad password`, a reset where the ticket is
  -- issued, and nothing otherwise. If the check does not pass, it is refused with a 429 and no child has
  -- started.
  pub mint-Attempted :
      (password : Text) (request : Request) (w : World)
      → let out = mint env settings (record body { password = some password }) request w in
        Attempted env body.username out.0 w out.1
  unfolding mint is_bad_password text_eq
  mint-Attempted password request w =
      (IsAttempt-bind env body.username _ _ (IsFront-authenticate env settings request _)
          (Replies-authenticate _ env settings refl refl refl request _)
          (IsAttempt-mint_for password)).at
        w
