-- ===== src/App/Mint/Audited.antt =====
-- The audit line of a mint.
use krb5_token_service.Prelude.{ℕ, refl, arith, Bool, not, Option, none, some, Text}
use krb5_token_service.Python.Utf8.{Bytes, encode}
use krb5_token_service.Python.Base64.{b64decode}
use krb5_token_service.Errors.{
  Failure, invalid_lifetime, minting, bad_password, bad_keytab, unknown_principal, account_unusable,
  ccache_parse, value_error, os_error,
}
use krb5_token_service.World.{World, Outside}
use krb5_token_service.Settings.{Settings}
use krb5_token_service.Exec.{Exec, pure, ◌>>=◌}
use krb5_token_service.System.{new_buffer}
use krb5_token_service.Exec.Keeps.{Fails, Keeps-bind, Keeps-lift}
use krb5_token_service.System.Footprint.{Keeps-new_buffer}
use krb5_token_service.Minting.Names.{validate_lifetime}
use krb5_token_service.Minting.Tickets.{is_none}
use krb5_token_service.Minting.Tickets.Footprint.{IsMintFailure, Keeps-mint_ticket}
use krb5_token_service.App.Requests.{Request, MintRequest}
use krb5_token_service.App.Common.{Caller}
use krb5_token_service.App.Common.Audited.{
  IsStep-authenticate, IsStep-check_name, IsStep-check_limit, IsStep-limiter_failure,
  IsStep-limiter_reset,
}
use krb5_token_service.App.Audits.{
  audit_log, Audited, IsStep, IsAnswer, Keeps-audit_log, IsStep-Keeps, IsStep-raise, IsStep-refuse,
  IsAnswer-issued,
}
use krb5_token_service.Exec.Stages.{Ends-bind, IsStage-catch, IsStage-pure}
use krb5_token_service.App.Mint.{
  mint, mint_for, mint_with, mint_failed, take_secret, take_keytab, keytab_secret, password_secret,
  check_lifetimes, reject_lifetime, Secrets, with_password,
}

abbrev pub IsLifetimeFailure : Failure → Type 0
IsLifetimeFailure (invalid_lifetime v) = Unit
IsLifetimeFailure _ = ⊥

pub validate_lifetime-kind : (v : Text) → Fails IsLifetimeFailure (validate_lifetime v)
unfolding validate_lifetime
validate_lifetime-kind v = ground arith

IsStep-reject_lifetime :
    (caller : Caller) (u : Text) (f : Failure)
    → IsLifetimeFailure f
    → IsStep (reject_lifetime caller u f)
unfolding reject_lifetime
IsStep-reject_lifetime caller u (invalid_lifetime v) h = IsStep-refuse _ _ refl
IsStep-reject_lifetime caller u _ h = absurd h

IsStep-check_lifetimes :
    (caller : Caller) (u lifetime renewable : Text)
    → IsStep (check_lifetimes caller u lifetime renewable)
unfolding check_lifetimes
IsStep-check_lifetimes caller u lifetime renewable =
    IsStage-catch _ _
      (Keeps-bind _ _ (Keeps-lift _ (validate_lifetime-kind lifetime))
        (λ _. Keeps-lift _ (validate_lifetime-kind renewable)))
      (IsStep-reject_lifetime caller u)

IsStep-new_buffer :
    {A : Type 0} (bs : Bytes) (f : ℕ → A) → IsStep (new_buffer bs >>= λ b. pure (f b))
IsStep-new_buffer bs f =
    Ends-bind _ _ (IsStep-Keeps _ (Keeps-audit_log _ (Keeps-new_buffer bs))) (λ b. IsStage-pure _)

IsStep-password_secret : (bs : Option Bytes) → IsStep (password_secret bs)
unfolding password_secret
IsStep-password_secret none = IsStep-raise _ tt
IsStep-password_secret (some bs) = IsStep-new_buffer bs _

IsStep-take_keytab :
    (caller : Caller) (u : Text) (keytab_b64 : Option Text)
    → IsStep (take_keytab caller u keytab_b64)
unfolding take_keytab keytab_secret
IsStep-take_keytab caller u none = IsStep-raise _ tt
IsStep-take_keytab caller u (some t) = IsStep-keytab_secret (b64decode t)
  where
    IsStep-keytab_secret : (bs : Option Bytes) → IsStep (keytab_secret caller u bs)
    IsStep-keytab_secret none = IsStep-refuse _ _ refl
    IsStep-keytab_secret (some bs) = IsStep-new_buffer bs _

IsStep-take_secret :
    (caller : Caller) (u : Text) (password keytab_b64 : Option Text)
    → IsStep (take_secret caller u password keytab_b64)
unfolding take_secret
IsStep-take_secret caller u (some password) keytab_b64 = IsStep-password_secret (encode password)
IsStep-take_secret caller u none keytab_b64 = IsStep-take_keytab caller u keytab_b64

IsStep-with_password :
    (password : Option Text) (m : Exec (Unit {0})) → IsStep m → IsStep (with_password password m)
IsStep-with_password none m k = IsStage-pure tt
IsStep-with_password (some p) m k = k

module _ (env : Outside) where
  IsStep-mint_failed :
      (b : Bool) (caller : Caller) (u : Text) (f : Failure)
      → IsMintFailure b f
      → IsStep (mint_failed env caller u f)
  unfolding mint_failed
  IsStep-mint_failed b caller u (bad_password why) h =
      Ends-bind _ _ (IsStep-limiter_failure env u) (λ _. IsStep-refuse _ _ refl)
  IsStep-mint_failed b caller u (bad_keytab why) h = IsStep-refuse _ _ refl
  IsStep-mint_failed b caller u (unknown_principal why) h = IsStep-refuse _ _ refl
  IsStep-mint_failed b caller u (account_unusable why) h = IsStep-refuse _ _ refl
  IsStep-mint_failed b caller u (minting why) h = IsStep-refuse _ _ refl
  IsStep-mint_failed b caller u (ccache_parse why) h = IsStep-raise _ tt
  IsStep-mint_failed b caller u (value_error why) h = IsStep-raise _ tt
  IsStep-mint_failed b caller u (os_error why) h = IsStep-raise _ tt
  IsStep-mint_failed b caller u _ h = absurd h

  module _ (settings : Settings) (body : MintRequest) where
    IsAnswer-mint_with :
        (caller : Caller) (secrets : Secrets)
        → IsAnswer (mint_with env settings body caller secrets)
    unfolding mint_with
    IsAnswer-mint_with caller (password, keytab) =
        Ends-bind _ _
          (IsStage-catch _ _
            (Keeps-audit_log _ (Keeps-mint_ticket env settings _ _ _ password keytab))
            (IsStep-mint_failed (not (is_none keytab)) caller body.username))
          (λ minted.
            Ends-bind _ _
              (IsStep-with_password body.password _ (IsStep-limiter_reset body.username))
              (λ _. IsAnswer-issued _ _ refl))

    IsAnswer-mint_for : (caller : Caller) → IsAnswer (mint_for env settings body caller)
    unfolding mint_for
    IsAnswer-mint_for caller = Ends-bind _ _ (IsStep-check_name env caller body.username) (λ _.
        Ends-bind _ _ (IsStep-check_lifetimes caller body.username _ _) (λ _.
          Ends-bind _ _
            (IsStep-with_password body.password _ (IsStep-check_limit env caller body.username))
            (λ _.
              Ends-bind _ _ (IsStep-take_secret caller body.username body.password body.keytab_b64)
                (IsAnswer-mint_with caller))))

    -- A mint adds exactly one audit line for every answer: with outcome `issued` where it succeeds,
    -- `error` where it is refused with a status of 500 or above, and `denied` where it is refused with
    -- any other. Where an exception that is not an `HTTPException` escapes, it adds none.
    pub mint-Audited :
        (request : Request) (w : World)
        → let out = mint env settings body request w in
          Audited out.0 (audit_log w) (audit_log out.1)
    unfolding mint
    mint-Audited request w =
        (Ends-bind _ _ (IsStep-authenticate env settings request (some body.username))
            IsAnswer-mint_for).at
          w
