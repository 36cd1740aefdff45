-- ===== src/App/Mint/Unlimited.antt =====
-- A mint with a keytab is no attempt on the limiter.
use krb5_token_service.Prelude.{ℕ, ◌≡◌, refl, true, Option, none, some, Text, length}
use krb5_token_service.Python.Utf8.{Bytes}
use krb5_token_service.Python.Base64.{b64decode}
use krb5_token_service.Errors.{
  Failure, minting, bad_password, bad_keytab, unknown_principal, account_unusable, ccache_parse,
  value_error, os_error,
}
use krb5_token_service.World.{World, Outside}
use krb5_token_service.Settings.{Settings}
use krb5_token_service.Exec.{Exec, pure, raise, modify, ◌>>=◌}
use krb5_token_service.Exec.Keeps.{Keeps-pure, Keeps-raise, Keeps-bind, Keeps-catch}
use krb5_token_service.System.{new_buffer, emit}
use krb5_token_service.Minting.Tickets.Footprint.{IsMintFailure, Keeps-mint_ticket}
use krb5_token_service.App.Requests.{Request, MintRequest}
use krb5_token_service.App.Common.{Caller, refuse, audit}
use krb5_token_service.App.Common.Unlimited.{
  IsUnlimited, Unlimited-of_ledger, Unlimited-audit, IsUnlimited-refuse, IsFront-authenticate,
  IsUnlimited-IsFront, IsFront-check_name,
}
use krb5_token_service.App.Mint.{
  mint, mint_for, mint_with, mint_failed, take_secret, take_keytab, keytab_secret, Secrets,
}
use krb5_token_service.App.Mint.Attempted.{IsFront-check_lifetimes}

IsUnlimited-mint_failed :
    (env : Outside) (caller : Caller) (u : Text) (f : Failure)
    → IsMintFailure true f
    → IsUnlimited (mint_failed env caller u f)
unfolding mint_failed
IsUnlimited-mint_failed env caller u (bad_password why) h = absurd (cc h)
IsUnlimited-mint_failed env caller u (bad_keytab why) h = IsUnlimited-refuse _ _
IsUnlimited-mint_failed env caller u (unknown_principal why) h = IsUnlimited-refuse _ _
IsUnlimited-mint_failed env caller u (account_unusable why) h = IsUnlimited-refuse _ _
IsUnlimited-mint_failed env caller u (minting why) h = IsUnlimited-refuse _ _
IsUnlimited-mint_failed env caller u (ccache_parse why) h = Keeps-raise _ tt
IsUnlimited-mint_failed env caller u (value_error why) h = Keeps-raise _ tt
IsUnlimited-mint_failed env caller u (os_error why) h = Keeps-raise _ tt
IsUnlimited-mint_failed env caller u _ h = absurd h

-- What follows the reading of a keytab is given the keytab's buffer and no password.
module _ {A : Type 0} (caller : Caller) (u : Text) (f : Secrets → Exec A)
    (k : (i : ℕ) → IsUnlimited (f (none, some i))) where
  IsUnlimited-after_secret : (bs : Option Bytes) → IsUnlimited (keytab_secret caller u bs >>= f)
  unfolding keytab_secret ◌>>=◌ refuse audit emit modify raise new_buffer pure
  IsUnlimited-after_secret none = record { same = λ w. refl; fails = λ w. tt }
  IsUnlimited-after_secret (some bs) = record {
    same = λ w. (k (length w.buffers)).same (new_buffer bs w).1;
    fails = λ w. (k (length w.buffers)).fails (new_buffer bs w).1;
  }

  IsUnlimited-after_keytab :
      (keytab_b64 : Option Text) → IsUnlimited (take_keytab caller u keytab_b64 >>= f)
  unfolding take_keytab ◌>>=◌ raise
  IsUnlimited-after_keytab none = record { same = λ w. refl; fails = λ w. tt }
  IsUnlimited-after_keytab (some t) = IsUnlimited-after_secret (b64decode t)

module _ (env : Outside) (settings : Settings) (body : MintRequest) where
  abbrev by_keytab : MintRequest
  by_keytab = record body { password = none }

  IsUnlimited-mint_with :
      (caller : Caller) (i : ℕ)
      → IsUnlimited (mint_with env settings by_keytab caller (none, some i))
  unfolding mint_with
  IsUnlimited-mint_with caller i =
      Keeps-bind _ _
        (Keeps-catch _ _
          (Unlimited-of_ledger _ (Keeps-mint_ticket env settings _ _ _ none (some i)))
          (IsUnlimited-mint_failed env caller body.username))
        (λ minted.
          Keeps-bind _ _ (Keeps-pure tt)
            (λ _. Keeps-bind _ _ (Unlimited-audit _) (λ _. Keeps-pure _)))

  IsUnlimited-mint_for : (caller : Caller) → IsUnlimited (mint_for env settings by_keytab caller)
  unfolding mint_for take_secret
  IsUnlimited-mint_for caller =
      Keeps-bind _ _ (IsUnlimited-IsFront _ (IsFront-check_name env caller body.username)) (λ _.
        Keeps-bind _ _ (IsUnlimited-IsFront _ (IsFront-check_lifetimes caller body.username _ _))
          (λ _. Keeps-bind _ _ (Keeps-pure tt) (λ _.
            IsUnlimited-after_keytab caller body.username _ (IsUnlimited-mint_with caller) _)))

  -- A mint without a password never changes the limiter, whatever becomes of it.
  pub mint-limiter :
      (request : Request) (w : World)
      → (mint env settings (record body { password = none }) request w).1.limiter ≡ w.limiter
  unfolding mint
  mint-limiter request w =
      (Keeps-bind _ _ (IsUnlimited-IsFront _ (IsFront-authenticate env settings request _))
          IsUnlimited-mint_for).same
        w
