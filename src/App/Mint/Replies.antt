-- ===== src/App/Mint/Replies.antt =====
-- What a mint can answer with other than a ticket.
use krb5_token_service.Prelude.{
  refl, ◌⊎◌, inl, inr, Bool, not, Option, none, some, List, [], ◌∷◌, ◌++◌, Text, codes, arith,
}
use krb5_token_service.Python.Utf8.{Bytes, encode}
use krb5_token_service.Python.Base64.{b64decode}
use krb5_token_service.Errors.{
  Failure, HttpError, minting, bad_password, bad_keytab, unknown_principal, account_unusable,
  ccache_parse, value_error, os_error,
}
use krb5_token_service.World.{World, Outside}
use krb5_token_service.Settings.{Settings}
use krb5_token_service.Exec.{Exec}
use krb5_token_service.Exec.Keeps.{Fails, Keeps-pure, Keeps-raise, Keeps-bind, Keeps-catch}
use krb5_token_service.Identity.{unauthorized, bad_gateway}
use krb5_token_service.Minting.Classify.{account_revoked_detail, password_expired_detail}
use krb5_token_service.Minting.Tickets.{is_none}
use krb5_token_service.Minting.Tickets.Footprint.{IsMintFailure, Keeps-mint_ticket}
use krb5_token_service.App.Requests.{Request, MintRequest}
use krb5_token_service.App.Common.{Caller, plain_error}
use krb5_token_service.App.Common.Replies.{
  IsOneOf, IsLimited, IsReply, Replies, Replies-Keeps, Replies-refuse, Replies-authenticate,
  Replies-check_name, Replies-check_limit, Replies-limiter_failure, Replies-limiter_reset,
  Replies-audit, Replies-new_buffer,
}
use krb5_token_service.App.Mint.Lifetimes.{Replies-check_lifetimes}
use krb5_token_service.App.Mint.{
  mint, mint_for, mint_with, mint_failed, take_secret, take_keytab, keytab_secret, password_secret,
  Secrets, with_password,
}

-- The refusals of a mint, but for the limiter's.
abbrev pub mint_refusals : Settings → List HttpError
mint_refusals settings =
    unauthorized (codes "Not authenticated")
    ∷ unauthorized (codes "Invalid or expired token")
    ∷ bad_gateway (codes "Unable to reach JWKS endpoint: " ++ settings.broker_jwks_url)
    ∷ plain_error 422 (codes "invalid username")
    ∷ plain_error 422 (codes "invalid lifetime")
    ∷ plain_error 422 (codes "invalid keytab_b64")
    ∷ plain_error 400 (codes "bad password")
    ∷ plain_error 400 (codes "bad keytab")
    ∷ plain_error 400 (codes "unknown principal")
    ∷ plain_error 403 account_revoked_detail
    ∷ plain_error 403 password_expired_detail
    ∷ plain_error 502 (codes "Ticket minting failed.")
    ∷ []

module _ (env : Outside) (settings : Settings) where
  abbrev pub IsMintReply : HttpError → Type 0
  IsMintReply e = IsLimited env e ⊎ IsOneOf (mint_refusals settings) e

  Replies-password_secret : (bs : Option Bytes) → Replies IsMintReply (password_secret bs)
  unfolding password_secret
  Replies-password_secret none = Keeps-raise _ tt
  Replies-password_secret (some bs) = Keeps-bind _ _ (Replies-new_buffer _ bs) (λ b. Keeps-pure _)

  Replies-keytab_secret :
      (caller : Caller) (u : Text) (bs : Option Bytes)
      → Replies IsMintReply (keytab_secret caller u bs)
  unfolding keytab_secret
  Replies-keytab_secret caller u none = Replies-refuse _ _ _ (ground arith)
  Replies-keytab_secret caller u (some bs) =
      Keeps-bind _ _ (Replies-new_buffer _ bs) (λ b. Keeps-pure _)

  Replies-take_secret :
      (caller : Caller) (u : Text) (password keytab_b64 : Option Text)
      → Replies IsMintReply (take_secret caller u password keytab_b64)
  unfolding take_secret take_keytab
  Replies-take_secret caller u (some password) keytab_b64 =
      Replies-password_secret (encode password)
  Replies-take_secret caller u none none = Keeps-raise _ tt
  Replies-take_secret caller u none (some text) = Replies-keytab_secret caller u (b64decode text)

  Replies-mint_failed :
      (by_keytab : Bool) (caller : Caller) (u : Text) (f : Failure)
      → IsMintFailure by_keytab f
      → Replies IsMintReply (mint_failed env caller u f)
  unfolding mint_failed
  Replies-mint_failed b caller u (bad_password why) h =
      Keeps-bind _ _ (Replies-limiter_failure _ env u) (λ _. Replies-refuse _ _ _ (ground arith))
  Replies-mint_failed b caller u (bad_keytab why) h = Replies-refuse _ _ _ (ground arith)
  Replies-mint_failed b caller u (unknown_principal why) h = Replies-refuse _ _ _ (ground arith)
  Replies-mint_failed b caller u (account_unusable why) (inl e) =
      Replies-refuse _ _ _ (rw e (ground arith))
  Replies-mint_failed b caller u (account_unusable why) (inr e) =
      Replies-refuse _ _ _ (rw e (ground arith))
  Replies-mint_failed b caller u (minting why) h = Replies-refuse _ _ _ (ground arith)
  Replies-mint_failed b caller u (ccache_parse why) h = Keeps-raise _ tt
  Replies-mint_failed b caller u (value_error why) h = Keeps-raise _ tt
  Replies-mint_failed b caller u (os_error why) h = Keeps-raise _ tt
  Replies-mint_failed b caller u _ h = absurd h

  Replies-with_password :
      (password : Option Text) (m : Exec (Unit {0}))
      → Replies IsMintReply m
      → Replies IsMintReply (with_password password m)
  Replies-with_password none m k = Keeps-pure tt
  Replies-with_password (some password) m k = k

  module _ (body : MintRequest) where
    Replies-mint_with :
        (caller : Caller) (secrets : Secrets)
        → Replies IsMintReply (mint_with env settings body caller secrets)
    unfolding mint_with
    Replies-mint_with caller (password, keytab) =
        Keeps-bind _ _
          (Keeps-catch _ _ (Replies-Keeps _ (Keeps-mint_ticket env settings _ _ _ password keytab))
            (Replies-mint_failed (not (is_none keytab)) caller body.username))
          (λ minted.
            Keeps-bind _ _
              (Replies-with_password body.password _ (Replies-limiter_reset _ body.username))
              (λ _. Keeps-bind _ _ (Replies-audit _ _) (λ _. Keeps-pure _)))

    Replies-mint_for : (caller : Caller) → Replies IsMintReply (mint_for env settings body caller)
    unfolding mint_for
    Replies-mint_for caller =
        Keeps-bind _ _ (Replies-check_name _ env caller body.username (ground arith)) (λ _.
          Keeps-bind _ _ (Replies-check_lifetimes _ (ground arith) caller body.username _ _) (λ _.
            Keeps-bind _ _
              (Replies-with_password body.password _
                (Replies-check_limit _ env caller body.username (λ t. inl (t, refl))))
              (λ _.
                Keeps-bind _ _
                  (Replies-take_secret caller body.username body.password body.keytab_b64)
                  (Replies-mint_with caller))))

    -- Whatever a child writes to its standard error and whatever stands in a ccache, an `HTTPException`
    -- that a mint raises is one of twelve that are fixed by the settings, or the limiter's, which has
    -- the seconds to wait.
    pub mint-IsReply :
        (request : Request) (w : World)
        → Fails (IsReply IsMintReply) (mint env settings body request w).0
    unfolding mint
    mint-IsReply request w =
        (Keeps-bind _ _
            (Replies-authenticate _ env settings (ground arith) (ground arith) (ground arith)
              request (some body.username))
            Replies-mint_for).fails
          w
