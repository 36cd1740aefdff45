-- ===== src/App/Mint/Blocked.antt =====
-- A mint with a password for a locked username.
use krb5_token_service.Exec.Returns.{IsRaised}
use krb5_token_service.RateLimit.{limited, check}
use krb5_token_service.Prelude.{ℕ, ◌≤◌, ◌+◌, ◌≡◌, refl, some, arith, Text}
use krb5_token_service.World.{World, Outside}
use krb5_token_service.Settings.{Settings}
use krb5_token_service.App.Requests.{Request, MintRequest}
use krb5_token_service.App.Common.Unlimited.{IsFront-authenticate, IsFront-check_name}
use krb5_token_service.App.Blocked.{IsBlocked-bind, IsBlocked-check_limit}
use krb5_token_service.App.Mint.{mint, mint_for, check_lifetimes, reject_lifetime}
use krb5_token_service.App.Common.{Caller}
use krb5_token_service.App.Common.Questions.{Takes-refuse, Takes-authenticate, Takes-check_name}
use krb5_token_service.Errors.{Failure, invalid_lifetime}
use krb5_token_service.Exec.Takes.{Takes, Takes-raise, Takes-lift, Takes-catch, Takes-bind}
use krb5_token_service.App.Mint.Attempted.{IsFront-check_lifetimes}

Takes-reject_lifetime :
    (caller : Caller) (u : Text) (f : Failure) → Takes 0 (reject_lifetime caller u f)
unfolding reject_lifetime
Takes-reject_lifetime caller u (invalid_lifetime v) = Takes-refuse _ _
Takes-reject_lifetime caller u _ = Takes-raise _

Takes-check_lifetimes :
    (caller : Caller) (u lifetime renewable : Text)
    → Takes 0 (check_lifetimes caller u lifetime renewable)
unfolding check_lifetimes
Takes-check_lifetimes caller u lifetime renewable =
    Takes-catch 0 0 _ _ (Takes-bind 0 0 _ _ (Takes-lift _) (λ _. Takes-lift _))
      (Takes-reject_lifetime caller u)

-- Where the username is locked, at the next six questions at least, a mint with a password is refused,
-- and neither kinit nor any other child is started: the KDC does not see the attempt.
pub mint-IsRaised :
    (env : Outside) (settings : Settings) (body : MintRequest) (password : Text) (request : Request)
    (w : World)
    → ((n : ℕ)
        → n ≤ w.ticks + 5
        → (t : ℕ) × ((check (env.monotonic n) body.username w.limiter).0 ≡ limited t))
    → let out = mint env settings (record body { password = some password }) request w in
      IsRaised out.0 × (out.1.spawned ≡ w.spawned)
unfolding mint mint_for
mint-IsRaised env settings body password request w locked =
    (IsBlocked-bind w.limiter _ 5 0 _ _ (IsFront-authenticate env settings request _)
        (Takes-authenticate env settings request _)
        (λ caller.
          IsBlocked-bind w.limiter _ 0 0 _ _ (IsFront-check_name env caller body.username)
            (Takes-check_name env caller body.username)
            (λ _.
              IsBlocked-bind w.limiter _ 0 0 _ _ (IsFront-check_lifetimes caller body.username _ _)
                (Takes-check_lifetimes caller body.username _ _)
                (λ _. IsBlocked-check_limit env caller body.username w.limiter _ _ locked)))).at
      w refl (omega arith)
