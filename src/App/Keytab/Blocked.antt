-- ===== src/App/Keytab/Blocked.antt =====
-- A request for a keytab of a locked username.
use krb5_token_service.Exec.Returns.{IsRaised}
use krb5_token_service.RateLimit.{limited, check}
use krb5_token_service.Prelude.{ℕ, ◌≤◌, ◌+◌, ◌≡◌, refl, arith}
use krb5_token_service.World.{World, Outside}
use krb5_token_service.Settings.{Settings}
use krb5_token_service.App.Requests.{Request, KeytabRequest}
use krb5_token_service.App.Common.Unlimited.{IsFront-authenticate, IsFront-check_name}
use krb5_token_service.App.Common.Questions.{Takes-authenticate, Takes-check_name}
use krb5_token_service.App.Blocked.{IsBlocked-bind, IsBlocked-check_limit}
use krb5_token_service.App.Keytab.{keytab, keytab_for}

-- Where the username is locked, at the next six questions at least, a request for a keytab is refused,
-- and neither cern-get-keytab nor any other child is started.
pub keytab-IsRaised :
    (env : Outside) (settings : Settings) (body : KeytabRequest) (request : Request) (w : World)
    → ((n : ℕ)
        → n ≤ w.ticks + 5
        → (t : ℕ) × ((check (env.monotonic n) body.username w.limiter).0 ≡ limited t))
    → let out = keytab env settings body request w in IsRaised out.0 × (out.1.spawned ≡ w.spawned)
unfolding keytab keytab_for
keytab-IsRaised env settings body request w locked =
    (IsBlocked-bind w.limiter _ 5 0 _ _ (IsFront-authenticate env settings request _)
        (Takes-authenticate env settings request _)
        (λ caller.
          IsBlocked-bind w.limiter _ 0 0 _ _ (IsFront-check_name env caller body.username)
            (Takes-check_name env caller body.username)
            (λ _. IsBlocked-check_limit env caller body.username w.limiter _ _ locked))).at
      w refl (omega arith)
