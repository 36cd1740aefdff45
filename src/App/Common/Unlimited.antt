-- ===== src/App/Common/Unlimited.antt =====
-- The steps that the handlers share, but for the check of the limiter, leave the limiter as it is and
-- start no child.
use krb5_token_service.Prelude.{refl, ap, Option, none, some, List, Text}
use krb5_token_service.Errors.{Failure, http, HttpError, invalid_username, Result}
use krb5_token_service.RateLimit.{RateLimiter}
use krb5_token_service.World.{World, AuditLine, Spawned, Outside}
use krb5_token_service.Settings.{Settings}
use krb5_token_service.Exec.{Exec, lift}
use krb5_token_service.Exec.Keeps.{
  Keeps, Fails, Keeps-pure, Keeps-raise, Keeps-bind, Keeps-modify, Keeps-lift, Keeps-if,
  Keeps-catch,
}
use krb5_token_service.System.{next_tick, emit}
use krb5_token_service.System.Footprint.{Ledger, ledger}
use krb5_token_service.Identity.Footprint.{Books, books, Keeps-verify_broker_token}
use krb5_token_service.Minting.Names.{validate_username}
use krb5_token_service.App.Requests.{Request}
use krb5_token_service.App.Common.{
  Caller, audit, refuse, authenticate, choose_id, authenticate_token, verified, reject_token,
  check_name, reject_name,
}

abbrev pub limiter_of : World → RateLimiter
limiter_of w = w.limiter

-- Whatever it raises.
abbrev pub AnyFailure : Failure → Type 0
AnyFailure f = Unit

-- The action never touches the limiter.
abbrev pub IsUnlimited : {A : Type 0} → Exec A → Type 0
IsUnlimited m = Keeps limiter_of AnyFailure m

AnyFailure-Fails : {A : Type 0} (r : Result A) → Fails AnyFailure r
AnyFailure-Fails (Result.ok a) = tt
AnyFailure-Fails (Result.raised f) = tt

pub Unlimited-of_ledger :
    {A : Type 0} {E : Failure → Type 0} (m : Exec A) → Keeps ledger E m → Keeps limiter_of E m
Unlimited-of_ledger m k = record { same = λ w. ap Ledger.limiter (k.same w); fails = k.fails }

-- What a request leaves as it is until its credential is used: the limiter, and the children that
-- were started.
pub record Front : Type 0 where
  pub limiter : RateLimiter
  pub spawned : List Spawned

abbrev pub front : World → Front
front w = record { limiter = w.limiter; spawned = w.spawned }

abbrev pub IsFront : {A : Type 0} → Exec A → Type 0
IsFront m = Keeps front AnyFailure m

pub IsUnlimited-IsFront : {A : Type 0} (m : Exec A) → IsFront m → IsUnlimited m
IsUnlimited-IsFront m k = record { same = λ w. ap Front.limiter (k.same w); fails = k.fails }

Front-of_books :
    {A : Type 0} {E : Failure → Type 0} (m : Exec A) → Keeps books E m → Keeps front E m
Front-of_books m k = record {
  same = λ w. ap (λ b. record { limiter = Books.limiter b; spawned = Books.spawned b }) (k.same w);
  fails = k.fails;
}

pub IsFront-lift : {A : Type 0} (r : Result A) → IsFront (lift r)
IsFront-lift r = Keeps-lift r (AnyFailure-Fails r)

pub Unlimited-audit : {E : Failure → Type 0} (line : AuditLine) → Keeps limiter_of E (audit line)
unfolding audit emit
Unlimited-audit line = Keeps-modify _ (λ w. refl)

Front-audit : {E : Failure → Type 0} (line : AuditLine) → Keeps front E (audit line)
unfolding audit emit
Front-audit line = Keeps-modify _ (λ w. refl)

pub IsFront-refuse :
    {A : Type 0} (line : AuditLine) (e : HttpError) → IsFront (refuse {A = A} line e)
unfolding refuse
IsFront-refuse line e = Keeps-bind _ _ (Front-audit line) (λ _. Keeps-raise _ tt)

pub IsUnlimited-refuse :
    {A : Type 0} (line : AuditLine) (e : HttpError) → IsUnlimited (refuse {A = A} line e)
IsUnlimited-refuse line e = IsUnlimited-IsFront _ (IsFront-refuse line e)

module _ (env : Outside) where
  IsFront-next_tick : IsFront next_tick
  unfolding next_tick
  IsFront-next_tick = record { same = λ w. refl; fails = λ w. tt }

  IsFront-choose_id : (id : Option Text) → IsFront (choose_id env id)
  unfolding choose_id
  IsFront-choose_id none = Keeps-bind _ _ IsFront-next_tick (λ n. Keeps-pure _)
  IsFront-choose_id (some t) =
      Keeps-if _ _ _ (Keeps-bind _ _ IsFront-next_tick (λ n. Keeps-pure _)) (Keeps-pure t)

  IsFront-reject_token :
      {A : Type 0} (token : Text) (username : Option Text) (id : Text) (f : Failure)
      → IsFront (reject_token env {A = A} token username id f)
  unfolding reject_token
  IsFront-reject_token token username id (http e) = IsFront-refuse _ e
  IsFront-reject_token token username id _ = Keeps-raise _ tt

  IsFront-authenticate_token :
      (settings : Settings) (token username : Option Text) (id : Text)
      → IsFront (authenticate_token env settings token username id)
  unfolding authenticate_token verified
  IsFront-authenticate_token settings none username id = IsFront-refuse _ _
  IsFront-authenticate_token settings (some token) username id =
      Keeps-bind _ _
        (Keeps-catch _ _ (Front-of_books _ (Keeps-verify_broker_token env token settings))
          (λ f _. IsFront-reject_token token username id f))
        (λ claims. Keeps-pure _)

  pub IsFront-authenticate :
      (settings : Settings) (request : Request) (username : Option Text)
      → IsFront (authenticate env settings request username)
  unfolding authenticate
  IsFront-authenticate settings request username =
      Keeps-bind _ _ (IsFront-choose_id _) (λ id. IsFront-authenticate_token settings _ username id)

  IsFront-reject_name : (caller : Caller) (f : Failure) → IsFront (reject_name env caller f)
  unfolding reject_name
  IsFront-reject_name caller (invalid_username u) = IsFront-refuse _ _
  IsFront-reject_name caller _ = Keeps-raise _ tt

  pub IsFront-check_name : (caller : Caller) (u : Text) → IsFront (check_name env caller u)
  unfolding check_name
  IsFront-check_name caller u =
      Keeps-catch _ _ (IsFront-lift (validate_username u)) (λ f _. IsFront-reject_name caller f)
