-- ===== src/App/Common/Audited.antt =====
-- The steps that the handlers share write an audit line exactly if they refuse the request.
use krb5_token_service.Prelude.{◌≡◌, refl, ap, inl, inr, arith, Option, none, some, Text}
use krb5_token_service.Errors.{Failure, http, HttpError, invalid_username, rate_limited}
use krb5_token_service.RateLimit.{Verdict, passes, limited}
use krb5_token_service.World.{Outside}
use krb5_token_service.Settings.{Settings}
use krb5_token_service.Exec.{Exec}
use krb5_token_service.Exec.Keeps.{Keeps, Fails, Keeps-gets, Keeps-bind, Keeps-modify, Keeps-lift}
use krb5_token_service.System.{next_tick}
use krb5_token_service.System.Footprint.{Keeps-next_tick, Keeps-monotonic}
use krb5_token_service.Identity.Footprint.{Books, books, IsTokenFailure, Keeps-verify_broker_token}
use krb5_token_service.Minting.Names.{validate_username}
use krb5_token_service.App.Requests.{Request}
use krb5_token_service.App.Common.{
  Caller, token_outcome, authenticate, choose_id, authenticate_token, verified, reject_token,
  check_name, reject_name, limiter_check, verdict_result, set_limiter, limiter_failure,
  limiter_reset, check_limit, reject_limited,
}
use krb5_token_service.App.Audits.{
  audit_log, outcome_of, IsStep, Keeps-audit_log, IsStep-Keeps, IsStep-refuse,
}
use krb5_token_service.Exec.Stages.{Ends-bind, Ends-if, IsStage-catch, IsStage-pure}

Keeps-books :
    {A : Type 0} {E : Failure → Type 0} (m : Exec A) → Keeps books E m → Keeps audit_log E m
Keeps-books m k = record { same = λ w. ap Books.audit_log (k.same w); fails = k.fails }

token_outcome_lem :
    (url : Text) (e : HttpError) → IsTokenFailure url (http e) → token_outcome e ≡ outcome_of e
token_outcome_lem url e (inl h) = rw h
token_outcome_lem url e (inr h) = rw h

module _ (env : Outside) where
  IsStep-next_tick : IsStep next_tick
  IsStep-next_tick = IsStep-Keeps _ (Keeps-audit_log _ Keeps-next_tick)

  IsStep-choose_id : (id : Option Text) → IsStep (choose_id env id)
  unfolding choose_id
  IsStep-choose_id none = Ends-bind _ _ IsStep-next_tick (λ n. IsStage-pure _)
  IsStep-choose_id (some t) =
      Ends-if _ _ _ (Ends-bind _ _ IsStep-next_tick (λ n. IsStage-pure _)) (IsStage-pure t)

  IsStep-reject_token :
      {A : Type 0} (url token : Text) (username : Option Text) (id : Text) (f : Failure)
      → IsTokenFailure url f
      → IsStep (reject_token env {A = A} token username id f)
  unfolding reject_token
  IsStep-reject_token url token username id (http e) h =
      IsStep-refuse _ e (token_outcome_lem url e h)
  IsStep-reject_token url token username id _ h = absurd h

  IsStep-authenticate_token :
      (settings : Settings) (token username : Option Text) (id : Text)
      → IsStep (authenticate_token env settings token username id)
  unfolding authenticate_token verified
  IsStep-authenticate_token settings none username id = IsStep-refuse _ _ refl
  IsStep-authenticate_token settings (some token) username id =
      Ends-bind _ _
        (IsStage-catch _ _ (Keeps-books _ (Keeps-verify_broker_token env token settings))
          (IsStep-reject_token settings.broker_jwks_url token username id))
        (λ claims. IsStage-pure _)

  pub IsStep-authenticate :
      (settings : Settings) (request : Request) (username : Option Text)
      → IsStep (authenticate env settings request username)
  unfolding authenticate
  IsStep-authenticate settings request username =
      Ends-bind _ _ (IsStep-choose_id _) (λ id. IsStep-authenticate_token settings _ username id)

  abbrev pub IsNameFailure : Failure → Type 0
  IsNameFailure (invalid_username u) = Unit
  IsNameFailure _ = ⊥

  pub validate_username-kind : (u : Text) → Fails IsNameFailure (validate_username u)
  unfolding validate_username
  validate_username-kind u = ground arith

  IsStep-reject_name :
      (caller : Caller) (f : Failure) → IsNameFailure f → IsStep (reject_name env caller f)
  unfolding reject_name
  IsStep-reject_name caller (invalid_username u) h = IsStep-refuse _ _ refl
  IsStep-reject_name caller _ h = absurd h

  pub IsStep-check_name : (caller : Caller) (u : Text) → IsStep (check_name env caller u)
  unfolding check_name
  IsStep-check_name caller u =
      IsStage-catch _ _ (Keeps-lift _ (validate_username-kind u)) (IsStep-reject_name caller)

  abbrev pub IsLimitFailure : Failure → Type 0
  IsLimitFailure (rate_limited t) = Unit
  IsLimitFailure _ = ⊥

  verdict_result-kind : (v : Verdict) → Fails IsLimitFailure (verdict_result env v)
  unfolding verdict_result
  verdict_result-kind passes = tt
  verdict_result-kind (limited t) = tt

  pub Keeps-limiter_check : (u : Text) → Keeps audit_log IsLimitFailure (limiter_check env u)
  unfolding limiter_check set_limiter
  Keeps-limiter_check u = Keeps-bind _ _ (Keeps-audit_log _ (Keeps-monotonic env)) (λ now.
      Keeps-bind _ _ (Keeps-gets _) (λ checked.
        Keeps-bind _ _ (Keeps-modify _ (λ w. refl)) (λ _. Keeps-lift _ (verdict_result-kind _))))

  IsStep-reject_limited :
      (caller : Caller) (u : Text) (f : Failure)
      → IsLimitFailure f
      → IsStep (reject_limited env caller u f)
  unfolding reject_limited
  IsStep-reject_limited caller u (rate_limited t) h = IsStep-refuse _ _ refl
  IsStep-reject_limited caller u _ h = absurd h

  pub IsStep-check_limit : (caller : Caller) (u : Text) → IsStep (check_limit env caller u)
  unfolding check_limit
  IsStep-check_limit caller u =
      IsStage-catch _ _ (Keeps-limiter_check u) (IsStep-reject_limited caller u)

  pub IsStep-limiter_failure : (u : Text) → IsStep (limiter_failure env u)
  unfolding limiter_failure
  IsStep-limiter_failure u =
      IsStep-Keeps _ (
        Keeps-bind _ _ (Keeps-audit_log _ (Keeps-monotonic env))
          (λ now. Keeps-modify _ (λ w. refl)))

pub IsStep-limiter_reset : (u : Text) → IsStep (limiter_reset u)
unfolding limiter_reset
IsStep-limiter_reset u = IsStep-Keeps _ (Keeps-modify _ (λ w. refl))
