-- ===== src/App/Common/Replies.antt =====
-- What the steps that the handlers share can answer with: a refusal of a list that is fixed by the
-- settings.
use krb5_token_service.Prelude.{
  ℕ, ◌≡◌, refl, ◌⊎◌, inl, inr, Option, none, some, List, [], ◌∷◌, ◌++◌, Text, codes,
}
use krb5_token_service.Python.Utf8.{Bytes}
use krb5_token_service.Errors.{Failure, http, HttpError, invalid_username, rate_limited}
use krb5_token_service.World.{World, AuditLine, Outside}
use krb5_token_service.Settings.{Settings}
use krb5_token_service.Exec.{Exec}
use krb5_token_service.Exec.Keeps.{
  Keeps, Keeps-pure, Keeps-raise, Keeps-bind, Keeps-catch, Keeps-modify, Keeps-lift, Keeps-if,
}
use krb5_token_service.System.{emit, next_tick, monotonic, new_buffer}
use krb5_token_service.Identity.{unauthorized, bad_gateway}
use krb5_token_service.Identity.Footprint.{IsTokenFailure, Keeps-verify_broker_token}
use krb5_token_service.App.Requests.{Request}
use krb5_token_service.App.Common.{
  Caller, plain_error, audit, refuse, authenticate, choose_id, authenticate_token, verified,
  reject_token, check_name, reject_name, limiter_failure, limiter_reset, check_limit,
  reject_limited, limited_detail,
}
use krb5_token_service.App.Common.Audited.{
  IsLimitFailure, IsNameFailure, validate_username-kind, Keeps-limiter_check,
}

-- One of these refusals.
abbrev pub IsOneOf : List HttpError → HttpError → Type 0
IsOneOf [] e = ⊥
IsOneOf (x ∷ xs) e = (e ≡ x) ⊎ IsOneOf xs e

-- The refusal of the limiter.
abbrev pub IsLimited : Outside → HttpError → Type 0
IsLimited env e = (t : ℕ) × (e ≡ plain_error 429 (limited_detail env t))

-- Where an action raises an `HTTPException`, `P` says which.
abbrev pub IsReply : (HttpError → Type 0) → Failure → Type 0
IsReply P (http e) = P e
IsReply P f = Unit

-- Only what is raised matters.
abbrev pub nothing : World → Unit {0}
nothing w = tt

abbrev pub Replies : (HttpError → Type 0) → {A : Type 0} → Exec A → Type 0
Replies P m = Keeps nothing (IsReply P) m

-- Of what is known to leave something alone, only what it raises.
pub Replies-Keeps :
    {A B : Type 0} {part : World → B} {E : Failure → Type 0} (m : Exec A)
    → Keeps part E m
    → Keeps nothing E m
Replies-Keeps m k = record { same = λ w. refl; fails = k.fails }

module _ (P : HttpError → Type 0) where
  pub Replies-refuse :
      {A : Type 0} (line : AuditLine) (e : HttpError) → P e → Replies P (refuse {A = A} line e)
  unfolding refuse audit emit
  Replies-refuse line e h = Keeps-bind _ _ (Keeps-modify _ (λ w. refl)) (λ _. Keeps-raise _ h)

  Replies-next_tick : Replies P next_tick
  unfolding next_tick
  Replies-next_tick = record { same = λ w. refl; fails = λ w. tt }

  module _ (env : Outside) where
    Replies-choose_id : (id : Option Text) → Replies P (choose_id env id)
    unfolding choose_id
    Replies-choose_id none = Keeps-bind _ _ Replies-next_tick (λ n. Keeps-pure _)
    Replies-choose_id (some t) =
        Keeps-if _ _ _ (Keeps-bind _ _ Replies-next_tick (λ n. Keeps-pure _)) (Keeps-pure t)

    module _ (settings : Settings) (anonymous : P (unauthorized (codes "Not authenticated")))
        (forged : P (unauthorized (codes "Invalid or expired token")))
        (unreachable : P
          (bad_gateway (codes "Unable to reach JWKS endpoint: " ++ settings.broker_jwks_url))) where
      Replies-reject_token :
          {A : Type 0} (token : Text) (username : Option Text) (id : Text) (f : Failure)
          → IsTokenFailure settings.broker_jwks_url f
          → Replies P (reject_token env {A = A} token username id f)
      unfolding reject_token
      Replies-reject_token token username id (http e) (inl h) = Replies-refuse _ e (rw h forged)
      Replies-reject_token token username id (http e) (inr h) =
          Replies-refuse _ e (rw h unreachable)
      Replies-reject_token token username id _ h = absurd h

      Replies-authenticate_token :
          (token username : Option Text) (id : Text)
          → Replies P (authenticate_token env settings token username id)
      unfolding authenticate_token verified
      Replies-authenticate_token none username id = Replies-refuse _ _ anonymous
      Replies-authenticate_token (some token) username id =
          Keeps-bind _ _
            (Keeps-catch _ _ (Replies-Keeps _ (Keeps-verify_broker_token env token settings))
              (Replies-reject_token token username id))
            (λ claims. Keeps-pure _)

      pub Replies-authenticate :
          (request : Request) (username : Option Text)
          → Replies P (authenticate env settings request username)
      unfolding authenticate
      Replies-authenticate request username =
          Keeps-bind _ _ (Replies-choose_id _) (λ id. Replies-authenticate_token _ username id)

    Replies-reject_name :
        (caller : Caller) (f : Failure)
        → P (plain_error 422 (codes "invalid username"))
        → IsNameFailure env f
        → Replies P (reject_name env caller f)
    unfolding reject_name
    Replies-reject_name caller (invalid_username u) p h = Replies-refuse _ _ p
    Replies-reject_name caller _ p h = absurd h

    pub Replies-check_name :
        (caller : Caller) (u : Text)
        → P (plain_error 422 (codes "invalid username"))
        → Replies P (check_name env caller u)
    unfolding check_name
    Replies-check_name caller u p =
        Keeps-catch _ _ (Keeps-lift _ (validate_username-kind env u))
          (λ f h. Replies-reject_name caller f p h)

    Replies-reject_limited :
        (caller : Caller) (u : Text) (f : Failure)
        → ((t : ℕ) → P (plain_error 429 (limited_detail env t)))
        → IsLimitFailure env f
        → Replies P (reject_limited env caller u f)
    unfolding reject_limited
    Replies-reject_limited caller u (rate_limited t) p h = Replies-refuse _ _ (p t)
    Replies-reject_limited caller u _ p h = absurd h

    pub Replies-check_limit :
        (caller : Caller) (u : Text)
        → ((t : ℕ) → P (plain_error 429 (limited_detail env t)))
        → Replies P (check_limit env caller u)
    unfolding check_limit
    Replies-check_limit caller u p =
        Keeps-catch _ _ (Replies-Keeps _ (Keeps-limiter_check env u))
          (λ f h. Replies-reject_limited caller u f p h)

    pub Replies-limiter_failure : (u : Text) → Replies P (limiter_failure env u)
    unfolding limiter_failure monotonic
    Replies-limiter_failure u =
        Keeps-bind _ _ (Keeps-bind _ _ Replies-next_tick (λ n. Keeps-pure _))
          (λ now. Keeps-modify _ (λ w. refl))

  pub Replies-limiter_reset : (u : Text) → Replies P (limiter_reset u)
  unfolding limiter_reset
  Replies-limiter_reset u = Keeps-modify _ (λ w. refl)

  pub Replies-audit : (line : AuditLine) → Replies P (audit line)
  unfolding audit emit
  Replies-audit line = Keeps-modify _ (λ w. refl)

  pub Replies-new_buffer : (bs : Bytes) → Replies P (new_buffer bs)
  unfolding new_buffer
  Replies-new_buffer bs = record { same = λ w. refl; fails = λ w. tt }
