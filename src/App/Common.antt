-- ===== src/App/Common.antt =====
-- What the handlers of src/krb5_token_service/app.py share: the audit line, the refusal of a
-- request, the request's identity, and the limiter as the handlers call it.
pub mod Audited
pub mod Granted
pub mod Replies
pub mod Limited
pub mod Questions
pub mod Unlimited
use krb5_token_service.Prelude.{
  ℕ, ◌+◌, ◌*◌, ◌/◌, ◌%◌, Option, none, some, [], ◌++◌, if◌then◌else◌, Text, codes, ltb, ◌==◌,
  is_empty,
}
use krb5_token_service.Python.Decimal.{show}
use krb5_token_service.Errors.{
  Failure, http, HttpError, rate_limited, invalid_username, Result, ok, raised,
}
use krb5_token_service.World.{World, audited, AuditLine, Outside, ticks_per_second}
use krb5_token_service.Exec.{Exec, pure, raise, lift, gets, catch, modify, ◌>>=◌, ◌>>◌}
use krb5_token_service.Settings.{Settings}
use krb5_token_service.RateLimit
use krb5_token_service.RateLimit.{Verdict, passes, limited, RateLimiter}
use krb5_token_service.System.{emit, next_tick, monotonic}
use krb5_token_service.Minting.Names.{validate_username}
use krb5_token_service.Identity.{verify_broker_token, peek_sub, unauthorized}
use krb5_token_service.App.Requests.{Request}

abbrev pub issued : Text
issued = codes "issued"

abbrev pub denied : Text
denied = codes "denied"

abbrev pub error : Text
error = codes "error"

-- `_audit`
unfoldable pub audit : AuditLine → Exec (Unit {0})
audit line = emit (audited line)

-- `HTTPException(status_code=…, detail=…)`
abbrev pub plain_error : ℕ → Text → HttpError
plain_error status detail = record { status = status; detail = detail; headers = [] }

-- An audit line, and the `HTTPException` that ends the request.
unfoldable pub refuse : {A : Type 0} → AuditLine → HttpError → Exec A
unfolding audit
refuse line e = do audit line; raise (http e)

-- Who calls, once the token is verified: its subject and `jti`, and the request's id.
pub record Caller : Type 0 where
  pub subject : Text
  pub jti : Option Text
  pub request_id : Text

abbrev pub line_of : Caller → Option Text → Option Text → Text → AuditLine
line_of caller username principal outcome = record {
  subject = some caller.subject;
  username = username;
  principal = principal;
  jti = caller.jti;
  outcome = outcome;
  request_id = caller.request_id;
}

-- A request whose caller is not known.
abbrev pub anonymous_line : Option Text → Option Text → Text → Text → AuditLine
anonymous_line subject username outcome request_id = record {
  subject = subject;
  username = username;
  principal = none;
  jti = none;
  outcome = outcome;
  request_id = request_id;
}

abbrev pub token_outcome : HttpError → Text
token_outcome e = if e.status == 401 then denied else error

module _ (env : Outside) where
  -- `request.headers.get("x-request-id") or str(uuid.uuid4())`
  pub choose_id : Option Text → Exec Text
  choose_id none = do n ← next_tick; pure (env.uuid4 n)
  choose_id (some t) = if is_empty t then (do n ← next_tick; pure (env.uuid4 n)) else pure t

  reject_token : {A : Type 0} → Text → Option Text → Text → Failure → Exec A
  reject_token token username request_id (http e) =
      refuse (anonymous_line (some (peek_sub env token)) username (token_outcome e) request_id) e
  reject_token token username request_id f = raise f

  verified : Settings → Text → Option Text → Text → Exec Caller
  verified settings token username request_id = do
    claims ← catch (verify_broker_token env token settings) (reject_token token username request_id)
    pure (record { subject = claims.sub; jti = claims.jti; request_id = request_id })

  authenticate_token : Settings → Option Text → Option Text → Text → Exec Caller
  authenticate_token settings none username request_id =
      refuse (anonymous_line none none denied request_id) (unauthorized (codes "Not authenticated"))
  authenticate_token settings (some token) username request_id =
      verified settings token username request_id

  -- From the request's id to the claims of its token: the beginning of every handler.
  unfoldable pub authenticate : Settings → Request → Option Text → Exec Caller
  unfolding choose_id authenticate_token verified reject_token
  authenticate settings request username = do
    request_id ← choose_id request.request_id
    authenticate_token settings request.token username request_id

  reject_name : Caller → Failure → Exec (Unit {0})
  reject_name caller (invalid_username _) =
      refuse (line_of caller none none denied) (plain_error 422 (codes "invalid username"))
  reject_name caller f = raise f

  unfoldable pub check_name : Caller → Text → Exec (Unit {0})
  unfolding reject_name
  check_name caller username = catch (lift (validate_username username)) (reject_name caller)

  -- `{seconds:.0f}` of a number of nanoseconds: rounded to the nearest second, to the even one
  -- between two.
  unfoldable pub round_seconds : ℕ → ℕ
  round_seconds t =
      let q = t / ticks_per_second in
      let r = 2 * (t % ticks_per_second) in
      if ltb r ticks_per_second
      then q
      else if ltb ticks_per_second r
      then q + 1
      else if q % 2 == 0
      then q
      else q + 1

  -- `str(RateLimitedError(…))`
  unfoldable pub limited_detail : ℕ → Text
  unfolding round_seconds show
  limited_detail t =
      codes "too many failed authentication attempts; retry after "
      ++ (show (round_seconds t) ++ codes "s")

  verdict_result : Verdict → Result (Unit {0})
  verdict_result passes = ok tt
  verdict_result (limited t) = raised (rate_limited t)

  set_limiter : RateLimiter → World → World
  set_limiter r w = record w { limiter = r }

  -- `rate_limiter.check(username)`; the clock is read in every case.
  unfoldable pub limiter_check : Text → Exec (Unit {0})
  unfolding verdict_result set_limiter
  limiter_check username = do
    now ← monotonic env
    checked ← gets (λ w. RateLimit.check now username w.limiter)
    modify (set_limiter checked.1)
    lift (verdict_result checked.0)

  -- `rate_limiter.record_failure(username)`
  unfoldable pub limiter_failure : Text → Exec (Unit {0})
  limiter_failure username = do
    now ← monotonic env
    modify (λ w. record w { limiter = RateLimit.record_failure now username w.limiter })

  reject_limited : Caller → Text → Failure → Exec (Unit {0})
  reject_limited caller username (rate_limited t) =
      refuse (line_of caller (some username) none denied) (plain_error 429 (limited_detail t))
  reject_limited caller username f = raise f

  -- The check of the limiter, with its refusal.
  unfoldable pub check_limit : Caller → Text → Exec (Unit {0})
  unfolding reject_limited
  check_limit caller username = catch (limiter_check username) (reject_limited caller username)

-- `rate_limiter.reset(username)`
unfoldable pub limiter_reset : Text → Exec (Unit {0})
limiter_reset username = modify (λ w. record w { limiter = RateLimit.reset username w.limiter })
