-- ===== src/App/Common/Limited.antt =====
-- The check of the limiter, as the handlers make it.
use krb5_token_service.Prelude.{◌≡◌, ℕ, Text, refl}
use krb5_token_service.Errors.{http, ok, raised}
use krb5_token_service.RateLimit.{passes, limited, check}
use krb5_token_service.World.{World, Outside}
use krb5_token_service.Exec.{pure, raise, lift, gets, catch, modify, ◌>>=◌}
use krb5_token_service.System.{emit, next_tick, monotonic}
use krb5_token_service.App.Common.{
  Caller, plain_error, limited_detail, refuse, audit, check_limit, reject_limited, limiter_check,
  set_limiter, verdict_result,
}

module _ (env : Outside) (caller : Caller) (u : Text) (w : World) where
  -- A check that passes goes on with the limiter that it leaves.
  pub check_limit-passes :
      (check (env.monotonic w.ticks) u w.limiter).0 ≡ passes
      → ((check_limit env caller u w).0 ≡ ok tt)
        × ((check_limit env caller u w).1.limiter ≡ (check (env.monotonic w.ticks) u w.limiter).1)
  unfolding check_limit limiter_check set_limiter verdict_result ◌>>=◌ catch gets lift modify
      monotonic next_tick pure
  check_limit-passes h = rw h (refl, refl)

  -- One that is limited is refused with a 429.
  pub check_limit-limited :
      (t : ℕ)
      → (check (env.monotonic w.ticks) u w.limiter).0 ≡ limited t
      → ((check_limit env caller u w).0 ≡ raised (http (plain_error 429 (limited_detail env t))))
        × ((check_limit env caller u w).1.limiter ≡ (check (env.monotonic w.ticks) u w.limiter).1)
        × ((check_limit env caller u w).1.spawned ≡ w.spawned)
  unfolding check_limit limiter_check set_limiter verdict_result ◌>>=◌ catch gets lift modify
      monotonic next_tick pure reject_limited refuse audit emit raise
  check_limit-limited t h = rw h (refl, refl, refl)
