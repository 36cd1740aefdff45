-- ===== src/App/Health.antt =====
-- `healthz`, `readyz` and the state that `create_app` sets up.
pub mod Ready
use krb5_token_service.Prelude.{◌*◌, Bool, true, false, not, List, [], ◌∷◌, ◌++◌, Text, codes}
use krb5_token_service.Errors.{Failure, http}
use krb5_token_service.World.{World, Outside, ticks_per_second}
use krb5_token_service.Exec.{Exec, pure, raise, catch, ◌>>=◌, ◌>>◌}
use krb5_token_service.Settings.{Settings}
use krb5_token_service.RateLimit.{RateLimiter, new_limiter}
use krb5_token_service.System.{next_tick}
use krb5_token_service.Identity.{get_jwks}
use krb5_token_service.App.Common.{plain_error}

unfoldable pub healthz : Exec Text
healthz = pure (codes "ok")

-- `"; ".join(problems)`
unfoldable pub join_problems : List Text → Text
join_problems [] = []
join_problems (p ∷ []) = p
join_problems (p ∷ q ∷ ps) = p ++ (codes "; " ++ join_problems (q ∷ ps))

abbrev problem_if : Bool → Text → List Text
problem_if false p = []
problem_if true p = p ∷ []

unreachable : Text → Failure → Exec (List Text)
unreachable problem (http e) = pure (problem ∷ [])
unreachable problem f = raise f

report : List Text → Exec Text
report [] = pure (codes "ready")
report (p ∷ ps) = raise (http (plain_error 503 (join_problems (p ∷ ps))))

module _ (env : Outside) (settings : Settings) where
  jwks_problems : Exec (List Text)
  jwks_problems =
      catch (do get_jwks env settings; pure [])
        (unreachable (codes "broker JWKS endpoint unreachable: " ++ settings.broker_jwks_url))

  unfoldable pub readyz : Exec Text
  unfolding jwks_problems unreachable report
  readyz = do
    n ← next_tick
    m ← next_tick
    keys ← jwks_problems
    report (
        problem_if (not (env.has_executable n settings.kinit_bin))
          (codes "kinit binary not found or not executable: " ++ settings.kinit_bin)
        ++ (problem_if (not (env.can_read m settings.krb5_config))
              (codes "krb5.conf not readable: " ++ settings.krb5_config)
            ++ keys))

-- The limiter that `create_app` builds from the settings, in nanoseconds.
unfoldable pub app_limiter : Settings → RateLimiter
app_limiter settings =
    new_limiter settings.failed_auth_max_attempts
      (settings.failed_auth_window_seconds * ticks_per_second)
      (settings.failed_auth_lockout_seconds * ticks_per_second)

-- The state of the process when `create_app` has run: nothing has happened yet.
unfoldable pub create_app : Settings → World
create_app settings = record {
  limiter = app_limiter settings;
  jwks_cache = [];
  buffers = [];
  dirs = [];
  spawned = [];
  log = [];
  ticks = 0;
}
