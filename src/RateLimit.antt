-- ===== src/RateLimit.antt =====
-- src/krb5_token_service/ratelimit.py: the per-username limiter of failed authentications.
-- Times are counts of a fixed clock tick; the clock's reading is the argument `now`.
pub mod Views
pub mod Lockout
pub mod Attempts
pub mod Overlap
use krb5_token_service.Prelude.{
  ℕ, ◌+◌, ◌-◌, Text, Option, none, some, List, [], ◌∷◌, ◌++◌, Bool, ltb, leb, if◌then◌else◌, keep,
  length,
}
use krb5_token_service.Prelude.Dict
use krb5_token_service.Prelude.Dict.{Dict}

-- `_UsernameState`
pub record UsernameState : Type 0 where
  pub failure_times : List ℕ
  pub locked_until : Option ℕ

pub record RateLimiter : Type 0 where
  pub max_attempts : ℕ
  pub window_seconds : ℕ
  pub lockout_seconds : ℕ
  pub state : Dict UsernameState

-- `RateLimitedError` with its `retry_after_seconds`, or a return.
pub data Verdict : Type 0 where
  passes : Verdict
  limited : ℕ → Verdict

-- `RateLimiter.__init__`
unfoldable pub new_limiter : ℕ → ℕ → ℕ → RateLimiter
new_limiter max_attempts window lockout = record {
  max_attempts = max_attempts;
  window_seconds = window;
  lockout_seconds = lockout;
  state = [];
}

abbrev blank : UsernameState
blank = record { failure_times = []; locked_until = none }

abbrev pub with_state : Text → UsernameState → RateLimiter → RateLimiter
with_state username s r = record r { state = Dict.insert username s r.state }

-- `check` once the username is known to have a lock.
check_lock : ℕ → ℕ → Text → UsernameState → RateLimiter → Verdict × RateLimiter
check_lock until now username s r =
    if ltb now until
    then (limited (until - now), r)
    else (passes, with_state username (record s { locked_until = none; failure_times = [] }) r)

check_state : Option UsernameState → ℕ → Text → RateLimiter → Verdict × RateLimiter
check_state none now username r = (passes, r)
check_state (some s) now username r = elim s.locked_until [
  | none ↦ (passes, r)
  | some until ↦ check_lock until now username s r
]

unfoldable pub check : ℕ → Text → RateLimiter → Verdict × RateLimiter
unfolding check_state check_lock
check now username r = check_state (Dict.lookup username r.state) now username r

-- `now - t < window`, with no subtraction.
abbrev pub is_recent : ℕ → ℕ → ℕ → Bool
is_recent window now t = ltb now (window + t)

-- `setdefault`: the stored state, or a blank one.
abbrev pub state_of : Option UsernameState → UsernameState
state_of none = blank
state_of (some s) = s

-- The state that `record_failure` leaves for the username.
unfoldable pub fail_state : ℕ → RateLimiter → UsernameState → UsernameState
fail_state now r s =
    let times = keep (is_recent r.window_seconds now) s.failure_times ++ now ∷ [] in
    record {
      failure_times = times;
      locked_until =
          if leb r.max_attempts (length times)
          then some (now + r.lockout_seconds)
          else s.locked_until;
    }

unfoldable pub record_failure : ℕ → Text → RateLimiter → RateLimiter
unfolding fail_state
record_failure now username r =
    with_state username (fail_state now r (state_of (Dict.lookup username r.state))) r

unfoldable pub reset : Text → RateLimiter → RateLimiter
reset username r = record r { state = Dict.erase username r.state }
