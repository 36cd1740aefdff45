-- ===== src/RateLimit/Lockout.antt =====
-- When the limiter lets a username through, and what a recorded failure does to that.
use krb5_token_service.Prelude.{
  ℕ, ◌+◌, ◌-◌, ◌≤◌, ◌<◌, Text, ◌≡◌, ◌≢◌, ◌∙◌, sym, ap, [], ◌∷◌, arith, ltb, if◌then◌else◌, keep,
  length, length-append,
}
use krb5_token_service.RateLimit.{
  UsernameState, RateLimiter, passes, limited, is_recent, check, fail_state, record_failure, reset,
}
use krb5_token_service.RateLimit.Views.{
  view, lock_verdict, check-verdict, view-record_failure, view-record_failure_other, view-reset,
  view-reset_other, view-check_other,
}

-- How many failures of the username the limiter still counts at a time.
abbrev pub recent_failures : ℕ → Text → RateLimiter → ℕ
recent_failures now u r = length (keep (is_recent r.window_seconds now) (view u r).failure_times)

fail_state-locked :
    (now later : ℕ) (r : RateLimiter) (s : UsernameState)
    → r.max_attempts ≤ length (keep (is_recent r.window_seconds now) s.failure_times) + 1
    → lock_verdict (fail_state now r s).locked_until later ≡ (
        if ltb later (now + r.lockout_seconds)
        then limited (now + r.lockout_seconds - later)
        else passes)
unfolding fail_state
fail_state-locked now later r s h =
    ground (arith, length-append (keep (is_recent r.window_seconds now) s.failure_times) (now ∷ []))

fail_state-below :
    (now later : ℕ) (r : RateLimiter) (s : UsernameState)
    → length (keep (is_recent r.window_seconds now) s.failure_times) + 1 < r.max_attempts
    → lock_verdict (fail_state now r s).locked_until later ≡ lock_verdict s.locked_until later
unfolding fail_state
fail_state-below now later r s h =
    ground (arith, length-append (keep (is_recent r.window_seconds now) s.failure_times) (now ∷ []))

-- A failure that brings the count of recent failures to the maximum locks the username: a check at
-- any time is limited, with the seconds that remain, until the lockout has passed, and
-- passes from then on.
pub check-record_failure_locked :
    (now later : ℕ) (u : Text) (r : RateLimiter)
    → r.max_attempts ≤ recent_failures now u r + 1
    → (check later u (record_failure now u r)).0 ≡ (
        if ltb later (now + r.lockout_seconds)
        then limited (now + r.lockout_seconds - later)
        else passes)
check-record_failure_locked now later u r h =
    check-verdict later u (record_failure now u r)
    ∙ ap (λ s. lock_verdict (UsernameState.locked_until s) later) (view-record_failure now u r)
    ∙ fail_state-locked now later r (view u r) h

-- A failure that stays below the maximum changes no verdict of a later check.
pub check-record_failure_below :
    (now later : ℕ) (u : Text) (r : RateLimiter)
    → recent_failures now u r + 1 < r.max_attempts
    → (check later u (record_failure now u r)).0 ≡ (check later u r).0
check-record_failure_below now later u r h =
    check-verdict later u (record_failure now u r)
    ∙ ap (λ s. lock_verdict (UsernameState.locked_until s) later) (view-record_failure now u r)
    ∙ fail_state-below now later r (view u r) h
    ∙ sym (check-verdict later u r)

-- After a reset every check of the username passes.
pub check-reset : (now : ℕ) (u : Text) (r : RateLimiter) → (check now u (reset u r)).0 ≡ passes
check-reset now u r =
    check-verdict now u (reset u r)
    ∙ ap (λ s. lock_verdict (UsernameState.locked_until s) now) (view-reset u r)

-- Operations on one username never change what a check of another one answers.
pub check_other :
    (now later : ℕ) (u v : Text) (r : RateLimiter)
    → u ≢ v
    → ((check later v (check now u r).1).0 ≡ (check later v r).0)
      × ((check later v (record_failure now u r)).0 ≡ (check later v r).0)
      × ((check later v (reset u r)).0 ≡ (check later v r).0)
check_other now later u v r h = (
  same (check now u r).1 (view-check_other now u v r h),
  same (record_failure now u r) (view-record_failure_other now u v r h),
  same (reset u r) (view-reset_other u v r h),
)
  where
    same : (r' : RateLimiter) → view v r' ≡ view v r → (check later v r').0 ≡ (check later v r).0
    same r' e =
        check-verdict later v r'
        ∙ ap (λ s. lock_verdict (UsernameState.locked_until s) later) e
        ∙ sym (check-verdict later v r)
