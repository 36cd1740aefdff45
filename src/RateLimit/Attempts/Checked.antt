-- ===== src/RateLimit/Attempts/Checked.antt =====
-- An attempt by what its check answers.
use krb5_token_service.Prelude.{ℕ, ◌≡◌}
use krb5_token_service.RateLimit.{RateLimiter, passes, limited, check}
use krb5_token_service.RateLimit.Attempts.{Attempt, settle, after_attempt}

pub after_attempt-passes :
    (a : Attempt) (r : RateLimiter)
    → (check a.started a.username r).0 ≡ passes
    → after_attempt a r ≡ settle a.answer a.finished a.username (check a.started a.username r).1
unfolding after_attempt
after_attempt-passes a r h = rw h

pub after_attempt-limited :
    (a : Attempt) (r : RateLimiter) (t : ℕ)
    → (check a.started a.username r).0 ≡ limited t
    → after_attempt a r ≡ (check a.started a.username r).1
unfolding after_attempt
after_attempt-limited a r t h = rw h
