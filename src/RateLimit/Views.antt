-- ===== src/RateLimit/Views.antt =====
-- What one username's entry is after each operation of the limiter, and that operations on a
-- username leave the others alone.
use krb5_token_service.Prelude.{
  ℕ, ◌-◌, Text, ◌≡◌, ◌∙◌, ◌≢◌, ap, Option, none, some, arith, ltb, text_eq_refl, text_ne,
  if◌then◌else◌,
}
use krb5_token_service.Prelude.Dict
use krb5_token_service.RateLimit.{
  UsernameState, RateLimiter, Verdict, passes, limited, blank, state_of, check, fail_state,
  record_failure, reset, with_state,
}

-- The entry of a username, or a blank one.
abbrev pub view : Text → RateLimiter → UsernameState
view username r = state_of (Dict.lookup username r.state)

-- The verdict that a lock gives at a time.
abbrev pub lock_verdict : Option ℕ → ℕ → Verdict
lock_verdict none now = passes
lock_verdict (some until) now = if ltb now until then limited (until - now) else passes

-- An expired lock takes the old failures with it.
abbrev pub expire : Option ℕ → ℕ → UsernameState → UsernameState
expire none now s = s
expire (some until) now s = if ltb now until then s else blank

view-with_state : (u : Text) (s : UsernameState) (r : RateLimiter) → view u (with_state u s r) ≡ s
view-with_state u s r = ap state_of (Dict.lookup-insert u u s r.state) ∙ rw (text_eq_refl u)

view-with_state_other :
    (u v : Text) (s : UsernameState) (r : RateLimiter)
    → u ≢ v
    → view v (with_state u s r) ≡ view v r
view-with_state_other u v s r h =
    ap state_of (Dict.lookup-insert u v s r.state) ∙ rw (text_ne u v h)

pub check-verdict :
    (now : ℕ) (u : Text) (r : RateLimiter)
    → (check now u r).0 ≡ lock_verdict (view u r).locked_until now
unfolding check
check-verdict now u r = ground arith

pub view-check :
    (now : ℕ) (u : Text) (r : RateLimiter)
    → view u (check now u r).1 ≡ expire (view u r).locked_until now (view u r)
unfolding check
view-check now u r = ground (arith, view-with_state u blank r)

pub view-check_other :
    (now : ℕ) (u v : Text) (r : RateLimiter) → u ≢ v → view v (check now u r).1 ≡ view v r
unfolding check
view-check_other now u v r h = ground (arith, view-with_state_other u v blank r h)

pub view-record_failure :
    (now : ℕ) (u : Text) (r : RateLimiter)
    → view u (record_failure now u r) ≡ fail_state now r (view u r)
unfolding record_failure
view-record_failure now u r = view-with_state u _ r

pub view-record_failure_other :
    (now : ℕ) (u v : Text) (r : RateLimiter) → u ≢ v → view v (record_failure now u r) ≡ view v r
unfolding record_failure
view-record_failure_other now u v r h = view-with_state_other u v _ r h

pub view-reset : (u : Text) (r : RateLimiter) → view u (reset u r) ≡ blank
unfolding reset
view-reset u r = ap state_of (Dict.lookup-erase u u r.state) ∙ rw (text_eq_refl u)

pub view-reset_other : (u v : Text) (r : RateLimiter) → u ≢ v → view v (reset u r) ≡ view v r
unfolding reset
view-reset_other u v r h = ap state_of (Dict.lookup-erase u v r.state) ∙ rw (text_ne u v h)
