-- ===== src/RateLimit/Overlap/Sequential.antt =====
-- An attempt that is over before another one starts is a run of the requests that overlap.
use krb5_token_service.Prelude.{ℕ, ◌≤◌, ◌<◌, ◌≡◌, refl, sym, []}
use krb5_token_service.RateLimit.{Verdict, passes, limited, check}
use krb5_token_service.RateLimit.Attempts.{Attempt, after_attempt}
use krb5_token_service.RateLimit.Attempts.Checked.{after_attempt-passes, after_attempt-limited}
use krb5_token_service.RateLimit.Overlap.{Desk, start, refuse, finish, Reach, here, later, count}

module _ (first last most : ℕ) (a : Attempt) (s : Desk) (h : first ≤ a.started)
    (h' : a.started < last) (k : first ≤ a.finished) (k' : a.finished < last)
    (room : count a.username s.in_flight < most) where
  Reach-checked :
      (v : Verdict)
      → (check a.started a.username s.limiter).0 ≡ v
      → (t : Desk) × Reach first last most s t
        × (t.limiter ≡ after_attempt a s.limiter)
        × (t.in_flight ≡ s.in_flight)
  Reach-checked passes e = (
    _,
    later (later here (start a.started a.username h h' room e refl))
        (finish a.finished a.username a.answer [] s.in_flight k k' refl refl),
    sym (after_attempt-passes a s.limiter e),
    refl,
  )
  Reach-checked (limited wait) e = (
    _,
    later here (refuse a.started a.username wait h h' e refl),
    sym (after_attempt-limited a s.limiter wait e),
    refl,
  )

  -- It leaves the limiter as the attempt does, and the other requests where they are.
  pub Reach-after_attempt :
      (t : Desk) × Reach first last most s t
      × (t.limiter ≡ after_attempt a s.limiter)
      × (t.in_flight ≡ s.in_flight)
  Reach-after_attempt = Reach-checked _ refl
