-- ===== src/App/Attempts.antt =====
-- The handlers as attempts on the limiter: what a request does to it, by the answer that it gets.
use krb5_token_service.Prelude.{
  ℕ, ◌≡◌, refl, sym, ◌∙◌, ap, ◌⊎◌, inl, inr, Bool, true, false, ◌&&◌, ◌==◌, if◌then◌else◌, Text,
  codes, text_eq,
}
use krb5_token_service.Errors.{Failure, http, HttpError, Result, ok, raised}
use krb5_token_service.RateLimit.{RateLimiter, Verdict, passes, limited, check}
use krb5_token_service.RateLimit.Attempts.{Answer, wrong, right, other, settle, after_attempt}
use krb5_token_service.RateLimit.Attempts.Checked.{after_attempt-passes, after_attempt-limited}
use krb5_token_service.World.{World, AuditLine, Outside}
use krb5_token_service.Exec.{Exec, pure, raise, modify, ◌>>=◌, ◌>>◌, continue}
use krb5_token_service.Exec.Keeps.{Fails}
use krb5_token_service.Exec.Stages.{Ends, IsStage, After, Ends-raise}
use krb5_token_service.System.{emit, next_tick, monotonic}
use krb5_token_service.App.Common.{
  Caller, plain_error, limited_detail, refuse, audit, check_limit, limiter_failure, limiter_reset,
}
use krb5_token_service.App.Common.Limited.{check_limit-passes, check_limit-limited}
use krb5_token_service.App.Common.Unlimited.{limiter_of, Front, front, IsFront}
use krb5_token_service.App.Common.Replies.{IsReply, Replies}

-- The refusal of a wrong password.
unfoldable pub is_bad_password : HttpError → Bool
is_bad_password e = e.status == 400 && text_eq e.detail (codes "bad password")

-- What the answer to a request says of its password.
abbrev pub answer_of : {A : Type 0} → Result A → Answer
answer_of (ok a) = right
answer_of (raised (http e)) = if is_bad_password e then wrong else other
answer_of (raised _) = other

-- The limiter is told of the answer, at some reading of the clock.
abbrev pub Settled : Outside → Text → Answer → RateLimiter → RateLimiter → Type 0
Settled env u answer before after = (m : ℕ) × (after ≡ settle answer (env.monotonic m) u before)

abbrev pub Failed : Outside → Text → Failure → RateLimiter → RateLimiter → Type 0
Failed env u f before after = Settled env u (answer_of {A = Unit {0}} (raised f)) before after

-- A request that is refused before the limiter is asked, for a reason other than a wrong password: the
-- limiter is as it was and no child has started.
abbrev pub Refused : {A : Type 0} → Result A → World → World → Type 0
Refused r w w' = (answer_of r ≡ other) × (w'.limiter ≡ w.limiter) × (w'.spawned ≡ w.spawned)

-- The verdict at a time: the request goes on, or it is refused with a 429 and no child has started.
abbrev pub Checked : {A : Type 0} → Outside → Text → ℕ → Result A → World → World → Type 0
Checked env u now r w w' =
    ((check now u w.limiter).0 ≡ passes)
    ⊎ ((t : ℕ) × ((check now u w.limiter).0 ≡ limited t)
        × (r ≡ raised (http (plain_error 429 (limited_detail env t))))
        × (w'.spawned ≡ w.spawned))

-- A request that is refused before the limiter is asked, or is one attempt with its answer, started and
-- finished at readings of the clock.
abbrev pub Attempted : {A : Type 0} → Outside → Text → Result A → World → World → Type 0
Attempted env u r w w' =
    Refused r w w'
    ⊎ ((n : ℕ) × (m : ℕ) × (w'.limiter
          ≡ after_attempt
              (record {
                username = u;
                started = env.monotonic n;
                finished = env.monotonic m;
                answer = answer_of r;
              })
              w.limiter)
        × Checked env u (env.monotonic n) r w w')

pub record IsAttempt {A : Type 0} (env : Outside) (u : Text) (m : Exec A) : Type 0 where
  pub at : (w : World) → Attempted env u (m w).0 w (m w).1

-- A failure that does not blame the password.
abbrev pub IsOther : Failure → Type 0
IsOther f = answer_of {A = Unit {0}} (raised f) ≡ other

-- An answer that is not the refusal of a wrong password.
abbrev pub IsNoBadPassword : HttpError → Type 0
IsNoBadPassword e = is_bad_password e ≡ false

-- What follows a check that passes: the limiter is told of a wrong password where the request is
-- refused for it, and of a right one where it succeeds.
abbrev pub IsSettled : {A : Type 0} → Outside → Text → Exec A → Type 0
IsSettled env u m = Ends limiter_of (Failed env u) (Settled env u right) m

Settled-Failed :
    {A : Type 0} (env : Outside) (u : Text) (r : Result A) (before after : RateLimiter)
    → After (Failed env u) (Settled env u right) r before after
    → Settled env u (answer_of r) before after
Settled-Failed env u (ok a) before after h = h
Settled-Failed env u (raised (http e)) before after h = h
Settled-Failed env u (raised f) before after h = h

IsOther-raised : (A : Type 0) (f : Failure) → IsOther f → answer_of {A = A} (raised f) ≡ other
IsOther-raised A (http e) h = h
IsOther-raised A f h = h

IsOther-reply : (f : Failure) → IsReply IsNoBadPassword f → IsOther f
IsOther-reply (http e) h = rw h refl
IsOther-reply f h = refl

module _ {C : Type 0} (env : Outside) (u : Text) where
  Attempted-front :
      (r : Result C) (w w' w'' : World)
      → front w' ≡ front w
      → Attempted env u r w' w''
      → Attempted env u r w w''
  Attempted-front r w w' w'' e (inl (none_wrong, same, started)) =
      inl (none_wrong, same ∙ ap Front.limiter e, started ∙ ap Front.spawned e)
  Attempted-front r w w' w'' e (inr (n, m, after, inl h)) =
      inr (n, m, rw (ap Front.limiter e) at after, inl (rw (ap Front.limiter e) at h))
  Attempted-front r w w' w'' e (inr (n, m, after, inr (t, h, refused, started))) = inr (
    n,
    m,
    rw (ap Front.limiter e) at after,
    inr (t, rw (ap Front.limiter e) at h, refused, started ∙ ap Front.spawned e),
  )

module _ {A C : Type 0} (env : Outside) (u : Text) where
  IsAttempt-continue :
      (r : Result A) (f : A → Exec C) (w w' : World)
      → front w' ≡ front w
      → Fails (IsReply IsNoBadPassword) r
      → ((a : A) → IsAttempt env u (f a))
      → Attempted env u (continue r f w').0 w (continue r f w').1
  IsAttempt-continue (ok a) f w w' e h k =
      Attempted-front env u (f a w').0 w w' (f a w').1 e ((k a).at w')
  IsAttempt-continue (raised x) f w w' e h k =
      inl (IsOther-raised C x (IsOther-reply x h), ap Front.limiter e, ap Front.spawned e)

  -- A step before the check, which never blames the password.
  pub IsAttempt-bind :
      (m : Exec A) (f : A → Exec C)
      → IsFront m
      → Replies IsNoBadPassword m
      → ((a : A) → IsAttempt env u (f a))
      → IsAttempt env u (m >>= f)
  unfolding ◌>>=◌
  IsAttempt-bind m f km replies kf = record {
    at = λ w. let (r, w') = m w in IsAttempt-continue r f w w' (km.same w) (replies.fails w) kf;
  }

module _ {A : Type 0} (env : Outside) (caller : Caller) (u : Text) (rest : Exec A) where
  attempt_by :
      (w : World) (v : Verdict)
      → IsSettled env u rest
      → (check (env.monotonic w.ticks) u w.limiter).0 ≡ v
      → let out = (check_limit env caller u >> rest) w in Attempted env u out.0 w out.1
  unfolding ◌>>=◌
  attempt_by w passes k h =
      let (passed, same) = check_limit-passes env caller u w h in
      let w' = (check_limit env caller u w).1 in
      let (m, e) = Settled-Failed env u (rest w').0 _ _ (k.at w') in
      rw passed (
        inr (
          w.ticks,
          m,
          e
              ∙ ap (settle (answer_of (rest w').0) (env.monotonic m) u) same
              ∙ sym (after_attempt-passes _ w.limiter h),
          inl h,
        ))
  attempt_by w (limited t) k h =
      let (refused, same, none_started) = check_limit-limited env caller u w t h in
      rw refused (
        inr (
          w.ticks,
          0,
          same ∙ sym (after_attempt-limited _ w.limiter t h),
          inr (t, h, refl, none_started),
        ))

  -- A check of the limiter and what follows it are one attempt.
  pub IsAttempt-check_limit :
      IsSettled env u rest → IsAttempt env u (check_limit env caller u >> rest)
  IsAttempt-check_limit k = record { at = λ w. attempt_by w _ k refl }

module _ (env : Outside) (u : Text) where
  Failed-other : (f : Failure) → IsOther f → (r : RateLimiter) → Failed env u f r r
  Failed-other f h r = rw h (0, refl)

  pub IsStage-refuse :
      {A : Type 0} (line : AuditLine) (e : HttpError)
      → is_bad_password e ≡ false
      → IsStage limiter_of (Failed env u) (refuse {A = A} line e)
  unfolding refuse audit emit modify ◌>>=◌ raise
  IsStage-refuse line e h = record { at = λ w. rw h (0, refl) }

  pub IsStage-raise :
      {A : Type 0} (f : Failure) → IsOther f → IsStage limiter_of (Failed env u) (raise {A = A} f)
  IsStage-raise f h = Ends-raise _ f (Failed-other f h)

  -- The refusal of a wrong password comes after the limiter has been told.
  pub IsStage-bad_password :
      {A : Type 0} (line : AuditLine) (e : HttpError)
      → is_bad_password e ≡ true
      → IsStage limiter_of (Failed env u) (limiter_failure env u >> refuse {A = A} line e)
  unfolding limiter_failure refuse audit emit modify ◌>>=◌ raise monotonic next_tick pure
  IsStage-bad_password line e h = record { at = λ w. rw h (w.ticks, refl) }

  -- The answer after a right password: the limiter is reset.
  pub IsSettled-issued :
      {A : Type 0} (line : AuditLine) (a : A)
      → IsSettled env u (limiter_reset u >> (audit line >> pure a))
  unfolding limiter_reset audit emit modify ◌>>=◌ pure
  IsSettled-issued line a = record { at = λ w. (0, refl) }
