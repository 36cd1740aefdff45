-- ===== src/App/Blocked.antt =====
-- A username that is locked: no child is started for it.
use krb5_token_service.Prelude.{ℕ, ◌+◌, ◌≤◌, ◌≡◌, ◌∙◌, ap, arith, Text}
use krb5_token_service.Errors.{Result, ok, raised}
use krb5_token_service.RateLimit.{RateLimiter, limited, check}
use krb5_token_service.World.{World, Outside}
use krb5_token_service.Exec.{Exec, ◌>>=◌, ◌>>◌, continue}
use krb5_token_service.Exec.Takes.{Takes}
use krb5_token_service.Exec.Returns.{IsRaised}
use krb5_token_service.App.Common.{Caller, check_limit}
use krb5_token_service.App.Common.Limited.{check_limit-limited}
use krb5_token_service.App.Common.Unlimited.{Front, front, IsFront}

-- From every state with the limiter in which the question `last` has not come up, though it may after
-- `before` more of them, the action raises and starts no child.
pub record IsBlocked {A : Type 0} (r : RateLimiter) (last before : ℕ) (m : Exec A) : Type 0 where
  pub at :
      (w : World)
      → w.limiter ≡ r
      → w.ticks + before ≤ last
      → IsRaised (m w).0 × ((m w).1.spawned ≡ w.spawned)

module _ {A C : Type 0} (r : RateLimiter) (last i j : ℕ) where
  IsBlocked-continue :
      (x : Result A) (f : A → Exec C) (w' w : World)
      → front w' ≡ front w
      → w.limiter ≡ r
      → w'.ticks + j ≤ last
      → ((a : A) → IsBlocked r last j (f a))
      → IsRaised (continue x f w').0 × ((continue x f w').1.spawned ≡ w.spawned)
  IsBlocked-continue (ok a) f w' w same h t k =
      let (is_raised, none_started) = (k a).at w' (ap Front.limiter same ∙ h) t in
      (is_raised, none_started ∙ ap Front.spawned same)
  IsBlocked-continue (raised e) f w' w same h t k = (tt, ap Front.spawned same)

  pub IsBlocked-bind :
      (m : Exec A) (f : A → Exec C)
      → IsFront m
      → Takes i m
      → ((a : A) → IsBlocked r last j (f a))
      → IsBlocked r last (i + j) (m >>= f)
  unfolding ◌>>=◌
  IsBlocked-bind m f km takes kf = record {
    at = λ w h t.
        let (x, w') = m w in
        IsBlocked-continue x f w' w (km.same w) h (omega (arith, takes.at w)) kf;
  }

-- Every reading of the clock up to a question finds the username limited.
abbrev pub IsLocked : Outside → Text → RateLimiter → ℕ → Type 0
IsLocked env u r last = (n : ℕ) → n ≤ last → (t : ℕ) × ((check (env.monotonic n) u r).0 ≡ limited t)

pub IsBlocked-check_limit :
    {A : Type 0} (env : Outside) (caller : Caller) (u : Text) (r : RateLimiter) (last : ℕ)
    (rest : Exec A)
    → IsLocked env u r last
    → IsBlocked r last 0 (check_limit env caller u >> rest)
unfolding ◌>>=◌
IsBlocked-check_limit env caller u r last rest locked = record {
  at = λ w h k.
      let (t, at_t) = locked w.ticks (omega arith) in
      let (refused, _, none_started) =
        check_limit-limited env caller u w t
          (ap (λ x. (check (env.monotonic w.ticks) u x).0) h ∙ at_t) in
      rw refused (tt, none_started);
}
