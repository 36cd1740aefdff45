-- ===== src/RateLimit/Overlap/Fits.antt =====
-- The entry of one username where requests overlap, against the wrong passwords seen and the requests
-- that wait.
use krb5_token_service.Prelude.{
  ℕ, suc, ◌+◌, ◌≤◌, ◌<◌, ◌≡◌, refl, inl, inr, Option, none, some, List, [], ◌∷◌, ◌++◌, arith, leb,
  keep, length, length-append, All, All-append, Bool-cases,
}
use krb5_token_service.RateLimit.{UsernameState, RateLimiter, passes, blank, is_recent, fail_state}
use krb5_token_service.RateLimit.Views.{lock_verdict, expire}
use krb5_token_service.RateLimit.Attempts.Window.{IsConfigured}
use krb5_token_service.RateLimit.Overlap.Counting.{keep-All}

module _ (max w first most : ℕ) where
  abbrev pub Holds : Option ℕ → List ℕ → ℕ → ℕ → Type 0
  Holds none times wrongs waiting =
      (length times ≡ wrongs) × (wrongs < max) × All (λ τ. first ≤ τ) times
  Holds (some until) times wrongs waiting = (first + w ≤ until) × (wrongs + waiting < max + most)

  pub record Fits (s : UsernameState) (wrongs waiting : ℕ) : Type 0 where
    pub room : waiting ≤ most
    pub holds : Holds s.locked_until s.failure_times wrongs waiting

  Holds-bound :
      (lock : Option ℕ) (times : List ℕ) (wrongs waiting : ℕ)
      → waiting ≤ most
      → Holds lock times wrongs waiting
      → wrongs + waiting < max + most
  Holds-bound none times wrongs waiting h (e, short, a) = omega arith
  Holds-bound (some until) times wrongs waiting h (late, b) = b

  pub Fits-bound :
      (s : UsernameState) (wrongs waiting : ℕ)
      → Fits s wrongs waiting
      → wrongs + waiting < max + most
  Fits-bound s wrongs waiting k =
      Holds-bound s.locked_until s.failure_times wrongs waiting k.room k.holds

  Holds-fewer :
      (lock : Option ℕ) (times : List ℕ) (wrongs waiting : ℕ)
      → Holds lock times wrongs (suc waiting)
      → Holds lock times wrongs waiting
  Holds-fewer none times wrongs waiting h = h
  Holds-fewer (some until) times wrongs waiting (late, b) = (late, omega arith)

  pub Fits-fewer :
      (s : UsernameState) (wrongs waiting : ℕ) → Fits s wrongs (suc waiting) → Fits s wrongs waiting
  Fits-fewer s wrongs waiting k = record {
    room = omega (arith, k.room);
    holds = Holds-fewer s.locked_until s.failure_times wrongs waiting k.holds;
  }

  pub Fits-blank : (waiting : ℕ) → 0 < max → waiting ≤ most → Fits blank 0 waiting
  Fits-blank waiting pos h = record { room = h; holds = (refl, pos, tt) }

  -- No lock of such an entry expires.
  pub Fits-expire :
      (lock : Option ℕ) (now : ℕ) (s : UsernameState) (wrongs waiting : ℕ)
      → s.locked_until ≡ lock
      → now < first + w
      → Fits s wrongs waiting
      → expire lock now s ≡ s
  Fits-expire none now s wrongs waiting e h k = refl
  Fits-expire (some until) now s wrongs waiting e h k =
      let m : Holds (some until) s.failure_times wrongs waiting = rw e at k.holds in ground arith

  -- A check that passes has met no lock.
  pub Fits-start :
      (lock : Option ℕ) (now : ℕ) (s : UsernameState) (wrongs waiting : ℕ)
      → s.locked_until ≡ lock
      → now < first + w
      → lock_verdict lock now ≡ passes
      → waiting < most
      → Fits s wrongs waiting
      → Fits s wrongs (suc waiting)
  Fits-start none now s wrongs waiting e h p more k = record {
    room = more;
    holds = rw e (rw e at k.holds);
  }
  Fits-start (some until) now s wrongs waiting e h p more k =
      let m : Holds (some until) s.failure_times wrongs waiting = rw e at k.holds in ground arith

  Holds-fail :
      (r : RateLimiter) (now : ℕ) (lock : Option ℕ) (s : UsernameState) (wrongs waiting : ℕ)
      → IsConfigured max w r
      → s.locked_until ≡ lock
      → first ≤ now
      → now < first + w
      → suc waiting ≤ most
      → Holds lock s.failure_times wrongs (suc waiting)
      → Holds
          (fail_state now r s).locked_until
          (fail_state now r s).failure_times
          (suc wrongs)
          waiting
  unfolding fail_state
  Holds-fail r now none s wrongs waiting c e h h' room (same, short, a) =
      rw (c.attempts, c.window, keep-All w now first s.failure_times a h')
        (elim (Bool-cases (leb max (length (s.failure_times ++ now ∷ [])))) [
          | inl full ↦ rw full (omega (arith, c.lockout), omega arith)
          | inr below ↦
              rw (below, e)
                (let n = length-append s.failure_times (now ∷ []) in
                  (
                    omega (arith, n),
                    ground (arith, n),
                    All-append (λ τ. first ≤ τ) s.failure_times (now ∷ []) a (h, tt),
                  ))
        ])
  Holds-fail r now (some until) s wrongs waiting c e h h' room (late, b) =
      elim (Bool-cases (
        leb r.max_attempts
          (length (keep (is_recent r.window_seconds now) s.failure_times ++ now ∷ [])))) [
            | inl full ↦ rw full (omega (arith, c.lockout), omega arith)
            | inr below ↦ rw (below, e) (late, omega arith)
          ]

  pub Fits-fail :
      (r : RateLimiter) (now : ℕ) (s : UsernameState) (wrongs waiting : ℕ)
      → IsConfigured max w r
      → first ≤ now
      → now < first + w
      → Fits s wrongs (suc waiting)
      → Fits (fail_state now r s) (suc wrongs) waiting
  Fits-fail r now s wrongs waiting c h h' k = record {
    room = omega (arith, k.room);
    holds = Holds-fail r now s.locked_until s wrongs waiting c refl h h' k.room k.holds;
  }
