-- ===== src/RateLimit/Attempts/Window.antt =====
-- The limiter's budget: how many wrong passwords reach the KDC within a window.
use native.Mathlib.Decide.{dec_lt}
use krb5_token_service.Prelude.{
  ℕ, ◌+◌, ◌≤◌, ◌<◌, ◌≡◌, refl, sym, ap, ◌∙◌, inl, inr, Option, none, some, List, [], ◌∷◌, ◌++◌,
  arith, ltb, leb, keep, length, All, All-append, keep-append, length-keep-le, Bool-cases,
}
use krb5_token_service.RateLimit.{UsernameState, RateLimiter, passes, blank, is_recent, fail_state}
use krb5_token_service.RateLimit.Views.{lock_verdict, expire}
use krb5_token_service.RateLimit.Attempts.Counting.{
  within, length-keep-within-le, keep-keep-recent, keep-recent-eq-nil, All-le_mono, All-add-le,
  length-keep-concat-le, length-keep-concat_of_false,
}

module _ (max w : ℕ) where
  -- What the entry remembers of the log, for every later time.
  abbrev pub Remembers : Option ℕ → ℕ → List ℕ → List ℕ → Type 0
  Remembers none now times log =
      (length times < max)
      × ((t : ℕ) → now ≤ t → keep (is_recent w t) log ≡ keep (is_recent w t) times)
  Remembers (some until) now times log = All (λ τ. τ + w ≤ until) log

  pub record Tracks (now : ℕ) (s : UsernameState) (log : List ℕ) : Type 0 where
    pub bound : (t : ℕ) → length (keep (within w t) log) ≤ max
    pub past : All (λ τ. τ ≤ now) log
    pub remembers : Remembers s.locked_until now s.failure_times log

  Remembers-later :
      (lock : Option ℕ) (now later : ℕ) (times log : List ℕ)
      → now ≤ later
      → Remembers lock now times log
      → Remembers lock later times log
  Remembers-later none now later times log h (short, same) = (short, λ t k. same t (omega arith))
  Remembers-later (some until) now later times log h m = m

  pub Tracks-later :
      (now later : ℕ) (s : UsernameState) (log : List ℕ)
      → now ≤ later
      → Tracks now s log
      → Tracks later s log
  Tracks-later now later s log h k = record {
    bound = k.bound;
    past = All-le_mono now later log k.past h;
    remembers = Remembers-later s.locked_until now later s.failure_times log h k.remembers;
  }

  module _ (pos : 0 < max) where
    pub Tracks-blank : (now : ℕ) → Tracks now blank []
    Tracks-blank now = record {
      bound = λ t. omega arith;
      past = tt;
      remembers = (pos, λ t h. refl);
    }

    -- Once its lock has expired the entry is forgotten, and rightly so.
    Remembers-blank :
        (until now : ℕ) (log : List ℕ)
        → All (λ τ. τ + w ≤ until) log
        → until ≤ now
        → Remembers none now [] log
    Remembers-blank until now log a h =
        (pos, λ t k. keep-recent-eq-nil w until t log a (omega arith))

  bound-concat :
      (now at t : ℕ) (times log : List ℕ)
      → now ≤ at
      → ((t : ℕ) → length (keep (within w t) log) ≤ max)
      → Remembers none now times log
      → length (keep (within w t) (log ++ at ∷ [])) ≤ max
  bound-concat now at t times log h bound (short, same) = elim (dec_lt t at) [
    | yes before ↦
        omega (arith, bound t, length-keep-concat_of_false (within w t) log at (ground arith))
    | no after ↦ omega (
      arith,
      length-keep-within-le w t (log ++ at ∷ []),
      length-keep-concat-le (is_recent w t) log at,
      ap length (same t (omega arith)),
      length-keep-le (is_recent w t) times,
    )
  ]

  same-concat :
      (now at t : ℕ) (times log : List ℕ)
      → now ≤ at
      → at ≤ t
      → ((t : ℕ) → now ≤ t → keep (is_recent w t) log ≡ keep (is_recent w t) times)
      → keep (is_recent w t) (log ++ at ∷ [])
        ≡ keep (is_recent w t) (keep (is_recent w at) times ++ at ∷ [])
  same-concat now at t times log h k same =
      keep-append (is_recent w t) log (at ∷ [])
      ∙ ap (λ xs. xs ++ keep (is_recent w t) (at ∷ []))
          (same t (omega arith) ∙ sym (keep-keep-recent w at t times k))
      ∙ sym (keep-append (is_recent w t) (keep (is_recent w at) times) (at ∷ []))

  -- The maximum, the window and a lockout that is no shorter than the window.
  pub record IsConfigured (r : RateLimiter) : Type 0 where
    pub attempts : r.max_attempts ≡ max
    pub window : r.window_seconds ≡ w
    pub lockout : w ≤ r.lockout_seconds

  Remembers-fail :
      (r : RateLimiter) (now at : ℕ) (s : UsernameState) (log : List ℕ)
      → IsConfigured r
      → now ≤ at
      → s.locked_until ≡ none
      → All (λ τ. τ ≤ at) (log ++ at ∷ [])
      → Remembers none now s.failure_times log
      → Remembers
          (fail_state at r s).locked_until
          at
          (fail_state at r s).failure_times
          (log ++ at ∷ [])
  unfolding fail_state
  Remembers-fail r now at s log c h open_ past (short, same) =
      rw (c.attempts, c.window)
        (elim (Bool-cases (leb max (length (keep (is_recent w at) s.failure_times ++ at ∷ [])))) [
          | inl full ↦ rw full (
              All-add-le at w (at + r.lockout_seconds) (log ++ at ∷ []) past
                (omega (arith, c.lockout)))
          | inr below ↦
              rw (below, open_)
                (ground arith, λ t k. same-concat now at t s.failure_times log h k same)
        ])

  pub Tracks-fail :
      (r : RateLimiter) (now at : ℕ) (s : UsernameState) (log : List ℕ)
      → IsConfigured r
      → now ≤ at
      → s.locked_until ≡ none
      → Tracks now s log
      → Tracks at (fail_state at r s) (log ++ at ∷ [])
  Tracks-fail r now at s log c h open_ k =
      let m : Remembers none now s.failure_times log = rw open_ at k.remembers in
      let past =
        All-append (λ τ. τ ≤ at) log (at ∷ []) (All-le_mono now at log k.past h) (omega arith) in
      record {
        bound = λ t. bound-concat now at t s.failure_times log h k.bound m;
        past = past;
        remembers = Remembers-fail r now at s log c h open_ past m;
      }

  -- What a check that passes leaves is unlocked, and tracks the same log.
  pub Tracks-expire :
      (lock : Option ℕ) (now at : ℕ) (s : UsernameState) (log : List ℕ)
      → 0 < max
      → s.locked_until ≡ lock
      → now ≤ at
      → lock_verdict lock at ≡ passes
      → Tracks now s log
      → Tracks at (expire lock at s) log × ((expire lock at s).locked_until ≡ none)
  Tracks-expire none now at s log pos e h p k = (Tracks-later now at s log h k, e)
  Tracks-expire (some until) now at s log pos e h p k = elim (Bool-cases (ltb at until)) [
    | inl held ↦ ground arith
    | inr free ↦
        let m : All (λ τ. τ + w ≤ until) log = rw e at k.remembers in
        rw free (
          record {
            bound = k.bound;
            past = All-le_mono now at log k.past h;
            remembers = Remembers-blank pos until at log m (ground arith);
          },
          refl,
        )
  ]
