-- ===== src/RateLimit/Attempts/Budget.antt =====
-- The limiter's budget over a whole run of attempts.
use krb5_token_service.Prelude.{
  ℕ, ◌≤◌, ◌<◌, Text, ◌≡◌, ◌≢◌, refl, sym, ◌∙◌, inl, inr, Option, none, some, List, [], ◌∷◌, arith,
  text_eq, text_eq_iff, text_eq_refl, keep, length, Bool-cases,
}
use krb5_token_service.Prelude.Dict
use krb5_token_service.RateLimit.{
  UsernameState, RateLimiter, Verdict, passes, limited, check, record_failure, reset, new_limiter,
}
use krb5_token_service.RateLimit.Views.{
  view, lock_verdict, expire, check-verdict, view-check, view-check_other, view-record_failure,
  view-record_failure_other, view-reset, view-reset_other,
}
use krb5_token_service.RateLimit.Attempts.{
  Attempt, Answer, wrong, right, other, after_attempt, seen_by_kdc, kdc_log, InSequence, settle,
  settle_checked, after_answer, note,
}
use krb5_token_service.RateLimit.Attempts.Counting.{within}
use krb5_token_service.RateLimit.Attempts.Window.{
  Tracks, Tracks-later, Tracks-blank, Tracks-fail, Tracks-expire, IsConfigured,
}

pub IsConfigured-check :
    (max w now : ℕ) (u : Text) (r : RateLimiter)
    → IsConfigured max w r
    → IsConfigured max w (check now u r).1
unfolding check
IsConfigured-check max w now u r c = ground arith

pub IsConfigured-settle :
    (max w now : ℕ) (u : Text) (answer : Answer) (r : RateLimiter)
    → IsConfigured max w r
    → IsConfigured max w (settle answer now u r)
unfolding record_failure reset
IsConfigured-settle max w now u wrong r c = ground arith
IsConfigured-settle max w now u _ r c = ground arith

pub view-settle_other :
    (now : ℕ) (u v : Text) (answer : Answer) (r : RateLimiter)
    → u ≢ v
    → view v (settle answer now u r) ≡ view v r
view-settle_other now u v wrong r h = view-record_failure_other now u v r h
view-settle_other now u v right r h = view-reset_other u v r h
view-settle_other now u v other r h = refl

IsConfigured-settle_checked :
    (max w : ℕ) (v : Verdict) (a : Attempt) (r : RateLimiter)
    → IsConfigured max w r
    → IsConfigured max w (settle_checked v r a)
IsConfigured-settle_checked max w passes a r c =
    IsConfigured-settle max w a.finished a.username a.answer r c
IsConfigured-settle_checked max w (limited _) a r c = c

IsConfigured-after_attempt :
    (max w : ℕ) (a : Attempt) (r : RateLimiter)
    → IsConfigured max w r
    → IsConfigured max w (after_attempt a r)
unfolding after_attempt
IsConfigured-after_attempt max w a r c =
    IsConfigured-settle_checked max w _ a _ (IsConfigured-check max w a.started a.username r c)

view-settle_checked_other :
    (u : Text) (v : Verdict) (a : Attempt) (r : RateLimiter)
    → a.username ≢ u
    → view u (settle_checked v r a) ≡ view u r
view-settle_checked_other u passes a r h = view-settle_other a.finished a.username u a.answer r h
view-settle_checked_other u (limited _) a r h = refl

view-after_attempt_other :
    (u : Text) (a : Attempt) (r : RateLimiter)
    → a.username ≢ u
    → view u (after_attempt a r) ≡ view u r
unfolding after_attempt
view-after_attempt_other u a r h =
    view-settle_checked_other u _ a _ h ∙ view-check_other a.started a.username u r h

expire_of_limited :
    (lock : Option ℕ) (now seconds : ℕ) (s : UsernameState)
    → lock_verdict lock now ≡ limited seconds
    → expire lock now s ≡ s
expire_of_limited none now seconds s h = refl
expire_of_limited (some until) now seconds s h = ground arith

module _ (max w : ℕ) (pos : 0 < max) (u : Text) where
  -- An attempt of the username itself whose check has passed.
  Tracks-settle :
      (now at : ℕ) (answer : Answer) (log : List ℕ) (r : RateLimiter)
      → IsConfigured max w r
      → now ≤ at
      → (view u r).locked_until ≡ none
      → Tracks max w now (view u r) log
      → Tracks max w at (view u (settle answer at u r)) (after_answer answer at log)
  Tracks-settle now at wrong log r c h open_ k =
      rw (view-record_failure at u r) (Tracks-fail max w r now at (view u r) log c h open_ k)
  Tracks-settle now at right log r c h open_ k = rw (view-reset u r) (Tracks-blank max w pos at)
  Tracks-settle now at other log r c h open_ k = Tracks-later max w now at (view u r) log h k

  Tracks-settle_checked :
      (now : ℕ) (v : Verdict) (a : Attempt) (log : List ℕ) (r : RateLimiter)
      → IsConfigured max w r
      → a.username ≡ u
      → now ≤ a.started
      → a.started ≤ a.finished
      → (check a.started u r).0 ≡ v
      → Tracks max w now (view u r) log
      → Tracks max w a.finished (view u (settle_checked v (check a.started u r).1 a)) (note v a log)
  Tracks-settle_checked now passes a log r c e h h' p k =
      let (k', open_) =
        Tracks-expire max w (view u r).locked_until now a.started (view u r) log pos refl h
          (sym (check-verdict a.started u r) ∙ p) k in
      rw e (
        Tracks-settle a.started a.finished a.answer log (check a.started u r).1
          (IsConfigured-check max w a.started u r c) h' (rw (view-check a.started u r) open_)
          (rw (view-check a.started u r) k'))
  Tracks-settle_checked now (limited s) a log r c e h h' p k =
      rw
        (
          view-check a.started u r,
          expire_of_limited (view u r).locked_until a.started s (view u r)
              (sym (check-verdict a.started u r) ∙ p),
        )
        (Tracks-later max w now a.finished (view u r) log (omega arith) k)

  Tracks-attempt :
      (now : ℕ) (a : Attempt) (log : List ℕ) (r : RateLimiter)
      → IsConfigured max w r
      → now ≤ a.started
      → a.started ≤ a.finished
      → Tracks max w now (view u r) log
      → Tracks max w a.finished (view u (after_attempt a r)) (seen_by_kdc u a r log)
  unfolding after_attempt seen_by_kdc
  Tracks-attempt now a log r c h h' k = elim (Bool-cases (text_eq a.username u)) [
    | inl same ↦
        let e = (text_eq_iff a.username u).0 same in
        simp (e, text_eq_refl) (Tracks-settle_checked now _ a log r c e h h' refl k)
    | inr apart ↦
        rw (apart, view-after_attempt_other u a r (λ e. cc ((text_eq_iff a.username u).1 e)))
          (Tracks-later max w now a.finished (view u r) log (omega arith) k)
  ]

  kdc_log-bound :
      (now : ℕ) (attempts : List Attempt) (log : List ℕ) (r : RateLimiter)
      → IsConfigured max w r
      → InSequence now attempts
      → Tracks max w now (view u r) log
      → (t : ℕ) → length (keep (within w t) (kdc_log u attempts r log)) ≤ max
  unfolding kdc_log
  kdc_log-bound now [] log r c o k t = k.bound t
  kdc_log-bound now (a ∷ rest) log r c (h, h', o) k t =
      kdc_log-bound a.finished rest (seen_by_kdc u a r log) (after_attempt a r)
        (IsConfigured-after_attempt max w a r c) o (Tracks-attempt now a log r c h h' k) t

-- From a new limiter that allows at least one attempt and whose lockout is no shorter than its
-- window, over any sequence of attempts of any usernames, each over before the next one starts:
-- within any window of time the KDC sees at most `max_attempts` wrong passwords of a username,
-- counted since its last right password.
pub kdc_log-le-max_attempts :
    (max window lockout : ℕ) (u : Text) (start : ℕ) (attempts : List Attempt) (t : ℕ)
    → 0 < max
    → window ≤ lockout
    → InSequence start attempts
    → length (keep (within window t) (kdc_log u attempts (new_limiter max window lockout) [])) ≤ max
unfolding new_limiter Dict.lookup
kdc_log-le-max_attempts max window lockout u start attempts t pos h o =
    kdc_log-bound max window pos u start attempts [] (new_limiter max window lockout)
      (record { attempts = refl; window = refl; lockout = h }) o (Tracks-blank max window pos start)
      t
