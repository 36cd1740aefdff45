-- ===== src/RateLimit/Attempts.antt =====
-- A sequence of password attempts, each of which is over before the next one starts, as the mint
-- and keytab handlers of src/krb5_token_service/app.py run them against one limiter: a check, then
-- CERN's answer, then the limiter told of a wrong or a right password.
pub mod Counting
pub mod Window
pub mod Budget
pub mod Checked
use krb5_token_service.Prelude.{ℕ, ◌≤◌, Text, List, [], ◌∷◌, ◌++◌, if◌then◌else◌, text_eq}
use krb5_token_service.RateLimit.{
  RateLimiter, Verdict, passes, limited, check, record_failure, reset,
}

-- What CERN's KDC would answer; `other` is any failure that is not a wrong password.
pub data Answer : Type 0 where
  wrong right other : Answer

pub record Attempt : Type 0 where
  pub username : Text
  pub started : ℕ
  pub finished : ℕ
  pub answer : Answer

abbrev pub settle : Answer → ℕ → Text → RateLimiter → RateLimiter
settle wrong now u r = record_failure now u r
settle right now u r = reset u r
settle other now u r = r

-- The limiter after an attempt. A limited one goes no further than the check.
abbrev settle_checked : Verdict → RateLimiter → Attempt → RateLimiter
settle_checked (limited _) r a = r
settle_checked passes r a = settle a.answer a.finished a.username r

unfoldable pub after_attempt : Attempt → RateLimiter → RateLimiter
after_attempt a r = let (v, r') = check a.started a.username r in settle_checked v r' a

-- The times of the wrong passwords that reached the KDC for a username since its last right one.
abbrev pub after_answer : Answer → ℕ → List ℕ → List ℕ
after_answer wrong now log = log ++ now ∷ []
after_answer right now log = []
after_answer other now log = log

abbrev pub note : Verdict → Attempt → List ℕ → List ℕ
note (limited _) a log = log
note passes a log = after_answer a.answer a.finished log

unfoldable pub seen_by_kdc : Text → Attempt → RateLimiter → List ℕ → List ℕ
seen_by_kdc u a r log =
    if text_eq a.username u then note (check a.started a.username r).0 a log else log

-- The wrong passwords that the KDC has seen after a run, added to those before.
unfoldable pub kdc_log : Text → List Attempt → RateLimiter → List ℕ → List ℕ
unfolding after_attempt seen_by_kdc
kdc_log u [] r log = log
kdc_log u (a ∷ rest) r log = kdc_log u rest (after_attempt a r) (seen_by_kdc u a r log)

-- Each attempt starts when the one before it has finished.
abbrev pub InSequence : ℕ → List Attempt → Type 0
InSequence now [] = Unit
InSequence now (a ∷ rest) =
    (now ≤ a.started) × (a.started ≤ a.finished) × InSequence a.finished rest
