-- ===== src/RateLimit/Overlap.antt =====
-- Requests that overlap, as the event loop of src/krb5_token_service/app.py interleaves them: between
-- the check of the limiter and its answer, a request waits for its child in an executor, and others
-- run. What stands between two waits happens at once.
pub mod Counting
pub mod Fits
pub mod Bound
pub mod Sequential
use krb5_token_service.Prelude.{
  ℕ, ◌+◌, ◌≤◌, ◌<◌, ◌≡◌, Bool, not, List, [], ◌∷◌, ◌++◌, if◌then◌else◌, Text, text_eq, keep, length,
}
use krb5_token_service.RateLimit.{RateLimiter, passes, limited, check}
use krb5_token_service.RateLimit.Attempts.{Answer, wrong, right, other, settle}

-- How often a username stands in a list.
abbrev pub count : Text → List Text → ℕ
count u vs = length (keep (λ v. text_eq v u) vs)

-- The limiter, the usernames of the requests that wait for a child, and those of the wrong passwords
-- that the KDC has seen since the last right one of the same username.
pub record Desk : Type 0 where
  pub limiter : RateLimiter
  pub in_flight : List Text
  pub seen : List Text

abbrev pub seen_after : Answer → Text → List Text → List Text
seen_after wrong v seen = v ∷ seen
seen_after right v seen = keep (λ w. not (text_eq w v)) seen
seen_after other v seen = seen

-- One step of one request, at a time from `first` on and before `last`, where at most `most` requests
-- of a username wait at once.
pub data Step (first last most : ℕ) (s : Desk) (t : Desk) : Type 0 where
  -- A check that passes: a child is started.
  start :
      (now : ℕ) (v : Text)
      → first ≤ now
      → now < last
      → count v s.in_flight < most
      → (check now v s.limiter).0 ≡ passes
      → t
        ≡ record { limiter = (check now v s.limiter).1; in_flight = v ∷ s.in_flight; seen = s.seen }
      → Step first last most s t
  -- A check that refuses the request.
  refuse :
      (now : ℕ) (v : Text) (wait : ℕ)
      → first ≤ now
      → now < last
      → (check now v s.limiter).0 ≡ limited wait
      → t ≡ record s { limiter = (check now v s.limiter).1 }
      → Step first last most s t
  -- A child has ended, and the limiter is told.
  finish :
      (now : ℕ) (v : Text) (answer : Answer) (xs ys : List Text)
      → first ≤ now
      → now < last
      → s.in_flight ≡ xs ++ v ∷ ys
      → t ≡ record {
        limiter = settle answer now v s.limiter;
        in_flight = xs ++ ys;
        seen = seen_after answer v s.seen;
      }
      → Step first last most s t

pub data Reach (first last most : ℕ) (s : Desk) : Desk → Type 0 where
  here : Reach first last most s s
  later :
      {t u : Desk}
      → Reach first last most s t
      → Step first last most t u
      → Reach first last most s u

-- No request has come yet.
abbrev pub opened : RateLimiter → Desk
opened r = record { limiter = r; in_flight = []; seen = [] }
