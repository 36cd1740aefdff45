-- ===== src/Tests/Overlaps.antt =====
-- Requests that overlap, at concrete interleavings.
use krb5_token_service.Prelude.{◌≡◌, ◌+◌, ◌<◌, refl, arith, [], ◌∷◌, Text, codes, text_eq}
use krb5_token_service.Prelude.Dict
use krb5_token_service.RateLimit.{new_limiter, check}
use krb5_token_service.RateLimit.Attempts.{wrong, settle}
use krb5_token_service.RateLimit.Overlap.{Desk, start, finish, Reach, here, later, opened, count}
use krb5_token_service.RateLimit.Overlap.Bound.{seen-lt-Reach}

abbrev user : Text
user = codes "u"

-- Three requests have passed the check before the first wrong password comes back.
abbrev three_wait : Desk
three_wait = record (opened (new_limiter 2 100 100)) { in_flight = user ∷ user ∷ user ∷ [] }

three_start : Reach 0 100 3 (opened (new_limiter 2 100 100)) three_wait
unfolding new_limiter check Dict.lookup text_eq
three_start =
    later
      (later (later here (start 1 user (omega arith) (omega arith) (omega arith) refl refl))
        (start 2 user (omega arith) (omega arith) (omega arith) refl refl))
      (start 3 user (omega arith) (omega arith) (omega arith) refl refl)

-- The first two locked the username, and the third was on its way.
abbrev two_failed : Desk
two_failed = record {
  limiter = settle wrong 5 user (settle wrong 4 user (new_limiter 2 100 100));
  in_flight = user ∷ [];
  seen = user ∷ user ∷ [];
}

two_fail : Reach 0 100 3 (opened (new_limiter 2 100 100)) two_failed
unfolding new_limiter
two_fail =
    later
      (later three_start
        (finish 4 user wrong [] (user ∷ user ∷ []) (omega arith) (omega arith) refl refl))
      (finish 5 user wrong [] (user ∷ []) (omega arith) (omega arith) refl refl)

seen-lt-Reach_example : count user two_failed.seen + count user two_failed.in_flight < 2 + 3
seen-lt-Reach_example =
    seen-lt-Reach 2 100 100 0 100 3 user two_failed (omega arith) (omega arith) (omega arith)
      two_fail

-- All three are wrong, and the KDC has seen one more than the limiter's two.
abbrev three_failed : Desk
three_failed = record {
  limiter = settle wrong 6 user two_failed.limiter;
  in_flight = [];
  seen = user ∷ user ∷ user ∷ [];
}

three_fail : Reach 0 100 3 (opened (new_limiter 2 100 100)) three_failed
three_fail = later two_fail (finish 6 user wrong [] [] (omega arith) (omega arith) refl refl)

three_seen : count user three_failed.seen ≡ 3
unfolding text_eq
three_seen = refl
