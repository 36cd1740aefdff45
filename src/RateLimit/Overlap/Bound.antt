-- ===== src/RateLimit/Overlap/Bound.antt =====
-- How many wrong passwords reach the KDC where requests overlap.
use krb5_token_service.Prelude.{
  ℕ, suc, ◌+◌, ◌≤◌, ◌<◌, ◌≡◌, ◌≢◌, refl, sym, ◌∙◌, inl, inr, List, ◌∷◌, ◌++◌, arith, if◌then◌else◌,
  Text, text_eq, text_eq_iff, text_eq_refl, text_ne, Bool-cases,
}
use krb5_token_service.Prelude.Dict
use krb5_token_service.RateLimit.{RateLimiter, passes, check, new_limiter}
use krb5_token_service.RateLimit.Views.{
  view, check-verdict, view-check, view-check_other, view-record_failure, view-reset,
}
use krb5_token_service.RateLimit.Attempts.{Answer, wrong, right, other, settle}
use krb5_token_service.RateLimit.Attempts.Window.{IsConfigured}
use krb5_token_service.RateLimit.Attempts.Budget.{
  IsConfigured-check, IsConfigured-settle, view-settle_other,
}
use krb5_token_service.RateLimit.Overlap.{
  Desk, Step, start, refuse, finish, Reach, here, later, count, seen_after, opened,
}
use krb5_token_service.RateLimit.Overlap.Counting.{
  count-cons, count-middle, count-keep_same, count-keep_other,
}
use krb5_token_service.RateLimit.Overlap.Fits.{
  Fits, Fits-bound, Fits-fewer, Fits-blank, Fits-expire, Fits-start, Fits-fail,
}

module _ (max w first most : ℕ) (u : Text) (pos : 0 < max) where
  abbrev FitsCount : Desk → Type 0
  FitsCount s =
      IsConfigured max w s.limiter
      × Fits max w first most (view u s.limiter) (count u s.seen) (count u s.in_flight)

  -- The request of the username itself ends.
  Fits-settle :
      (now : ℕ) (answer : Answer) (r : RateLimiter) (seen : List Text) (waiting : ℕ)
      → IsConfigured max w r
      → first ≤ now
      → now < first + w
      → Fits max w first most (view u r) (count u seen) (suc waiting)
      → Fits max w first most
          (view u (settle answer now u r))
          (count u (seen_after answer u seen))
          waiting
  Fits-settle now wrong r seen waiting c h h' k =
      rw (view-record_failure now u r, count-cons u u seen, text_eq_refl u)
        (Fits-fail max w first most r now (view u r) (count u seen) waiting c h h' k)
  Fits-settle now right r seen waiting c h h' k =
      rw (view-reset u r, count-keep_same u seen)
        (Fits-blank max w first most waiting pos (omega (arith, k.room)))
  Fits-settle now other r seen waiting c h h' k =
      Fits-fewer max w first most (view u r) (count u seen) waiting k

  count-seen_after_other :
      (answer : Answer) (v : Text) (seen : List Text)
      → v ≢ u
      → count u (seen_after answer v seen) ≡ count u seen
  count-seen_after_other wrong v seen h = count-cons u v seen ∙ rw (text_ne v u h)
  count-seen_after_other right v seen h = count-keep_other u v seen h
  count-seen_after_other other v seen h = refl

  Fits-check :
      (now : ℕ) (v : Text) (r : RateLimiter) (wrongs waiting : ℕ)
      → now < first + w
      → Fits max w first most (view u r) wrongs waiting
      → view u (check now v r).1 ≡ view u r
  Fits-check now v r wrongs waiting h k = elim (Bool-cases (text_eq v u)) [
    | inl same ↦ rw ((text_eq_iff v u).0 same) (
        view-check now u r
        ∙ Fits-expire max w first most (view u r).locked_until now (view u r) wrongs waiting refl h
            k)
    | inr apart ↦ view-check_other now v u r (λ e. cc ((text_eq_iff v u).1 e))
  ]

  FitsCount-start :
      (last now : ℕ) (v : Text) (s : Desk)
      → now < first + w
      → count v s.in_flight < most
      → (check now v s.limiter).0 ≡ passes
      → FitsCount s
      → Fits max w first most (view u s.limiter) (count u s.seen) (count u (v ∷ s.in_flight))
  FitsCount-start last now v s h more p (c, k) = elim (Bool-cases (text_eq v u)) [
    | inl same ↦
        let e = (text_eq_iff v u).0 same in
        rw (count-cons u v s.in_flight, same)
          (Fits-start max w first most (view u s.limiter).locked_until now (view u s.limiter)
            (count u s.seen) (count u s.in_flight) refl h
            (sym (check-verdict now u s.limiter) ∙ rw e at p) (rw e at more) k)
    | inr apart ↦ rw (count-cons u v s.in_flight, apart) k
  ]

  FitsCount-finish :
      (now : ℕ) (v : Text) (answer : Answer) (xs ys : List Text) (s : Desk)
      → first ≤ now
      → now < first + w
      → s.in_flight ≡ xs ++ v ∷ ys
      → FitsCount s
      → Fits max w first most
          (view u (settle answer now v s.limiter))
          (count u (seen_after answer v s.seen))
          (count u (xs ++ ys))
  FitsCount-finish now v answer xs ys s h h' e (c, k) =
      let k' : Fits max w first most (view u s.limiter) (count u s.seen)
          (if text_eq v u then suc (count u (xs ++ ys)) else count u (xs ++ ys)) =
        rw (e, count-middle u v xs ys) at k in
      elim (Bool-cases (text_eq v u)) [
        | inl same ↦
            rw ((text_eq_iff v u).0 same)
              (Fits-settle now answer s.limiter s.seen (count u (xs ++ ys)) c h h' (rw same at k'))
        | inr apart ↦
            let ne : v ≢ u = λ e. cc ((text_eq_iff v u).1 e) in
            rw
              (
                view-settle_other now v u answer s.limiter ne,
                count-seen_after_other answer v s.seen ne,
              )
              (rw apart at k')
      ]

  FitsCount-step :
      (last : ℕ) (s t : Desk)
      → last ≤ first + w
      → Step first last most s t
      → FitsCount s
      → FitsCount t
  FitsCount-step last s t d (start now v h h' more p e) k =
      let n : now < first + w = omega arith in
      rw e (
        IsConfigured-check max w now v s.limiter k.0,
        rw (Fits-check now v s.limiter (count u s.seen) (count u s.in_flight) n k.1)
            (FitsCount-start last now v s n more p k),
      )
  FitsCount-step last s t d (refuse now v wait h h' p e) k = rw e (
    IsConfigured-check max w now v s.limiter k.0,
    rw (Fits-check now v s.limiter (count u s.seen) (count u s.in_flight) (omega arith) k.1) k.1,
  )
  FitsCount-step last s t d (finish now v answer xs ys h h' split e) k = rw e (
    IsConfigured-settle max w now v answer s.limiter k.0,
    FitsCount-finish now v answer xs ys s h (omega arith) split k,
  )

  FitsCount-Reach :
      {last : ℕ} {s t : Desk}
      → last ≤ first + w
      → Reach first last most s t
      → FitsCount s
      → FitsCount t
  FitsCount-Reach d here k = k
  FitsCount-Reach d (later run step) k = FitsCount-step _ _ _ d step (FitsCount-Reach d run k)

-- From a new limiter that allows at least one attempt and whose lockout is no shorter than its
-- window, over every interleaving of requests within one window of time, where at most `most`
-- requests of a username wait for their child at once: the wrong passwords of a username that the
-- KDC has seen since its last right one, with the passwords that it may still be judging, are fewer
-- than `max_attempts` and `most` together.
pub seen-lt-Reach :
    (max window lockout first last most : ℕ) (u : Text) (s : Desk)
    → 0 < max
    → window ≤ lockout
    → last ≤ first + window
    → Reach first last most (opened (new_limiter max window lockout)) s
    → count u s.seen + count u s.in_flight < max + most
unfolding new_limiter Dict.lookup
seen-lt-Reach max window lockout first last most u s pos h d run =
    let k = FitsCount-Reach max window first most u pos d run (
      record { attempts = refl; window = refl; lockout = h },
      Fits-blank max window first most 0 pos (omega arith),
    ) in
    Fits-bound max window first most (view u s.limiter) (count u s.seen) (count u s.in_flight) k.1
