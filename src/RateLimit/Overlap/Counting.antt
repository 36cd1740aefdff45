-- ===== src/RateLimit/Overlap/Counting.antt =====
-- How often a username stands in the lists of the requests that overlap.
use krb5_token_service.Prelude.{
  ℕ, suc, ◌+◌, ◌≤◌, ◌<◌, ◌≡◌, ◌≢◌, refl, ap, ◌∙◌, not, List, [], ◌∷◌, ◌++◌, arith, if◌then◌else◌,
  Text, text_eq, text_eq_iff, keep, length, length-append, keep-append, All,
}
use krb5_token_service.RateLimit.{is_recent}
use krb5_token_service.RateLimit.Overlap.{count}

pub keep-All :
    (w now first : ℕ) (xs : List ℕ)
    → All (λ τ. first ≤ τ) xs
    → now < first + w
    → keep (is_recent w now) xs ≡ xs
keep-All w now first [] a h = refl
keep-All w now first (x ∷ xs) (p, a) h = ground (arith, keep-All w now first xs a h)

module _ (u : Text) where
  pub count-cons :
      (v : Text) (vs : List Text)
      → count u (v ∷ vs) ≡ (if text_eq v u then suc (count u vs) else count u vs)
  count-cons v vs = ground arith

  pub count-append : (xs ys : List Text) → count u (xs ++ ys) ≡ count u xs + count u ys
  count-append xs ys =
      ap length (keep-append (λ v. text_eq v u) xs ys)
      ∙ length-append (keep (λ v. text_eq v u) xs) _

  -- Taking out an element.
  pub count-middle :
      (v : Text) (xs ys : List Text)
      → count u (xs ++ v ∷ ys)
        ≡ (if text_eq v u then suc (count u (xs ++ ys)) else count u (xs ++ ys))
  count-middle v xs ys =
      ground (arith, count-append xs (v ∷ ys), count-append xs ys, count-cons v ys)

  pub count-keep_same : (vs : List Text) → count u (keep (λ w. not (text_eq w u)) vs) ≡ 0
  count-keep_same [] = refl
  count-keep_same (v ∷ vs) = ground (arith, count-keep_same vs)

  pub count-keep_other :
      (v : Text) (vs : List Text) → v ≢ u → count u (keep (λ w. not (text_eq w v)) vs) ≡ count u vs
  count-keep_other v [] h = refl
  count-keep_other v (w ∷ vs) h =
      ground (arith, count-keep_other v vs h, text_eq_iff w u, text_eq_iff w v)
