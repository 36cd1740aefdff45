-- ===== src/RateLimit/Attempts/Counting.antt =====
-- Counting the times of a log that lie in a sliding window.
use krb5_token_service.Prelude.{
  ℕ, ◌+◌, ◌≤◌, ◌≡◌, refl, List, [], ◌∷◌, ◌++◌, arith, Bool, ◌&&◌, leb, keep, length, All,
  keep-append, length-append, false,
}
use krb5_token_service.RateLimit.{is_recent}

-- The time lies in the window that ends at `t`.
abbrev pub within : ℕ → ℕ → ℕ → Bool
within w t τ = leb τ t && is_recent w t τ

pub length-keep-within-le :
    (w t : ℕ) (xs : List ℕ) → length (keep (within w t) xs) ≤ length (keep (is_recent w t) xs)
length-keep-within-le w t [] = omega arith
length-keep-within-le w t (x ∷ xs) = ground (arith, length-keep-within-le w t xs)

-- What is recent later was recent before.
pub keep-keep-recent :
    (w now t : ℕ) (xs : List ℕ)
    → now ≤ t
    → keep (is_recent w t) (keep (is_recent w now) xs) ≡ keep (is_recent w t) xs
keep-keep-recent w now t [] h = refl
keep-keep-recent w now t (x ∷ xs) h = ground (arith, keep-keep-recent w now t xs h)

pub keep-recent-eq-nil :
    (w until t : ℕ) (xs : List ℕ)
    → All (λ τ. τ + w ≤ until) xs
    → until ≤ t
    → keep (is_recent w t) xs ≡ []
keep-recent-eq-nil w until t [] a h = refl
keep-recent-eq-nil w until t (x ∷ xs) (p, a) h = ground (arith, keep-recent-eq-nil w until t xs a h)

pub All-le_mono :
    (now later : ℕ) (xs : List ℕ) → All (λ τ. τ ≤ now) xs → now ≤ later → All (λ τ. τ ≤ later) xs
All-le_mono now later [] a h = tt
All-le_mono now later (x ∷ xs) (p, a) h = (omega arith, All-le_mono now later xs a h)

pub All-add-le :
    (now w until : ℕ) (xs : List ℕ)
    → All (λ τ. τ ≤ now) xs
    → now + w ≤ until
    → All (λ τ. τ + w ≤ until) xs
All-add-le now w until [] a h = tt
All-add-le now w until (x ∷ xs) (p, a) h = (omega arith, All-add-le now w until xs a h)

pub length-keep-concat-le :
    (p : ℕ → Bool) (xs : List ℕ) (x : ℕ) → length (keep p (xs ++ x ∷ [])) ≤ length (keep p xs) + 1
length-keep-concat-le p xs x =
    rw (keep-append p xs (x ∷ [])) (ground (arith, length-append (keep p xs) (keep p (x ∷ []))))

pub length-keep-concat_of_false :
    (p : ℕ → Bool) (xs : List ℕ) (x : ℕ)
    → p x ≡ false
    → length (keep p (xs ++ x ∷ [])) ≡ length (keep p xs)
length-keep-concat_of_false p xs x h =
    rw (keep-append p xs (x ∷ []), length-append {0} (keep p xs) (keep p (x ∷ [])), h) (omega arith)
