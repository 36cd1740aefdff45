-- ===== src/Prelude/Lists.antt =====
-- Lists measured by native numbers, and predicates on lists.
use Prim.Native.Nat.{ℕ, zero, suc, ◌+◌, ◌*◌, ◌≤◌, ◌<◌}
use mathlib.Core.Path.{◌≡◌, refl, ap}
use mathlib.Core.Bool.{Bool, true, false, ◌&&◌, ◌||◌}
use mathlib.Core.List.{List, [], ◌∷◌, ◌++◌}
use native.Mathlib.Decide.{dec_lt}
use native.Mathlib.Omega.{arith}
use krb5_token_service.Prelude.Tests.{if◌then◌else◌}

module _ {ℓ} {A : Type ℓ} where
  abbrev pub length : List A → ℕ
  length [] = 0
  length (x ∷ xs) = suc (length xs)

  abbrev pub is_empty : List A → Bool
  is_empty [] = true
  is_empty (x ∷ xs) = false

  abbrev pub any : (A → Bool) → List A → Bool
  any p [] = false
  any p (x ∷ xs) = p x || any p xs

  abbrev pub all : (A → Bool) → List A → Bool
  all p [] = true
  all p (x ∷ xs) = p x && all p xs

  abbrev pub replicate : ℕ → A → List A
  replicate zero a = []
  replicate (suc n) a = a ∷ replicate n a

  -- `[x for x in xs if p(x)]`
  abbrev pub keep : (A → Bool) → List A → List A
  keep p [] = []
  keep p (x ∷ xs) = let rest = keep p xs in if p x then x ∷ rest else rest

  pub length-append : (xs ys : List A) → length (xs ++ ys) ≡ length xs + length ys
  length-append [] ys = omega arith
  length-append (x ∷ xs) ys = omega (arith, length-append xs ys)

  pub length-keep-le : (p : A → Bool) (xs : List A) → length (keep p xs) ≤ length xs
  length-keep-le p [] = omega arith
  length-keep-le p (x ∷ xs) = ground (arith, length-keep-le p xs)

  pub keep-append : (p : A → Bool) (xs ys : List A) → keep p (xs ++ ys) ≡ keep p xs ++ keep p ys
  keep-append p [] ys = refl
  keep-append p (x ∷ xs) ys = ground (arith, keep-append p xs ys)

-- The sum of a measure over a list.
module _ {ℓ} {A : Type ℓ} (f : A → ℕ) where
  abbrev pub total : List A → ℕ
  total [] = 0
  total (x ∷ xs) = f x + total xs

  pub total-middle :
      (xs : List A) (x : A) (ys : List A) → total (xs ++ x ∷ ys) ≡ f x + total (xs ++ ys)
  total-middle [] x ys = refl
  total-middle (z ∷ xs) x ys = omega (arith, total-middle xs x ys)

  -- One element replaced.
  pub total-replace :
      (all xs ys : List A) (x y : A)
      → all ≡ xs ++ x ∷ ys
      → total (xs ++ y ∷ ys) + f x ≡ total all + f y
  total-replace all xs ys x y e =
      omega (arith, ap total e, total-middle xs x ys, total-middle xs y ys)

  pub total-replicate : (n : ℕ) (x : A) → total (replicate n x) ≡ n * f x
  total-replicate zero x = omega arith
  total-replicate (suc n) x = omega (arith, total-replicate n x)

  -- Where a sum is not zero, some element has a measure that is not.
  pub total-pos :
      (xs : List A)
      → 0 < total xs
      → (ys : List A) × (x : A) × (zs : List A) × (xs ≡ ys ++ x ∷ zs) × (0 < f x)
  total-pos [] h = elim h [ ]
  total-pos (x ∷ xs) h = elim (dec_lt 0 (f x)) [
    | yes here ↦ ([], x, xs, refl, here)
    | no zero_here ↦
        let (ys, y, zs, e, k) = total-pos xs (omega arith) in (x ∷ ys, y, zs, ap (λ l. x ∷ l) e, k)
  ]

module _ {ℓ κ} {A : Type ℓ} (P : A → Type κ) where
  abbrev pub All : List A → Type κ
  All [] = Unit
  All (x ∷ xs) = P x × All xs

  pub All-append : (xs ys : List A) → All xs → All ys → All (xs ++ ys)
  All-append [] ys h k = k
  All-append (x ∷ xs) ys (p, h) k = (p, All-append xs ys h k)
