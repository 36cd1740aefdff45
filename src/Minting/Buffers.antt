-- ===== src/Minting/Buffers.antt =====
-- The mutable buffers that hold secrets, and `_zero_bytearray` of
-- src/krb5_token_service/minting.py. A `bytearray` is known by its position among the buffers.
use krb5_token_service.Prelude.{
  ℕ, zero, suc, ◌≡◌, refl, ap, ◌∙◌, sym, List, [], ◌∷◌, ◌++◌, length, replicate,
}
use krb5_token_service.Python.Utf8.{Bytes}

-- `xs[i] = v`
unfoldable pub set {ℓ} : {A : Type ℓ} → List A → ℕ → A → List A
set [] i v = []
set (x ∷ xs) zero v = v ∷ xs
set (x ∷ xs) (suc i) v = x ∷ set xs i v

-- The rounds left of `for i in range(len(buf)): buf[i] = 0`, from the index `i`.
zero_rest : ℕ → ℕ → Bytes → Bytes
zero_rest zero i buf = buf
zero_rest (suc rounds) i buf = zero_rest rounds (suc i) (set buf i 0)

unfoldable pub zero_bytearray : Bytes → Bytes
unfolding zero_rest set
zero_bytearray buf = zero_rest (length buf) 0 buf

set-append : (xs ys : Bytes) (y v : ℕ) → set (xs ++ y ∷ ys) (length xs) v ≡ xs ++ v ∷ ys
unfolding set
set-append [] ys y v = refl
set-append (x ∷ xs) ys y v = ap (◌∷◌ x) (set-append xs ys y v)

replicate-suc :
    (n : ℕ) (ys : Bytes) → replicate {A = ℕ} n 0 ++ 0 ∷ ys ≡ replicate {A = ℕ} (suc n) 0 ++ ys
replicate-suc zero ys = refl
replicate-suc (suc n) ys = ap (◌∷◌ 0) (replicate-suc n ys)

length-replicate : (n : ℕ) → length (replicate {A = ℕ} n 0) ≡ n
length-replicate zero = refl
length-replicate (suc n) = ap suc (length-replicate n)

zero_rest_lem :
    (n : ℕ) (rest : Bytes)
    → zero_rest (length rest) n (replicate {A = ℕ} n 0 ++ rest)
      ≡ replicate {A = ℕ} n 0 ++ replicate {A = ℕ} (length rest) 0
unfolding zero_rest
zero_rest_lem n [] = refl
zero_rest_lem n (b ∷ rest) =
    let one_round : set (replicate {A = ℕ} n 0 ++ b ∷ rest) n 0
        ≡ replicate {A = ℕ} (suc n) 0 ++ rest =
      ap (λ k. set (replicate {A = ℕ} n 0 ++ b ∷ rest) k 0) (sym (length-replicate n))
      ∙ set-append (replicate {A = ℕ} n 0) rest b 0
      ∙ replicate-suc n rest in
    ap (zero_rest (length rest) (suc n)) one_round
    ∙ zero_rest_lem (suc n) rest
    ∙ sym (replicate-suc n (replicate {A = ℕ} (length rest) 0))

-- The loop overwrites every byte of the buffer, and keeps its length.
pub zero_bytearray_lem : (buf : Bytes) → zero_bytearray buf ≡ replicate {A = ℕ} (length buf) 0
unfolding zero_bytearray
zero_bytearray_lem buf = zero_rest_lem 0 buf
