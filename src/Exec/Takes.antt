-- ===== src/Exec/Takes.antt =====
-- How many questions an action may ask of the outside.
use krb5_token_service.Prelude.{ℕ, ◌+◌, ◌≤◌, ◌≡◌, arith, Bool, true, false, if◌then◌else◌}
use krb5_token_service.Errors.{Failure, Result, ok, raised}
use krb5_token_service.World.{World}
use krb5_token_service.Exec.{
  Exec, pure, raise, lift, gets, catch, modify, ◌>>=◌, continue, handle_with,
}

pub record Takes {A : Type 0} (k : ℕ) (m : Exec A) : Type 0 where
  pub at : (w : World) → (m w).1.ticks ≤ w.ticks + k

module _ {A : Type 0} {k : ℕ} where
  pub Takes-pure : (a : A) → Takes k (pure a)
  unfolding pure
  Takes-pure a = record { at = λ w. omega arith }

  pub Takes-raise : (f : Failure) → Takes k (raise {A = A} f)
  unfolding raise
  Takes-raise f = record { at = λ w. omega arith }

  pub Takes-lift : (r : Result A) → Takes k (lift r)
  unfolding lift
  Takes-lift r = record { at = λ w. omega arith }

  pub Takes-gets : (f : World → A) → Takes k (gets f)
  unfolding gets
  Takes-gets f = record { at = λ w. omega arith }

  pub Takes-if : (b : Bool) (m n : Exec A) → Takes k m → Takes k n → Takes k (if b then m else n)
  Takes-if true m n km kn = km
  Takes-if false m n km kn = kn

pub Takes-modify :
    {k : ℕ} (f : World → World) → ((w : World) → (f w).ticks ≡ w.ticks) → Takes k (modify f)
unfolding modify
Takes-modify f h = record { at = λ w. omega (arith, h w) }

module _ {A : Type 0} (i j : ℕ) where
  Takes-handle :
      (h : Failure → Exec A) (r : Result A)
      → ((f : Failure) → Takes j (h f))
      → Takes j (handle_with h r)
  Takes-handle h (ok a) k = record { at = λ w. omega arith }
  Takes-handle h (raised f) k = k f

  pub Takes-catch :
      (m : Exec A) (h : Failure → Exec A)
      → Takes i m
      → ((f : Failure) → Takes j (h f))
      → Takes (i + j) (catch m h)
  unfolding catch
  Takes-catch m h km kh = record {
    at = λ w. let (r, w') = m w in omega (arith, km.at w, (Takes-handle h r kh).at w');
  }

module _ {A C : Type 0} (i j : ℕ) where
  Takes-continue :
      (r : Result A) (f : A → Exec C) → ((a : A) → Takes j (f a)) → Takes j (continue r f)
  Takes-continue (ok a) f k = k a
  Takes-continue (raised e) f k = record { at = λ w. omega arith }

  pub Takes-bind :
      (m : Exec A) (f : A → Exec C)
      → Takes i m
      → ((a : A) → Takes j (f a))
      → Takes (i + j) (m >>= f)
  unfolding ◌>>=◌
  Takes-bind m f km kf = record {
    at = λ w. let (r, w') = m w in omega (arith, km.at w, (Takes-continue r f kf).at w');
  }

-- A bound may be enlarged.
pub Takes-weaken : {A : Type 0} {i k : ℕ} (m : Exec A) → i ≤ k → Takes i m → Takes k m
Takes-weaken m h km = record { at = λ w. omega (arith, km.at w) }
