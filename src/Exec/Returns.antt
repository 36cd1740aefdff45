-- ===== src/Exec/Returns.antt =====
-- What is known of an action that returns.
use krb5_token_service.Prelude.{◌≡◌, refl, Bool, true, false, if◌then◌else◌}
use krb5_token_service.Errors.{Failure, Result, ok, raised}
use krb5_token_service.World.{World}
use krb5_token_service.Exec.{Exec, catch, ◌>>=◌, continue, handle_with}

abbrev pub IsRaised : {A : Type 0} → Result A → Type 0
IsRaised (ok a) = ⊥
IsRaised (raised f) = Unit

-- An action that raises in every state.
pub record AlwaysRaises {A : Type 0} (m : Exec A) : Type 0 where
  pub at : (w : World) → IsRaised (m w).0

IsRaised-not_ok : {A : Type 0} (r : Result A) (a : A) → IsRaised r → r ≡ ok a → ⊥
IsRaised-not_ok (ok b) a c d = c
IsRaised-not_ok (raised f) a c d = cc

pub AlwaysRaises-not_ok :
    {A : Type 0} (m : Exec A) (w : World) (a : A) → AlwaysRaises m → (m w).0 ≡ ok a → ⊥
AlwaysRaises-not_ok m w a k = IsRaised-not_ok (m w).0 a (k.at w)

module _ {A C : Type 0} where
  continue-ok :
      (r : Result A) (f : A → Exec C) (w : World) (c : C)
      → (continue r f w).0 ≡ ok c
      → (a : A) × (r ≡ ok a) × ((f a w).0 ≡ ok c)
  continue-ok (ok a) f w c h = (a, refl, h)
  continue-ok (raised e) f w c h = cc

  pub bind-ok :
      (m : Exec A) (f : A → Exec C) (w : World) (c : C)
      → ((m >>= f) w).0 ≡ ok c
      → (a : A) × ((m w).0 ≡ ok a) × ((f a (m w).1).0 ≡ ok c)
  unfolding ◌>>=◌
  bind-ok m f w c h = continue-ok (m w).0 f (m w).1 c h

  -- The same with the whole of the outcome.
  pub bind-runs :
      (m : Exec A) (f : A → Exec C) (w : World) (c : C)
      → ((m >>= f) w).0 ≡ ok c
      → (a : A) × ((m w).0 ≡ ok a) × ((m >>= f) w ≡ f a (m w).1)
  unfolding ◌>>=◌
  bind-runs m f w c h = runs (m w).0 (m w).1 h
    where
      runs :
          (r : Result A) (w' : World)
          → (continue r f w').0 ≡ ok c
          → (a : A) × (r ≡ ok a) × (continue r f w' ≡ f a w')
      runs (ok a) w' e = (a, refl, refl)
      runs (raised x) w' e = cc

  pub AlwaysRaises-bind :
      (m : Exec A) (f : A → Exec C) → ((a : A) → AlwaysRaises (f a)) → AlwaysRaises (m >>= f)
  unfolding ◌>>=◌
  AlwaysRaises-bind m f k = record { at = λ w. go (m w).0 (m w).1 }
    where
      go : (r : Result A) (w' : World) → IsRaised (continue r f w').0
      go (ok a) w' = (k a).at w'
      go (raised e) w' = tt

module _ {A : Type 0} where
  handle-ok :
      (h : Failure → Exec A) (r : Result A) (w : World) (a : A)
      → ((f : Failure) → AlwaysRaises (h f))
      → (handle_with h r w).0 ≡ ok a
      → (r ≡ ok a) × ((handle_with h r w).1 ≡ w)
  handle-ok h (ok b) w a k e = (e, refl)
  handle-ok h (raised f) w a k e = absurd (AlwaysRaises-not_ok (h f) w a (k f) e)

  pub catch-ok :
      (m : Exec A) (h : Failure → Exec A) (w : World) (a : A)
      → ((f : Failure) → AlwaysRaises (h f))
      → (catch m h w).0 ≡ ok a
      → ((m w).0 ≡ ok a) × ((catch m h w).1 ≡ (m w).1)
  unfolding catch
  catch-ok m h w a k e = handle-ok h (m w).0 (m w).1 a k e

  -- Of two branches, one of which always raises, the other one has been taken.
  pub if-ok :
      (b : Bool) (m n : Exec A) (w : World) (a : A)
      → AlwaysRaises m
      → ((if b then m else n) w).0 ≡ ok a
      → (b ≡ false) × ((if b then m else n) w ≡ n w)
  if-ok true m n w a k e = absurd (AlwaysRaises-not_ok m w a k e)
  if-ok false m n w a k e = (refl, refl)
