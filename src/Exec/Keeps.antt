-- ===== src/Exec/Keeps.antt =====
-- Actions that leave a part of the process's state as it is and raise only failures of some kind,
-- one rule for each way to build an action.
use krb5_token_service.Prelude.{◌≡◌, refl, ◌∙◌, Bool, true, false, if◌then◌else◌}
use krb5_token_service.Errors.{Failure, Result, ok, raised}
use krb5_token_service.World.{World}
use krb5_token_service.Exec.{
  Exec, pure, raise, lift, gets, catch, finally, modify, ◌>>=◌, continue, handle_with,
}

abbrev pub Fails : {A : Type 0} → (Failure → Type 0) → Result A → Type 0
Fails E (ok a) = Unit
Fails E (raised f) = E f

-- Whether it returns or raises, `m` leaves `part` alone; what it raises is in `E`.
pub record Keeps {B A : Type 0} (part : World → B) (E : Failure → Type 0) (m : Exec A)
    : Type 0 where
  pub same : (w : World) → part (m w).1 ≡ part w
  pub fails : (w : World) → Fails E (m w).0

module _ {B A : Type 0} {part : World → B} {E : Failure → Type 0} where
  pub Keeps-pure : (a : A) → Keeps part E (pure a)
  unfolding pure
  Keeps-pure a = record { same = λ w. refl; fails = λ w. tt }

  pub Keeps-raise : (f : Failure) → E f → Keeps part E (raise {A = A} f)
  unfolding raise
  Keeps-raise f e = record { same = λ w. refl; fails = λ w. e }

  pub Keeps-lift : (r : Result A) → Fails E r → Keeps part E (lift r)
  unfolding lift
  Keeps-lift r e = record { same = λ w. refl; fails = λ w. e }

  pub Keeps-gets : (f : World → A) → Keeps part E (gets f)
  unfolding gets
  Keeps-gets f = record { same = λ w. refl; fails = λ w. tt }

  pub Keeps-if :
      (b : Bool) (m n : Exec A)
      → Keeps part E m
      → Keeps part E n
      → Keeps part E (if b then m else n)
  Keeps-if true m n km kn = km
  Keeps-if false m n km kn = kn

  pub Keeps-finally :
      (m : Exec A) (n : World → World)
      → Keeps part E m
      → ((w : World) → part (n w) ≡ part w)
      → Keeps part E (finally m n)
  unfolding finally
  Keeps-finally m n km kn = record { same = λ w. kn (m w).1 ∙ km.same w; fails = km.fails }

  Keeps-handle :
      {D : Failure → Type 0} (h : Failure → Exec A) (r : Result A)
      → Fails D r
      → ((f : Failure) → D f → Keeps part E (h f))
      → Keeps part E (handle_with h r)
  Keeps-handle h (ok a) d k = record { same = λ w. refl; fails = λ w. tt }
  Keeps-handle h (raised f) d k = k f d

module _ {B A : Type 0} {part : World → B} {E D : Failure → Type 0} where
  pub Keeps-catch :
      (m : Exec A) (h : Failure → Exec A)
      → Keeps part D m
      → ((f : Failure) → D f → Keeps part E (h f))
      → Keeps part E (catch m h)
  unfolding catch
  Keeps-catch m h km kh = record {
    same = λ w. let (r, w') = m w in (Keeps-handle h r (km.fails w) kh).same w' ∙ km.same w;
    fails = λ w. let (r, w') = m w in (Keeps-handle h r (km.fails w) kh).fails w';
  }

  -- More failures may be allowed.
  pub Keeps-weaken : (m : Exec A) → ((f : Failure) → D f → E f) → Keeps part D m → Keeps part E m
  Keeps-weaken m sub km = record { same = km.same; fails = λ w. weaken (m w).0 (km.fails w) }
    where
      weaken : (r : Result A) → Fails D r → Fails E r
      weaken (ok a) d = tt
      weaken (raised f) d = sub f d

pub Keeps-modify :
    {B : Type 0} {part : World → B} {E : Failure → Type 0} (f : World → World)
    → ((w : World) → part (f w) ≡ part w)
    → Keeps part E (modify f)
unfolding modify
Keeps-modify f h = record { same = h; fails = λ w. tt }

module _ {B A C : Type 0} {part : World → B} {E : Failure → Type 0} where
  Keeps-continue :
      (r : Result A) (f : A → Exec C)
      → Fails E r
      → ((a : A) → Keeps part E (f a))
      → Keeps part E (continue r f)
  Keeps-continue (ok a) f e k = k a
  Keeps-continue (raised x) f e k = record { same = λ w. refl; fails = λ w. e }

  pub Keeps-bind :
      (m : Exec A) (f : A → Exec C)
      → Keeps part E m
      → ((a : A) → Keeps part E (f a))
      → Keeps part E (m >>= f)
  unfolding ◌>>=◌
  Keeps-bind m f km kf = record {
    same = λ w. let (r, w') = m w in (Keeps-continue r f (km.fails w) kf).same w' ∙ km.same w;
    fails = λ w. let (r, w') = m w in (Keeps-continue r f (km.fails w) kf).fails w';
  }

pub ruleset keeps_rules =
    (Keeps-pure, Keeps-raise, Keeps-lift, Keeps-gets, Keeps-if, Keeps-bind, Keeps-finally)
