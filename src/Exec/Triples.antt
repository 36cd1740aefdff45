-- ===== src/Exec/Triples.antt =====
-- What an action does to a part of the state from a precondition: `Q` holds where it returns, and `R`
-- where it raises.
use krb5_token_service.Prelude.{◌≡◌, refl, sym, subst, Bool, true, false, if◌then◌else◌}
use krb5_token_service.Errors.{Failure, Result, ok, raised}
use krb5_token_service.World.{World}
use krb5_token_service.Exec.{
  Exec, pure, raise, catch, finally, gets, modify, ◌>>=◌, continue, handle_with,
}
use krb5_token_service.Exec.Keeps.{Keeps}

module _ {B : Type 0} where
  abbrev pub Outcome : {A : Type 0} → (A → B → Type 0) → (B → Type 0) → Result A → B → Type 0
  Outcome Q R (ok a) b = Q a b
  Outcome Q R (raised f) b = R b

  pub record Leads {A : Type 0} (part : World → B) (P : B → Type 0) (m : Exec A)
      (Q : A → B → Type 0) (R : B → Type 0) : Type 0 where
    pub at : (w : World) → P (part w) → Outcome Q R (m w).0 (part (m w).1)

  -- What leaves the part alone keeps every precondition.
  pub Leads-Keeps :
      {A : Type 0} {part : World → B} {P : B → Type 0} {E : Failure → Type 0} (m : Exec A)
      → Keeps part E m
      → Leads part P m (λ a. P) P
  Leads-Keeps {A = A} {P = P} m k = record { at = λ w p. of (m w).0 (subst P (sym (k.same w)) p) }
    where
      of : {b : B} (r : Result A) → P b → Outcome (λ a. P) P r b
      of (ok a) p = p
      of (raised f) p = p

  module _ {part : World → B} {P R : B → Type 0} where
    module _ {A : Type 0} where
      pub Leads-pure :
          {Q : A → B → Type 0} (a : A) → ((b : B) → P b → Q a b) → Leads part P (pure a) Q R
      unfolding pure
      Leads-pure a h = record { at = λ w p. h (part w) p }

      pub Leads-raise :
          {Q : A → B → Type 0} (f : Failure)
          → ((b : B) → P b → R b)
          → Leads part P (raise {A = A} f) Q R
      unfolding raise
      Leads-raise f h = record { at = λ w p. h (part w) p }

      pub Leads-weaken :
          {P' : B → Type 0} {R' : B → Type 0} {Q : A → B → Type 0} {Q' : A → B → Type 0}
          (m : Exec A)
          → ((b : B) → P' b → P b)
          → ((a : A) (b : B) → Q a b → Q' a b)
          → ((b : B) → R b → R' b)
          → Leads part P m Q R
          → Leads part P' m Q' R'
      Leads-weaken {R' = R'} {Q = Q} {Q' = Q'} m pre post bad k = record {
        at = λ w p. of (m w).0 (part (m w).1) (k.at w (pre (part w) p));
      }
        where
          of : (r : Result A) (b : B) → Outcome Q R r b → Outcome Q' R' r b
          of (ok a) b q = post a b q
          of (raised f) b q = bad b q

      pub Leads-if :
          {Q : A → B → Type 0} (b : Bool) (m n : Exec A)
          → Leads part P m Q R
          → Leads part P n Q R
          → Leads part P (if b then m else n) Q R
      Leads-if true m n km kn = km
      Leads-if false m n km kn = kn

      pub Leads-finally :
          {Q Q' : A → B → Type 0} {R' : B → Type 0} (m : Exec A) (n : World → World)
          → Leads part P m Q R
          → ((a : A) (w : World) → Q a (part w) → Q' a (part (n w)))
          → ((w : World) → R (part w) → R' (part (n w)))
          → Leads part P (finally m n) Q' R'
      unfolding finally
      Leads-finally {Q = Q} {Q' = Q'} {R' = R'} m n k post bad = record {
        at = λ w p. of (m w).0 (m w).1 (k.at w p);
      }
        where
          of : (r : Result A) (w : World) → Outcome Q R r (part w) → Outcome Q' R' r (part (n w))
          of (ok a) w q = post a w q
          of (raised f) w q = bad w q

      pub Leads-catch :
          {Q : A → B → Type 0} {R' : B → Type 0} (m : Exec A) (h : Failure → Exec A)
          → Leads part P m Q R
          → ((f : Failure) → Leads part R (h f) Q R')
          → Leads part P (catch m h) Q R'
      unfolding catch
      Leads-catch {Q = Q} {R' = R'} m h k kh = record { at = λ w p. of (m w).0 (m w).1 (k.at w p) }
        where
          of :
              (r : Result A) (w : World)
              → Outcome Q R r (part w)
              → Outcome Q R' (handle_with h r w).0 (part (handle_with h r w).1)
          of (ok a) w q = q
          of (raised f) w q = (kh f).at w q

    module _ {A C : Type 0} {Q : A → B → Type 0} {S : C → B → Type 0} where
      pub Leads-bind :
          (m : Exec A) (f : A → Exec C)
          → Leads part P m Q R
          → ((a : A) → Leads part (Q a) (f a) S R)
          → Leads part P (m >>= f) S R
      unfolding ◌>>=◌
      Leads-bind m f km kf = record { at = λ w p. of (m w).0 (m w).1 (km.at w p) }
        where
          of :
              (r : Result A) (w : World)
              → Outcome Q R r (part w)
              → Outcome S R (continue r f w).0 (part (continue r f w).1)
          of (ok a) w q = (kf a).at w q
          of (raised e) w q = q

  pub Leads-modify :
      {part : World → B} {P R : B → Type 0} {Q : Unit {0} → B → Type 0} (f : World → World)
      → ((w : World) → P (part w) → Q tt (part (f w)))
      → Leads part P (modify f) Q R
  unfolding modify
  Leads-modify f h = record { at = h }

  -- A question about the part.
  pub Leads-gets :
      {A : Type 0} {part : World → B} {P R : B → Type 0} (f : World → A) (g : B → A)
      → ((w : World) → f w ≡ g (part w))
      → Leads part P (gets f) (λ a b. P b × (a ≡ g b)) R
  unfolding gets
  Leads-gets f g h = record { at = λ w p. (p, h w) }

  -- An argument that is known.
  pub Leads-known :
      {A C : Type 0} {part : World → B} {P R : B → Type 0} {Q : C → B → Type 0} (f : A → Exec C)
      (a known : A)
      → Leads part P (f known) Q R
      → Leads part (λ b. P b × (a ≡ known)) (f a) Q R
  Leads-known {part = part} {R = R} {Q = Q} f a known k = record {
    at = λ w (p, e). subst (λ x. Outcome Q R (f x w).0 (part (f x w).1)) (sym e) (k.at w p);
  }

  -- What holds however the action ends.
  Outcome-both : {A : Type 0} (R : B → Type 0) (r : Result A) (b : B) → Outcome (λ a. R) R r b → R b
  Outcome-both R (ok a) b h = h
  Outcome-both R (raised f) b h = h

  pub Leads-both :
      {A : Type 0} {part : World → B} {P R : B → Type 0} (m : Exec A)
      → Leads part P m (λ a. R) R
      → (w : World) → P (part w)
      → R (part (m w).1)
  Leads-both {part = part} {R = R} m k w p = Outcome-both R (m w).0 (part (m w).1) (k.at w p)

  -- An action of which only the return matters.
  pub Leads-returns :
      {A : Type 0} {part : World → B} {P : B → Type 0} {Q : A → B → Type 0} (m : Exec A)
      → ((w : World) (a : A) → P (part w) → (m w).0 ≡ ok a → Q a (part (m w).1))
      → Leads part P m Q (λ b. Unit)
  Leads-returns {A} {part} {P} {Q} m h = record { at = λ w p. of w (m w).0 p refl }
    where
      of :
          (w : World) (r : Result A)
          → P (part w)
          → (m w).0 ≡ r
          → Outcome Q (λ b. Unit) r (part (m w).1)
      of w (ok a) p e = h w a p e
      of w (raised f) p e = tt

  pub returns-Leads :
      {A : Type 0} {part : World → B} {P R : B → Type 0} {Q : A → B → Type 0} (m : Exec A)
      → Leads part P m Q R
      → (w : World) (a : A) → P (part w)
      → (m w).0 ≡ ok a
      → Q a (part (m w).1)
  returns-Leads {part = part} {R = R} {Q = Q} m k w a p e =
      subst (λ r. Outcome Q R r (part (m w).1)) e (k.at w p)
