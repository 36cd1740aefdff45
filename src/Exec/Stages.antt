-- ===== src/Exec/Stages.antt =====
-- Actions that come one after the other to answer a request. A stage that returns leaves `part` of the
-- state as it is; where it raises, `Bad` says what has become of it, and `Done` where the last one
-- returns.
use krb5_token_service.Prelude.{◌≡◌, refl, sym, subst, Bool, true, false, if◌then◌else◌}
use krb5_token_service.Errors.{Failure, Result, ok, raised}
use krb5_token_service.World.{World}
use krb5_token_service.Exec.{Exec, pure, raise, catch, ◌>>=◌, continue, handle_with}
use krb5_token_service.Exec.Keeps.{Keeps, Fails}

abbrev pub Same : {B : Type 0} → B → B → Type 0
Same before after = after ≡ before

-- What a result says of the part before and after.
abbrev pub After :
    {B A : Type 0} → (Failure → B → B → Type 0) → (B → B → Type 0) → Result A → B → B → Type 0
After Bad Done (ok a) before after = Done before after
After Bad Done (raised f) before after = Bad f before after

module _ {B : Type 0} (part : World → B) (Bad : Failure → B → B → Type 0) where
  pub record Ends {A : Type 0} (Done : B → B → Type 0) (m : Exec A) : Type 0 where
    pub at : (w : World) → After Bad Done (m w).0 (part w) (part (m w).1)

  abbrev pub IsStage : {A : Type 0} → Exec A → Type 0
  IsStage m = Ends Same m

After-from :
    {B A : Type 0} (Bad : Failure → B → B → Type 0) (Done : B → B → Type 0) (r : Result A) {a b : B}
    (c : B)
    → b ≡ a
    → After Bad Done r b c
    → After Bad Done r a c
After-from Bad Done r c e h = subst (λ x. After Bad Done r x c) e h

module _ {B : Type 0} {part : World → B} {Bad : Failure → B → B → Type 0} where
  module _ {A : Type 0} where
    pub IsStage-pure : (a : A) → IsStage part Bad (pure a)
    unfolding pure
    IsStage-pure a = record { at = λ w. refl }

    pub Ends-raise :
        (Done : B → B → Type 0) (f : Failure)
        → ((b : B) → Bad f b b)
        → Ends part Bad Done (raise {A = A} f)
    unfolding raise
    Ends-raise Done f h = record { at = λ w. h (part w) }

    -- An action that leaves the part alone, with failures that are bad only in doing nothing.
    pub IsStage-Keeps :
        {E : Failure → Type 0} (m : Exec A)
        → Keeps part E m
        → ((f : Failure) → E f → (b : B) → Bad f b b)
        → IsStage part Bad m
    IsStage-Keeps {E} m k bad = record { at = λ w. of (m w).0 (k.fails w) (k.same w) }
      where
        of : {b c : B} (r : Result A) → Fails E r → c ≡ b → After Bad Same r b c
        of (ok a) e h = h
        of {b} (raised f) e h = subst (λ x. Bad f b x) (sym h) (bad f e b)

    pub Ends-if :
        {Done : B → B → Type 0} (b : Bool) (m n : Exec A)
        → Ends part Bad Done m
        → Ends part Bad Done n
        → Ends part Bad Done (if b then m else n)
    Ends-if true m n km kn = km
    Ends-if false m n km kn = kn

    IsStage-handle :
        {D : Failure → Type 0} (h : Failure → Exec A) (r : Result A)
        → Fails D r
        → ((f : Failure) → D f → IsStage part Bad (h f))
        → IsStage part Bad (handle_with h r)
    IsStage-handle h (ok a) d k = record { at = λ w. refl }
    IsStage-handle h (raised f) d k = k f d

    pub IsStage-catch :
        {D : Failure → Type 0} (m : Exec A) (h : Failure → Exec A)
        → Keeps part D m
        → ((f : Failure) → D f → IsStage part Bad (h f))
        → IsStage part Bad (catch m h)
    unfolding catch
    IsStage-catch m h km kh = record {
      at = λ w.
          let (r, w') = m w in
          After-from Bad Same (handle_with h r w').0 _ (km.same w)
            ((IsStage-handle h r (km.fails w) kh).at w');
    }

  module _ {A C : Type 0} {Done : B → B → Type 0} where
    Ends-continue :
        (r : Result A) (f : A → Exec C) (w : World) (before : B)
        → After Bad Same r before (part w)
        → ((a : A) → Ends part Bad Done (f a))
        → After Bad Done (continue r f w).0 before (part (continue r f w).1)
    Ends-continue (ok a) f w before h k = After-from Bad Done (f a w).0 _ h ((k a).at w)
    Ends-continue (raised e) f w before h k = h

    pub Ends-bind :
        (m : Exec A) (f : A → Exec C)
        → IsStage part Bad m
        → ((a : A) → Ends part Bad Done (f a))
        → Ends part Bad Done (m >>= f)
    unfolding ◌>>=◌
    Ends-bind m f km kf = record {
      at = λ w. let (r, w') = m w in Ends-continue r f w' (part w) (km.at w) kf;
    }
