-- ===== src/Minting/Names/Lifetimes.antt =====
-- Which lifetimes are accepted.
use krb5_token_service.Prelude.{
  ℕ, ◌≤◌, ◌≡◌, ◌≢◌, refl, sym, ap, ap₂, subst, ◌∙◌, ◌↔◌, inl, inr, Bool, true, false, Option, none,
  some, [], ◌∷◌, ◌++◌, arith, Text, All, length, if◌then◌else◌, is_empty, ==_iff, not, ◌||◌,
}
use krb5_token_service.Errors.{Result, ok, raised, invalid_lifetime}
use krb5_token_service.Regex.{seq, lit, plus, opt, fullmatch, up_to}
use krb5_token_service.Regex.Language.{Matches, fullmatch_iff, star_iff, up_to_iff}
use krb5_token_service.Minting.Names.{
  is_digit, digit, clock_re, unit_re, units_re, lifetime_re, validate_lifetime,
}

-- One digit at least, and digits only.
abbrev pub IsCount : Text → Type 0
IsCount [] = ⊥
IsCount (c ∷ s) = (is_digit c ≡ true) × All (λ d. is_digit d ≡ true) s

-- A duration as it can be written: seconds, hours and minutes with or without seconds, or a
-- selection of days, hours, minutes and seconds in this order.
pub data Duration : Type 0 where
  seconds : Text → Duration
  clock : Text → Text → Option Text → Duration
  units : Option Text → Option Text → Option Text → Option Text → Duration

abbrev pub print_unit : ℕ → Option Text → Text
print_unit u none = []
print_unit u (some n) = n ++ u ∷ []

abbrev pub print_seconds : Option Text → Text
print_seconds none = []
print_seconds (some s) = b':' ∷ s

abbrev pub print : Duration → Text
print (seconds n) = n
print (clock h m s) = h ++ (b':' ∷ (m ++ print_seconds s))
print (units d h m s) =
    print_unit b'd' d ++ (print_unit b'h' h ++ (print_unit b'm' m ++ print_unit b's' s))

abbrev pub IsTwo : Text → Type 0
IsTwo s = IsCount s × (length s ≡ 2)

abbrev pub Holds : (Text → Type 0) → Option Text → Type 0
Holds P none = Unit
Holds P (some s) = P s

abbrev pub IsDuration : Duration → Type 0
IsDuration (seconds n) = IsCount n
IsDuration (clock h m s) = IsCount h × (length h ≤ 3) × IsTwo m × Holds IsTwo s
IsDuration (units d h m s) = Holds IsCount d × Holds IsCount h × Holds IsCount m × Holds IsCount s

plus_iff : (s : Text) → Matches (plus digit) s ↔ IsCount s
plus_iff s = (to s, from s)
  where
    to : (s : Text) → Matches (plus digit) s → IsCount s
    to [] ([], v, e, (c, k, p), m) = cc
    to [] (x ∷ u, v, e, (c, k, p), m) = cc
    to (d ∷ s) (u, v, e, (c, k, p), m) =
        let whole = e ∙ ap (λ x. x ++ v) k in
        let first : d ≡ c = cc in
        let rest : s ≡ v = cc in rw (first, rest) (p, (star_iff is_digit v).0 m)

    from : (s : Text) → IsCount s → Matches (plus digit) s
    from [] h = absurd h
    from (c ∷ s) (p, a) = (c ∷ [], s, refl, (c, refl, p), (star_iff is_digit s).1 a)

hours_iff : (s : Text) → Matches (seq digit (up_to 2 digit)) s ↔ (IsCount s × (length s ≤ 3))
hours_iff s = (to s, from s)
  where
    to : (s : Text) → Matches (seq digit (up_to 2 digit)) s → IsCount s × (length s ≤ 3)
    to [] ([], v, e, (c, k, p), m) = cc
    to [] (x ∷ u, v, e, (c, k, p), m) = cc
    to (d ∷ s) (u, v, e, (c, k, p), m) =
        let whole = e ∙ ap (λ x. x ++ v) k in
        let first : d ≡ c = cc in
        let rest : s ≡ v = cc in
        let (short, a) = (up_to_iff 2 is_digit v).0 m in rw (first, rest) ((p, a), omega arith)

    from : (s : Text) → IsCount s × (length s ≤ 3) → Matches (seq digit (up_to 2 digit)) s
    from [] h = absurd h.0
    from (c ∷ s) ((p, a), short) =
        (c ∷ [], s, refl, (c, refl, p), (up_to_iff 2 is_digit s).1 (omega arith, a))

IsTwo-iff : (s : Text) → Matches (seq digit digit) s ↔ IsTwo s
IsTwo-iff s = (to, from s)
  where
    to : Matches (seq digit digit) s → IsTwo s
    to (u, v, e, (c, k, p), (d, l, q)) =
        let whole : s ≡ c ∷ d ∷ [] = e ∙ ap (λ x. x ++ v) k ∙ ap (λ x. c ∷ x) l in
        rw whole ((p, (q, tt)), refl)

    from : (s : Text) → IsTwo s → Matches (seq digit digit) s
    from [] h = absurd h.0
    from (c ∷ []) h = absurd (omega arith)
    from (c ∷ d ∷ []) ((p, (q, _)), l) = (c ∷ [], d ∷ [], refl, (c, refl, p), (d, refl, q))
    from (c ∷ d ∷ x ∷ s) h = absurd (omega arith)

lit_of : (c : ℕ) (s : Text) → Matches (lit c) s → s ≡ c ∷ []
lit_of c s (d, e, h) = e ∙ ap (λ k. k ∷ []) ((==_iff d c).0 h)

lit_self : (c : ℕ) → Matches (lit c) (c ∷ [])
lit_self c = (c, refl, (==_iff c c).1 refl)

unit_iff :
    (u : ℕ) (s : Text)
    → Matches (unit_re u) s ↔ ((o : Option Text) × Holds IsCount o × (s ≡ print_unit u o))
unit_iff u s = (to, from)
  where
    to : Matches (unit_re u) s → (o : Option Text) × Holds IsCount o × (s ≡ print_unit u o)
    to (inl (n, t, e, m, k)) = (some n, (plus_iff n).0 m, e ∙ ap (λ x. n ++ x) (lit_of u t k))
    to (inr e) = (none, tt, e)

    from : (o : Option Text) × Holds IsCount o × (s ≡ print_unit u o) → Matches (unit_re u) s
    from (none, _, e) = inr e
    from (some n, h, e) = inl (n, u ∷ [], e, (plus_iff n).1 h, lit_self u)

clock_sound : (s : Text) → Matches clock_re s → (d : Duration) × IsDuration d × (s ≡ print d)
clock_sound s (h, t, e, mh, (c, t', e', mc, (m, t'', e'', mm, tail))) =
    let front : s ≡ h ++ (b':' ∷ (m ++ t'')) =
      e ∙ ap (λ x. h ++ x) (e' ∙ ap (λ x. x ++ t') (lit_of b':' c mc) ∙ ap (λ x. b':' ∷ x) e'') in
    finish front tail
  where
    finish :
        s ≡ h ++ (b':' ∷ (m ++ t''))
        → Matches (opt (seq (lit b':') (seq digit digit))) t''
        → (d : Duration) × IsDuration d × (s ≡ print d)
    finish front (inl (c, s', e, mc, ms)) = (
      clock h m (some s'),
      (((hours_iff h).0 mh).0, ((hours_iff h).0 mh).1, (IsTwo-iff m).0 mm, (IsTwo-iff s').0 ms),
      front ∙ ap (λ x. h ++ (b':' ∷ (m ++ x))) (e ∙ ap (λ x. x ++ s') (lit_of b':' c mc)),
    )
    finish front (inr e) = (
      clock h m none,
      (((hours_iff h).0 mh).0, ((hours_iff h).0 mh).1, (IsTwo-iff m).0 mm, tt),
      front ∙ ap (λ x. h ++ (b':' ∷ (m ++ x))) e,
    )

clock_complete :
    (h m : Text) (s : Option Text)
    → IsDuration (clock h m s)
    → Matches clock_re (print (clock h m s))
clock_complete h m none (a, b, c, _) = (
  h,
  b':' ∷ (m ++ []),
  refl,
  (hours_iff h).1 (a, b),
  (b':' ∷ [], m ++ [], refl, lit_self b':', (m, [], refl, (IsTwo-iff m).1 c, inr refl)),
)
clock_complete h m (some s) (a, b, c, d) = (
  h,
  b':' ∷ (m ++ b':' ∷ s),
  refl,
  (hours_iff h).1 (a, b),
  (
    b':' ∷ [],
    m ++ b':' ∷ s,
    refl,
    lit_self b':',
    (
      m,
      b':' ∷ s,
      refl,
      (IsTwo-iff m).1 c,
      inl (b':' ∷ [], s, refl, lit_self b':', (IsTwo-iff s).1 d),
    ),
  ),
)

units_sound : (s : Text) → Matches units_re s → (d : Duration) × IsDuration d × (s ≡ print d)
units_sound s (a, t, e, ma, (b, t', e', mb, (c, d, e'', mc, md))) =
    let (days, is_a, eq_a) = (unit_iff b'd' a).0 ma in
    let (hours, is_b, eq_b) = (unit_iff b'h' b).0 mb in
    let (minutes, is_c, eq_c) = (unit_iff b'm' c).0 mc in
    let (secs, is_d, eq_d) = (unit_iff b's' d).0 md in
    (
      units days hours minutes secs,
      (is_a, is_b, is_c, is_d),
      e
          ∙ ap₂ (λ x y. x ++ y) eq_a
              (e' ∙ ap₂ (λ x y. x ++ y) eq_b (e'' ∙ ap₂ (λ x y. x ++ y) eq_c eq_d)),
    )

units_complete :
    (d h m s : Option Text) → IsDuration (units d h m s) → Matches units_re (print (units d h m s))
units_complete d h m s (is_d, is_h, is_m, is_s) = (
  print_unit b'd' d,
  _,
  refl,
  (unit_iff b'd' _).1 (d, is_d, refl),
  (
    print_unit b'h' h,
    _,
    refl,
    (unit_iff b'h' _).1 (h, is_h, refl),
    (
      print_unit b'm' m,
      print_unit b's' s,
      refl,
      (unit_iff b'm' _).1 (m, is_m, refl),
      (unit_iff b's' _).1 (s, is_s, refl),
    ),
  ),
)

lifetime_sound : (s : Text) → Matches lifetime_re s → (d : Duration) × IsDuration d × (s ≡ print d)
lifetime_sound s (inl m) = (seconds s, (plus_iff s).0 m, refl)
lifetime_sound s (inr (inl m)) = clock_sound s m
lifetime_sound s (inr (inr m)) = units_sound s m

lifetime_complete : (d : Duration) → IsDuration d → Matches lifetime_re (print d)
lifetime_complete (seconds n) h = inl ((plus_iff n).1 h)
lifetime_complete (clock h m s) k = inr (inl (clock_complete h m s k))
lifetime_complete (units d h m s) k = inr (inr (units_complete d h m s k))

accepted_iff :
    (v : Text) (b : Bool)
    → (◌≡◌ {A = Result (Unit {0})}
        (if is_empty v || not b then raised (invalid_lifetime v) else ok tt)
        (ok tt))
      ↔ ((v ≢ []) × (b ≡ true))
accepted_iff [] b = (λ h. cc, λ h. absurd (h.0 refl))
accepted_iff (c ∷ v) true = (λ h. ((λ e. cc), refl), λ h. refl)
accepted_iff (c ∷ v) false = (λ h. cc, λ h. cc)

-- A lifetime is accepted exactly if it is not empty and is the text of a duration: a count of
-- seconds, `h:m` or `h:m:s` with one to three digits of hours and two of each of the others, or
-- counts of days, hours, minutes and seconds, any of them left out, in this order. A digit is any
-- Unicode decimal digit.
pub validate_lifetime_iff :
    (v : Text)
    → (validate_lifetime v ≡ ok tt) ↔ ((v ≢ []) × ((d : Duration) × IsDuration d × (v ≡ print d)))
unfolding validate_lifetime
validate_lifetime_iff v =
    let (to, from) = accepted_iff v (fullmatch lifetime_re v) in
    let (sound, complete) = fullmatch_iff lifetime_re v in
    (
      λ h. ((to h).0, lifetime_sound v (sound (to h).1)),
      λ (nonempty, (d, is_d, e)).
          from
            (nonempty, complete (subst (Matches lifetime_re) (sym e) (lifetime_complete d is_d))),
    )
