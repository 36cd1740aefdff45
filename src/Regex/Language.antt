-- ===== src/Regex/Language.antt =====
-- What a pattern matches, and that `fullmatch` decides it.
use krb5_token_service.Prelude.{
  ℕ, zero, suc, ◌≤◌, ◌≡◌, refl, sym, ap, subst, ◌∙◌, ◌↔◌, ◌⊎◌, inl, inr, Bool, true, [], ◌∷◌, ◌++◌,
  arith, Text, Bool-cases, All, length,
}
use krb5_token_service.Regex.{
  Regex, never, empty, class, seq, alt, star, nullable, derive, fullmatch, up_to,
}

-- A text cut into parts that all satisfy `P`.
pub data Star (P : Text → Type 0) : Text → Type 0 where
  done : {s : Text} → s ≡ [] → Star P s
  more : {s : Text} (u v : Text) → s ≡ u ++ v → P u → Star P v → Star P s

-- The texts that a pattern matches.
abbrev pub Matches : Regex → Text → Type 0
Matches never s = ⊥
Matches empty s = s ≡ []
Matches (class p) s = (c : ℕ) × (s ≡ c ∷ []) × (p c ≡ true)
Matches (seq r q) s = (u : Text) × (v : Text) × (s ≡ u ++ v) × Matches r u × Matches q v
Matches (alt r q) s = Matches r s ⊎ Matches q s
Matches (star r) s = Star (Matches r) s

nullable_sound : (r : Regex) → nullable r ≡ true → Matches r []
unfolding nullable
nullable_sound never h = cc
nullable_sound empty h = refl
nullable_sound (class p) h = cc
nullable_sound (seq r q) h =
    ([], [], refl, nullable_sound r (ground arith), nullable_sound q (ground arith))
nullable_sound (alt r q) h = elim (Bool-cases (nullable r)) [
  | inl yes_r ↦ inl (nullable_sound r yes_r)
  | inr no_r ↦ inr (nullable_sound q (ground arith))
]
nullable_sound (star r) h = done refl

append_nil_left : (u v : Text) → [] ≡ u ++ v → u ≡ []
append_nil_left [] v h = refl
append_nil_left (x ∷ u) v h = cc

nullable_complete : (r : Regex) (s : Text) → s ≡ [] → Matches r s → nullable r ≡ true
unfolding nullable
nullable_complete never s e m = absurd m
nullable_complete empty s e m = refl
nullable_complete (class p) s e (c, h, k) = cc
nullable_complete (seq r q) s e (u, v, h, m, n) =
    let e_u = append_nil_left u v (sym e ∙ h) in
    ground (arith, nullable_complete r u e_u m, nullable_complete q v (sym (h ∙ rw e_u) ∙ e) n)
nullable_complete (alt r q) s e (inl m) = rw (nullable_complete r s e m)
nullable_complete (alt r q) s e (inr m) = ground (arith, nullable_complete q s e m)
nullable_complete (star r) s e m = refl

derive_sound : (r : Regex) (c : ℕ) (s : Text) → Matches (derive r c) s → Matches r (c ∷ s)
unfolding derive
derive_sound never c s m = m
derive_sound empty c s m = absurd m
derive_sound (class p) c s m = elim (Bool-cases (p c)) [
  | inl yes_c ↦ let nil : s ≡ [] = rw yes_c at m in (c, ap (λ t. c ∷ t) nil, yes_c)
  | inr no_c ↦ absurd (rw no_c at m)
]
derive_sound (seq r q) c s (inl (u, v, e, m, n)) =
    (c ∷ u, v, ap (λ t. c ∷ t) e, derive_sound r c u m, n)
derive_sound (seq r q) c s (inr m) = elim (Bool-cases (nullable r)) [
  | inl empty_r ↦ ([], c ∷ s, refl, nullable_sound r empty_r, derive_sound q c s (rw empty_r at m))
  | inr no_r ↦ absurd (rw no_r at m)
]
derive_sound (alt r q) c s (inl m) = inl (derive_sound r c s m)
derive_sound (alt r q) c s (inr m) = inr (derive_sound q c s m)
derive_sound (star r) c s (u, v, e, m, n) =
    more (c ∷ u) v (ap (λ t. c ∷ t) e) (derive_sound r c u m) n

-- The first part that is not empty.
Star-split :
    {P : Text → Type 0} {t : Text}
    → Star P t
    → (c : ℕ) (s : Text) → t ≡ c ∷ s
    → (u : Text) × (v : Text) × (s ≡ u ++ v) × P (c ∷ u) × Star P v
Star-split (done e) c s h = cc
Star-split (more [] v e p rest) c s h = Star-split rest c s (sym e ∙ h)
Star-split {P} (more (d ∷ u) v e p rest) c s h =
    let (head, tail) = cons-inj d c (u ++ v) s (sym e ∙ h) in
    (u, v, sym tail, subst (λ k. P (k ∷ u)) head p, rest)
  where
    cons-inj : (a b : ℕ) (xs ys : Text) → a ∷ xs ≡ b ∷ ys → (a ≡ b) × (xs ≡ ys)
    cons-inj a b xs ys k = (cc, cc)

derive_right :
    (r q : Regex) (c : ℕ) (s : Text)
    → nullable r ≡ true
    → Matches (derive q c) s
    → Matches (derive (seq r q) c) s
unfolding derive
derive_right r q c s h m = inr (rw h m)

derive_complete :
    (r : Regex) (c : ℕ) (s t : Text) → t ≡ c ∷ s → Matches r t → Matches (derive r c) s
unfolding derive
derive_complete never c s t e m = m
derive_complete empty c s t e m = cc
derive_complete (class p) c s t e (d, h, k) =
    let same : d ≡ c = cc in let nil : s ≡ [] = cc in rw (← same, k) nil
derive_complete (seq r q) c s t e ([], v, h, m, n) =
    derive_right r q c s (nullable_complete r [] refl m) (derive_complete q c s v (sym h ∙ e) n)
derive_complete (seq r q) c s t e (d ∷ u, v, h, m, n) =
    let same : d ≡ c = cc in
    inl (u, v, cc, derive_complete r c u (d ∷ u) (ap (λ k. k ∷ u) same) m, n)
derive_complete (alt r q) c s t e (inl m) = inl (derive_complete r c s t e m)
derive_complete (alt r q) c s t e (inr m) = inr (derive_complete q c s t e m)
derive_complete (star r) c s t e m =
    let (u, v, h, p, rest) = Star-split m c s e in
    (u, v, h, derive_complete r c u (c ∷ u) refl p, rest)

fullmatch_sound : (r : Regex) (s : Text) → fullmatch r s ≡ true → Matches r s
unfolding fullmatch
fullmatch_sound r [] h = nullable_sound r h
fullmatch_sound r (c ∷ s) h = derive_sound r c s (fullmatch_sound (derive r c) s h)

fullmatch_complete : (r : Regex) (s : Text) → Matches r s → fullmatch r s ≡ true
unfolding fullmatch
fullmatch_complete r [] m = nullable_complete r [] refl m
fullmatch_complete r (c ∷ s) m =
    fullmatch_complete (derive r c) s (derive_complete r c s (c ∷ s) refl m)

-- `fullmatch` answers yes exactly for the texts that the pattern matches.
pub fullmatch_iff : (r : Regex) (s : Text) → (fullmatch r s ≡ true) ↔ Matches r s
fullmatch_iff r s = (fullmatch_sound r s, fullmatch_complete r s)

-- `p{0,n}` matches the texts of at most `n` characters of the class.
up_to_sound :
    (n : ℕ) (p : ℕ → Bool) (s : Text)
    → Matches (up_to n (class p)) s
    → (length s ≤ n) × All (λ c. p c ≡ true) s
up_to_sound zero p s e = rw e (omega arith, tt)
up_to_sound (suc n) p s (inr e) = rw e (omega arith, tt)
up_to_sound (suc n) p s (inl (u, v, h, (c, k, q), m)) =
    let (short, all_v) = up_to_sound n p v m in
    let whole : s ≡ c ∷ v = h ∙ ap (λ x. x ++ v) k in rw whole (omega arith, (q, all_v))

up_to_complete :
    (n : ℕ) (p : ℕ → Bool) (s : Text)
    → length s ≤ n
    → All (λ c. p c ≡ true) s
    → Matches (up_to n (class p)) s
up_to_complete zero p [] h a = refl
up_to_complete zero p (c ∷ s) h a = absurd (omega arith)
up_to_complete (suc n) p [] h a = inr refl
up_to_complete (suc n) p (c ∷ s) h (q, a) =
    inl (c ∷ [], s, refl, (c, refl, q), up_to_complete n p s (omega arith) a)

pub up_to_iff :
    (n : ℕ) (p : ℕ → Bool) (s : Text)
    → Matches (up_to n (class p)) s ↔ ((length s ≤ n) × All (λ c. p c ≡ true) s)
up_to_iff n p s = (up_to_sound n p s, λ h. up_to_complete n p s h.0 h.1)

-- `p*` matches the texts of characters of the class.
Star-sound : (p : ℕ → Bool) {s : Text} → Star (Matches (class p)) s → All (λ c. p c ≡ true) s
Star-sound p (done e) = rw e tt
Star-sound p {s} (more u v e (c, k, q) rest) =
    let whole : s ≡ c ∷ v = e ∙ ap (λ x. x ++ v) k in rw whole (q, Star-sound p rest)

Star-complete : (p : ℕ → Bool) (s : Text) → All (λ c. p c ≡ true) s → Star (Matches (class p)) s
Star-complete p [] a = done refl
Star-complete p (c ∷ s) (q, a) = more (c ∷ []) s refl (c, refl, q) (Star-complete p s a)

pub star_iff : (p : ℕ → Bool) (s : Text) → Matches (star (class p)) s ↔ All (λ c. p c ≡ true) s
star_iff p s = (Star-sound p, Star-complete p s)
