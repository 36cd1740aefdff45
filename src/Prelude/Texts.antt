-- ===== src/Prelude/Texts.antt =====
-- Texts as lists of code points, with Python's `==`, `in` and `startswith` on them.
use Prim.Native.Nat.{ℕ}
use Prim.Native.Char.{code}
use Prim.Native.String.{String}
use mathlib.Core.Path.{◌≡◌, refl}
use mathlib.Core.Logic.{◌≢◌, ◌↔◌, inl, inr}
use mathlib.Core.Bool.{Bool, true, false, ◌&&◌, ◌||◌}
use mathlib.Core.List.{List, [], ◌∷◌, ◌++◌}
use native.Mathlib.Omega.{arith}
use krb5_token_service.Prelude.Tests.{◌==◌, Bool-cases}

-- A `str`, by its code points.
abbrev pub Text : Type 0
Text = List ℕ

-- A literal. `String` has its own `[]` and `∷`.
abbrev pub codes : String → Text
codes String.[] = []
codes (String.◌∷◌ c s) = code c ∷ codes s

unfoldable pub text_eq : Text → Text → Bool
text_eq [] [] = true
text_eq [] (d ∷ t) = false
text_eq (c ∷ s) [] = false
text_eq (c ∷ s) (d ∷ t) = c == d && text_eq s t

pub text_eq_iff : (s t : Text) → (text_eq s t ≡ true) ↔ (s ≡ t)
unfolding text_eq
text_eq_iff [] [] = ground arith
text_eq_iff [] (d ∷ t) = ground arith
text_eq_iff (c ∷ s) [] = ground arith
text_eq_iff (c ∷ s) (d ∷ t) = ground (arith, text_eq_iff s t)

pub text_eq_refl : (s : Text) → text_eq s s ≡ true
text_eq_refl s = (text_eq_iff s s).1 refl

pub text_ne : (s t : Text) → s ≢ t → text_eq s t ≡ false
text_ne s t h = ground (arith, text_eq_iff s t)

-- `text.startswith(marker)`
unfoldable pub begins : Text → Text → Bool
begins [] text = true
begins (m ∷ marker) [] = false
begins (m ∷ marker) (c ∷ text) = m == c && begins marker text

-- `marker in text`
unfoldable pub occurs : Text → Text → Bool
unfolding begins
occurs marker [] = begins marker []
occurs marker (c ∷ text) = begins marker (c ∷ text) || occurs marker text

-- A text that stands in another.
abbrev pub IsWithin : Text → Text → Type 0
IsWithin marker text = (before : Text) × (after : Text) × (text ≡ before ++ (marker ++ after))

begins_iff :
    (marker text : Text) → (begins marker text ≡ true) ↔ ((after : Text) × (text ≡ marker ++ after))
unfolding begins
begins_iff [] text = (λ h. (text, refl), λ h. refl)
begins_iff (m ∷ marker) [] = (λ h. cc, λ (after, e). cc)
begins_iff (m ∷ marker) (c ∷ text) = (
  λ h.
      let same : m ≡ c = ground arith in
      let (after, e) = (begins_iff marker text).0 (ground arith) in (after, cc (same, e)),
  λ (after, e).
      let same : c ≡ m = cc in
      let rest : text ≡ marker ++ after = cc in
      ground (arith, (begins_iff marker text).1 (after, rest)),
)

occurs-begins : (marker text : Text) → begins marker text ≡ true → occurs marker text ≡ true
unfolding occurs
occurs-begins marker [] h = h
occurs-begins marker (c ∷ text) h = ground arith

occurs-IsWithin :
    (marker before after text : Text)
    → text ≡ before ++ (marker ++ after)
    → occurs marker text ≡ true
unfolding occurs
occurs-IsWithin marker [] after text e =
    occurs-begins marker text ((begins_iff marker text).1 (after, e))
occurs-IsWithin marker (b ∷ before) after [] e = cc
occurs-IsWithin marker (b ∷ before) after (c ∷ text) e =
    let rest : text ≡ before ++ (marker ++ after) = cc in
    ground (arith, occurs-IsWithin marker before after text rest)

IsWithin-occurs : (marker text : Text) → occurs marker text ≡ true → IsWithin marker text
unfolding occurs
IsWithin-occurs marker [] h = let (after, e) = (begins_iff marker []).0 h in ([], after, e)
IsWithin-occurs marker (c ∷ text) h = elim (Bool-cases (begins marker (c ∷ text))) [
  | inl first ↦ let (after, e) = (begins_iff marker (c ∷ text)).0 first in ([], after, e)
  | inr later ↦
      let (before, after, e) = IsWithin-occurs marker text (ground arith) in
      (c ∷ before, after, cc e)
]

-- The test for `in` is right.
pub occurs_iff : (marker text : Text) → (occurs marker text ≡ true) ↔ IsWithin marker text
occurs_iff marker text =
    (IsWithin-occurs marker text, λ (before, after, e). occurs-IsWithin marker before after text e)
