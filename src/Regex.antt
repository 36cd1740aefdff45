-- ===== src/Regex.antt =====
-- The part of Python's `re` that src/krb5_token_service/minting.py uses: `fullmatch` of patterns
-- built from character classes, `|`, `*`, `+`, `?` and bounded repetition. `^` and `$` are left out:
-- where the whole text is matched they hold at the ends where the patterns have them.
pub mod Language
use krb5_token_service.Prelude.{
  ℕ, zero, suc, Bool, true, false, ◌&&◌, ◌||◌, List, [], ◌∷◌, ◌==◌, if◌then◌else◌, Text,
}

pub data Regex : Type 0 where
  never : Regex
  empty : Regex
  class : (ℕ → Bool) → Regex
  seq alt : Regex → Regex → Regex
  star : Regex → Regex

abbrev pub lit : ℕ → Regex
lit c = class (λ d. d == c)

-- `r?`
abbrev pub opt : Regex → Regex
opt r = alt r empty

-- `r+`
abbrev pub plus : Regex → Regex
plus r = seq r (star r)

-- `r{0,n}`
abbrev pub up_to : ℕ → Regex → Regex
up_to zero r = empty
up_to (suc n) r = opt (seq r (up_to n r))

pub nullable : Regex → Bool
nullable never = false
nullable empty = true
nullable (class p) = false
nullable (seq r q) = nullable r && nullable q
nullable (alt r q) = nullable r || nullable q
nullable (star r) = true

-- What is left to match after a character.
pub derive : Regex → ℕ → Regex
derive never c = never
derive empty c = never
derive (class p) c = if p c then empty else never
derive (seq r q) c =
    let rest = derive q c in alt (seq (derive r c) q) (if nullable r then rest else never)
derive (alt r q) c = alt (derive r c) (derive q c)
derive (star r) c = seq (derive r c) (star r)

unfoldable pub fullmatch : Regex → Text → Bool
unfolding nullable derive
fullmatch r [] = nullable r
fullmatch r (c ∷ s) = fullmatch (derive r c) s
