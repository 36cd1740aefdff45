-- ===== src/Minting/Names.antt =====
-- `_USERNAME_RE`, `validate_username`, `_LIFETIME_RE` and `validate_lifetime` of
-- src/krb5_token_service/minting.py.
pub mod Usernames
pub mod Lifetimes
use krb5_token_service.Prelude.{
  ℕ, ◌+◌, Bool, ◌&&◌, ◌||◌, not, List, [], ◌∷◌, ltb, leb, ◌==◌, if◌then◌else◌, Text, any, is_empty,
}
use krb5_token_service.Errors.{Result, ok, raised, invalid_username, invalid_lifetime}
use krb5_token_service.Regex.{Regex, empty, class, lit, seq, alt, opt, plus, up_to, fullmatch}

-- `[A-Za-z]`
unfoldable pub is_letter : ℕ → Bool
is_letter c = (leb b'A' c && leb c b'Z') || (leb b'a' c && leb c b'z')

-- `[A-Za-z0-9_-]`
unfoldable pub is_name_char : ℕ → Bool
unfolding is_letter
is_name_char c = is_letter c || (leb b'0' c && leb c b'9') || c == b'_' || c == b'-'

abbrev pub username_re : Regex
username_re = seq (class is_letter) (up_to 63 (class is_name_char))

unfoldable pub validate_username : Text → Result (Unit {0})
unfolding fullmatch is_name_char
validate_username username =
    if fullmatch username_re username then ok tt else raised (invalid_username username)

-- The zeros of the runs of ten that make up the Unicode 15.0 category Nd.
abbrev pub digit_zeros : List ℕ
digit_zeros =
    0x30 ∷ 0x660 ∷ 0x6f0 ∷ 0x7c0 ∷ 0x966 ∷ 0x9e6 ∷ 0xa66 ∷ 0xae6 ∷ 0xb66 ∷ 0xbe6 ∷ 0xc66 ∷ 0xce6
    ∷ 0xd66 ∷ 0xde6 ∷ 0xe50 ∷ 0xed0 ∷ 0xf20 ∷ 0x1040 ∷ 0x1090 ∷ 0x17e0 ∷ 0x1810 ∷ 0x1946 ∷ 0x19d0
    ∷ 0x1a80 ∷ 0x1a90 ∷ 0x1b50 ∷ 0x1bb0 ∷ 0x1c40 ∷ 0x1c50 ∷ 0xa620 ∷ 0xa8d0 ∷ 0xa900 ∷ 0xa9d0
    ∷ 0xa9f0 ∷ 0xaa50 ∷ 0xabf0 ∷ 0xff10 ∷ 0x104a0 ∷ 0x10d30 ∷ 0x11066 ∷ 0x110f0 ∷ 0x11136 ∷ 0x111d0
    ∷ 0x112f0 ∷ 0x11450 ∷ 0x114d0 ∷ 0x11650 ∷ 0x116c0 ∷ 0x11730 ∷ 0x118e0 ∷ 0x11950 ∷ 0x11c50
    ∷ 0x11d50 ∷ 0x11da0 ∷ 0x11f50 ∷ 0x16a60 ∷ 0x16ac0 ∷ 0x16b50 ∷ 0x1d7ce ∷ 0x1d7d8 ∷ 0x1d7e2
    ∷ 0x1d7ec ∷ 0x1d7f6 ∷ 0x1e140 ∷ 0x1e2f0 ∷ 0x1e4f0 ∷ 0x1e950 ∷ 0x1fbf0 ∷ []

-- `\d` in a pattern on a `str`: any Unicode decimal digit, not only 0 to 9.
unfoldable pub is_digit : ℕ → Bool
is_digit c = any (λ z. leb z c && ltb c (z + 10)) digit_zeros

abbrev pub digit : Regex
digit = class is_digit

-- `^\d+$`
abbrev pub seconds_re : Regex
seconds_re = plus digit

-- `^\d{1,3}:\d{2}(?::\d{2})?$`
abbrev pub clock_re : Regex
clock_re =
    seq (seq digit (up_to 2 digit))
      (seq (lit b':') (seq (seq digit digit) (opt (seq (lit b':') (seq digit digit)))))

-- `(?:\d+u)?`
abbrev pub unit_re : ℕ → Regex
unit_re u = opt (seq (plus digit) (lit u))

-- `^(?:\d+d)?(?:\d+h)?(?:\d+m)?(?:\d+s)?$`
abbrev pub units_re : Regex
units_re = seq (unit_re b'd') (seq (unit_re b'h') (seq (unit_re b'm') (unit_re b's')))

abbrev pub lifetime_re : Regex
lifetime_re = alt seconds_re (alt clock_re units_re)

unfoldable pub validate_lifetime : Text → Result (Unit {0})
unfolding fullmatch is_digit
validate_lifetime value =
    if is_empty value || not (fullmatch lifetime_re value)
    then raised (invalid_lifetime value)
    else ok tt
