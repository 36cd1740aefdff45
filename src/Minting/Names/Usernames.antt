-- ===== src/Minting/Names/Usernames.antt =====
-- Which usernames are accepted.
use krb5_token_service.Prelude.{
  begins, codes, ℕ, ◌≤◌, ◌≡◌, ◌≢◌, refl, ap, ◌∙◌, ◌↔◌, Bool, true, false, [], ◌∷◌, ◌++◌, arith,
  Text, All, length, if◌then◌else◌,
}
use krb5_token_service.Errors.{Result, ok, raised, invalid_username}
use krb5_token_service.Regex.{fullmatch}
use krb5_token_service.Regex.Language.{Matches, fullmatch_iff, up_to_iff}
use krb5_token_service.Minting.Names.{is_letter, is_name_char, username_re, validate_username}

-- A letter, followed by at most 63 letters, digits, underscores and dashes.
abbrev pub IsUsername : Text → Type 0
IsUsername [] = ⊥
IsUsername (c ∷ rest) =
    (is_letter c ≡ true) × (length rest ≤ 63) × All (λ d. is_name_char d ≡ true) rest

Matches-IsUsername : (s : Text) → Matches username_re s → IsUsername s
Matches-IsUsername [] ([], v, e, (c, k, p), m) = cc
Matches-IsUsername [] (d ∷ u, v, e, (c, k, p), m) = cc
Matches-IsUsername (d ∷ s) (u, v, e, (c, k, p), m) =
    let whole = e ∙ ap (λ x. x ++ v) k in
    let first : d ≡ c = cc in
    let rest : s ≡ v = cc in
    let (short, all_v) = (up_to_iff 63 is_name_char v).0 m in rw (first, rest) (p, short, all_v)

IsUsername-Matches : (s : Text) → IsUsername s → Matches username_re s
IsUsername-Matches [] h = absurd h
IsUsername-Matches (c ∷ rest) (p, short, all_rest) =
    (c ∷ [], rest, refl, (c, refl, p), (up_to_iff 63 is_name_char rest).1 (short, all_rest))

accepted_iff :
    (b : Bool) (f : Text)
    → (◌≡◌ {A = Result (Unit {0})} (if b then ok tt else raised (invalid_username f)) (ok tt))
      ↔ (b ≡ true)
accepted_iff true f = ground arith
accepted_iff false f = ground arith

-- A username is accepted exactly if it is a letter followed by at most 63 letters, digits,
-- underscores and dashes, all of them ASCII.
pub validate_username_iff : (u : Text) → (validate_username u ≡ ok tt) ↔ IsUsername u
unfolding validate_username
validate_username_iff u =
    let (to, from) = accepted_iff (fullmatch username_re u) u in
    let (sound, complete) = fullmatch_iff username_re u in
    (λ h. Matches-IsUsername u (sound (to h)), λ h. from (complete (IsUsername-Matches u h)))

-- The characters that could end the username early in a principal or make it an option of kinit.
is_name_char-ne :
    (c : ℕ) → is_name_char c ≡ true → (c ≢ b'@') × (c ≢ b'/') × (c ≢ b' ') × (c ≢ b'\\') × (c ≢ 10)
unfolding is_name_char
is_name_char-ne c h = ground arith

-- What an accepted username keeps out of `username@REALM` and of an argument list.
abbrev pub IsPlain : ℕ → Type 0
IsPlain c = (c ≢ b'@') × (c ≢ b'/') × (c ≢ b' ') × (c ≢ b'\\') × (c ≢ 10)

All-IsPlain : (cs : Text) → All (λ d. is_name_char d ≡ true) cs → All IsPlain cs
All-IsPlain [] h = tt
All-IsPlain (c ∷ cs) (p, h) = (is_name_char-ne c p, All-IsPlain cs h)

IsUsername-IsPlain : (u : Text) → IsUsername u → All IsPlain u × (begins (codes "-") u ≡ false)
unfolding is_letter is_name_char begins
IsUsername-IsPlain [] h = absurd h
IsUsername-IsPlain (c ∷ cs) (p, short, h) = ((ground arith, All-IsPlain cs h), ground arith)

-- An accepted username has no `@`, `/`, blank, backslash or newline, and does not begin with a dash: it
-- cannot name another realm or an instance, nor be read as an option of kinit or cern-get-keytab.
pub validate_username-IsPlain :
    (u : Text) → validate_username u ≡ ok tt → All IsPlain u × (begins (codes "-") u ≡ false)
validate_username-IsPlain u h = IsUsername-IsPlain u ((validate_username_iff u).0 h)
