-- ===== src/Python/Decimal.antt =====
-- Numbers in decimal digits, as `str` and format strings write them.
use krb5_token_service.Prelude.{ℕ, zero, suc, ◌+◌, ◌/◌, ◌%◌, [], ◌∷◌, ltb, if◌then◌else◌, Text}

-- The digits of a number in front of those that are done. Each round has one digit fewer to do, so
-- fuel above the number suffices.
show_from : ℕ → ℕ → Text → Text
show_from zero n done = done
show_from (suc fuel) n done =
    let more = show_from fuel (n / 10) ((b'0' + n % 10) ∷ done) in
    if ltb n 10 then (b'0' + n) ∷ done else more

-- `str(n)`
unfoldable pub show : ℕ → Text
unfolding show_from
show n = show_from (suc n) n []

-- `{n:02d}`
unfoldable pub show_two : ℕ → Text
show_two n = (b'0' + n / 10 % 10) ∷ (b'0' + n % 10) ∷ []
