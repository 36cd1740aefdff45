-- ===== src/Python/Iso.antt =====
-- `datetime.fromtimestamp(t, tz=UTC).isoformat()`, for a count of seconds since 1970.
use krb5_token_service.Prelude.{
  ℕ, ◌+◌, ◌-◌, ◌*◌, ◌/◌, ◌%◌, ◌∷◌, ◌++◌, ltb, leb, if◌then◌else◌, Text, codes,
}
use krb5_token_service.Python.Decimal.{show_two}

pub record Date : Type 0 where
  pub year : ℕ
  pub month : ℕ
  pub day : ℕ

-- The date of a day of the year that starts in March, in a span of 400 years.
date_in_era : ℕ → ℕ → ℕ → Date
date_in_era era year_of_era day_of_year =
    let m = (5 * day_of_year + 2) / 153 in
    let month = if ltb m 10 then m + 3 else m - 9 in
    record {
      year = if leb month 2 then year_of_era + era * 400 + 1 else year_of_era + era * 400;
      month = month;
      day = day_of_year - (153 * m + 2) / 5 + 1;
    }

-- The date of a number of days since 1970-01-01, by the Gregorian rules.
unfoldable pub civil_from_days : ℕ → Date
unfolding date_in_era
civil_from_days days =
    let z = days + 719468 in
    let era = z / 146097 in
    let doe = z % 146097 in
    let yoe = (doe - doe / 1460 + doe / 36524 - doe / 146096) / 365 in
    date_in_era era yoe (doe - (365 * yoe + yoe / 4 - yoe / 100))

unfoldable pub isoformat : ℕ → Text
unfolding civil_from_days show_two
isoformat t =
    let d = civil_from_days (t / 86400) in
    let s = t % 86400 in
    show_two (d.year / 100)
    ++ show_two d.year
    ++ b'-' ∷ show_two d.month
    ++ b'-' ∷ show_two d.day
    ++ b'T' ∷ show_two (s / 3600)
    ++ b':' ∷ show_two (s / 60 % 60)
    ++ b':' ∷ show_two (s % 60)
    ++ codes "+00:00"
