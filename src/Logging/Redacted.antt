-- ===== src/Logging/Redacted.antt =====
-- What the redaction leaves of the fields of a log event.
use krb5_token_service.Prelude.{
  ◌≡◌, refl, sym, ◌∙◌, ap, inl, inr, Bool, true, false, Option, none, some, List, [], ◌∷◌,
  if◌then◌else◌, Text, any, text_eq, text_eq_iff, Bool-cases,
}
use krb5_token_service.Prelude.Dict
use krb5_token_service.Prelude.Dict.{Dict, lookup-insert}
use krb5_token_service.Logging.{redact, redact_all, redact_key, redacted_keys, redacted_value}

-- A field that is there, with its value hidden.
abbrev pub hidden : Option Text → Option Text
hidden none = none
hidden (some value) = some redacted_value

hidden-hidden : (o : Option Text) → hidden (hidden o) ≡ hidden o
hidden-hidden none = refl
hidden-hidden (some v) = refl

hidden_if : (b : Bool) (o : Option Text) → (if b then hidden (hidden o) else hidden o) ≡ hidden o
hidden_if true o = hidden-hidden o
hidden_if false o = refl

lookup-redact_key :
    (k j : Text) (o : Option Text) (event : Dict Text)
    → Dict.lookup k event ≡ o
    → Dict.lookup j (redact_key k o event)
      ≡ (if text_eq k j then hidden (Dict.lookup j event) else Dict.lookup j event)
unfolding redact_key
lookup-redact_key k j none event h = elim (Bool-cases (text_eq k j)) [
  | inl same ↦ let e = (text_eq_iff k j).0 same in cc
  | inr apart ↦ rw apart
]
lookup-redact_key k j (some v) event h = elim (Bool-cases (text_eq k j)) [
  | inl same ↦
      let found : Dict.lookup j event ≡ some v =
        ap (λ x. Dict.lookup x event) (sym ((text_eq_iff k j).0 same)) ∙ h in
      lookup-insert k j redacted_value event ∙ rw (same, found)
  | inr apart ↦ lookup-insert k j redacted_value event ∙ rw apart
]

-- A text is among the keys.
abbrev pub is_among : List Text → Text → Bool
is_among keys j = any (λ k. text_eq k j) keys

lookup-redact_all :
    (keys : List Text) (j : Text) (event : Dict Text)
    → Dict.lookup j (redact_all keys event)
      ≡ (if is_among keys j then hidden (Dict.lookup j event) else Dict.lookup j event)
unfolding redact_all
lookup-redact_all [] j event = refl
lookup-redact_all (k ∷ keys) j event =
    let step = lookup-redact_key k j (Dict.lookup k event) event refl in
    let rest = lookup-redact_all keys j (redact_key k (Dict.lookup k event) event) in
    rest ∙ elim (Bool-cases (text_eq k j)) [
      | inl same ↦ rw (step, same) (hidden_if (is_among keys j) (Dict.lookup j event))
      | inr apart ↦ rw (step, apart)
    ]

-- The redaction hides the value of every field whose name is among the redacted keys, adds and drops
-- no field, and leaves every other field as it is.
pub lookup-redact :
    (j : Text) (event : Dict Text)
    → Dict.lookup j (redact event)
      ≡ (if is_among redacted_keys j then hidden (Dict.lookup j event) else Dict.lookup j event)
unfolding redact
lookup-redact j event = lookup-redact_all redacted_keys j event
