-- ===== src/Tests/Python.antt =====
-- The standard library's functions at inputs checked against CPython.
use krb5_token_service.Prelude.{◌≡◌, refl, none, some, [], ◌∷◌, codes}
use krb5_token_service.Python.Utf8.{encode, decode, decode_replace, strip}
use krb5_token_service.Python.Base64.{b64encode, b64decode}
use krb5_token_service.Python.Decimal.{show}
use krb5_token_service.Python.Iso.{isoformat}

utf8_tests :
    (encode (codes "aé€😀")
      ≡ some (0x61 ∷ 0xC3 ∷ 0xA9 ∷ 0xE2 ∷ 0x82 ∷ 0xAC ∷ 0xF0 ∷ 0x9F ∷ 0x98 ∷ 0x80 ∷ []))
    × (decode (0xF0 ∷ 0x9F ∷ 0x98 ∷ 0x80 ∷ 0x41 ∷ []) ≡ some (codes "😀A"))
    × (decode (0x41 ∷ 0xFF ∷ []) ≡ none)
    × (decode_replace (0xE2 ∷ 0x82 ∷ 0x41 ∷ 0xC0 ∷ 0x80 ∷ []) ≡ codes "�A��")
    × (strip (codes " \t a b\n") ≡ codes "a b")
unfolding encode decode decode_replace strip
utf8_tests = (refl, refl, refl, refl, refl)

base64_tests :
    (b64encode (codes "abcd") ≡ codes "YWJjZA==")
    × (b64decode (codes "YWJjZA==") ≡ some (codes "abcd"))
    × (b64decode (codes "YWJj=") ≡ some (codes "abc"))
    × (b64decode (codes "YW=J") ≡ none)
    × (b64decode (codes "YW==Y") ≡ none)
    × (b64decode (codes "=YWJj") ≡ none)
    × (b64decode (codes "YWJj\n") ≡ none)
    × (b64decode (codes "YR==") ≡ some (codes "a"))
unfolding b64encode b64decode
base64_tests = (refl, refl, refl, refl, refl, refl, refl, refl)

number_tests :
    (show 0 ≡ codes "0")
    × (show 90210 ≡ codes "90210")
    × (isoformat 1709210096 ≡ codes "2024-02-29T12:34:56+00:00")
    × (isoformat 0 ≡ codes "1970-01-01T00:00:00+00:00")
    × (isoformat 4102444799 ≡ codes "2099-12-31T23:59:59+00:00")
unfolding show isoformat
number_tests = (refl, refl, refl, refl, refl)
