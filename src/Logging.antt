-- ===== src/Logging.antt =====
-- `SensitiveValueRedactProcessor` of src/krb5_token_service/logging.py, on the fields of a log event.
pub mod Redacted
use krb5_token_service.Prelude.{Option, none, some, List, [], ◌∷◌, Text, codes}
use krb5_token_service.Prelude.Dict
use krb5_token_service.Prelude.Dict.{Dict}

-- `_REDACTED_KEYS`, in some order: the order in which a frozenset is run through is not known.
abbrev pub redacted_keys : List Text
redacted_keys =
    codes "token"
    ∷ codes "bearer"
    ∷ codes "authorization"
    ∷ codes "password"
    ∷ codes "ccache"
    ∷ codes "ccache_b64"
    ∷ []

-- `_REDACTED_VALUE`
abbrev pub redacted_value : Text
redacted_value = codes "[REDACTED]"

redact_key : Text → Option Text → Dict Text → Dict Text
redact_key key none event = event
redact_key key (some value) event = Dict.insert key redacted_value event

redact_all : List Text → Dict Text → Dict Text
unfolding redact_key
redact_all [] event = event
redact_all (key ∷ keys) event = redact_all keys (redact_key key (Dict.lookup key event) event)

-- `__call__`
unfoldable pub redact : Dict Text → Dict Text
unfolding redact_all
redact event = redact_all redacted_keys event
