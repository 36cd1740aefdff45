-- ===== src/Errors.antt =====
-- The exceptions that the program raises, catches or lets through, as values: those of
-- src/krb5_token_service/minting.py, ccache.py and ratelimit.py, FastAPI's `HTTPException`, and the
-- standard library's.
use krb5_token_service.Prelude.{ℕ, Text, codes}
use krb5_token_service.Prelude.Dict.{Dict}

-- `HTTPException`
pub record HttpError : Type 0 where
  pub status : ℕ
  pub detail : Text
  pub headers : Dict Text

-- Each with its message; `rate_limited` with its `retry_after_seconds`.
pub data Failure : Type 0 where
  invalid_username invalid_lifetime minting bad_password bad_keytab unknown_principal
        account_unusable ticket_expired ccache_parse :
      Text → Failure
  rate_limited : ℕ → Failure
  http : HttpError → Failure
  value_error os_error : Text → Failure
  timeout_expired : Failure

pub data Result {ℓ} (A : Type ℓ) : Type ℓ where
  ok : A → Result A
  raised : Failure → Result A

-- `type(exc).__name__`
unfoldable pub class_name : Failure → Text
class_name (invalid_username _) = codes "InvalidUsernameError"
class_name (invalid_lifetime _) = codes "InvalidLifetimeError"
class_name (minting _) = codes "MintingError"
class_name (bad_password _) = codes "BadPasswordError"
class_name (bad_keytab _) = codes "BadKeytabError"
class_name (unknown_principal _) = codes "UnknownPrincipalError"
class_name (account_unusable _) = codes "AccountUnusableError"
class_name (ticket_expired _) = codes "TicketExpiredError"
class_name (ccache_parse _) = codes "CcacheParseError"
class_name (rate_limited _) = codes "RateLimitedError"
class_name (http _) = codes "HTTPException"
class_name (value_error _) = codes "ValueError"
class_name (os_error _) = codes "OSError"
class_name timeout_expired = codes "TimeoutExpired"
