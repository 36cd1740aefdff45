-- ===== src/Lib.antt =====
-- krb5-token-service
--
-- The service mints Kerberos tickets for CERN accounts: a request carries a token of the AF broker and
-- a password, a keytab or an older ccache; a child process (kinit or cern-get-keytab) talks to the
-- KDC, and the answer carries the ccache or the keytab. This library models all of
-- src/krb5_token_service but the reading of the configuration and the set-up of logging.
--
-- State and failures. `World` is the state of the process: the limiter, the cached keys, the content
-- of every `bytearray`, the temporary directories, the children that were started, the log and a
-- count of the questions asked. `Outside` is what lies outside: the clock, the file system's
-- failures, the children, the broker's endpoint, pykrb5 and PyJWT. Each of its answers may depend on
-- the number of the question, so it may change from one to the next. `Exec A` is
-- `World → Result A × World`: an exception (`Errors`) ends an action and the state survives it.
-- `Exec/Keeps`, `Exec/Stages`, `Exec/Triples` and `Exec/Returns` hold the rules by which the theorems
-- about whole handlers are put together from their steps.
--
-- Files, by the part of src/krb5_token_service:
--   RateLimit           ratelimit.py: `RateLimiter` with `check`, `record_failure`, `reset`;
--                       Overlap has the requests whose children run at the same time
--   Minting/Names       minting.py: `_USERNAME_RE`, `validate_username`, `_LIFETIME_RE`,
--                       `validate_lifetime`, over the regular expressions of Regex
--   Minting/Classify    minting.py: the stderr markers and the four `_classify_*_stderr`
--   Minting/Buffers     minting.py: `_zero_bytearray`
--   Minting/Child       minting.py: `_run_subprocess`
--   Minting/Tickets     minting.py: `mint_ticket`
--   Minting/Renewals    minting.py: `renew_ticket`
--   Minting/Keytabs     minting.py: `mint_keytab`
--   Minting/Written     what a child of the three has written: a keytab, or a ticket
--   Ccache              ccache.py: `read_ccache`, on what pykrb5 gives
--   Identity            identity.py: `get_jwks`, `_fetch_jwks`, `_select_jwk`,
--                       `verify_broker_token`, `peek_sub`; Client and Locks have
--                       `_get_http_client` and `_get_jwks_lock`, and
--                       Flight the requests that refresh the keys at the same time
--   App                 app.py: Requests has the bodies, Common the steps that the handlers share,
--                       Mint, Renew and Keytab a handler each, Health `readyz`, `healthz` and the
--                       state that `create_app` sets up; Audits and Attempts say what a handler
--                       does to the audit log and to the limiter; Refusals has the
--                       status and the text of each answer that is an error
--   Settings            config.py: the settings, their defaults and bounds, `get_settings`
--   Logging             logging.py: `SensitiveValueRedactProcessor`
--   Errors              the exceptions of all of them
--   System              the calls of the standard library that act on the process: the clock,
--                       buffers, `TemporaryDirectory`, files, `subprocess.run`
--   Python              `str.encode`, `bytes.decode`, base64, `str` of an integer, `isoformat`
--   Prelude             texts, dicts, lists and the tests on native numbers
--   Tests               runs at concrete inputs
--
-- Numbers and bounds. Texts are lists of code points. The clock and the limiter count nanoseconds,
-- as `time.monotonic` does in whole numbers, where the program has floats; the settings count
-- seconds. A `datetime` in UTC is its count of seconds since 1970. Every loop of
-- the program is structural recursion on the list that it runs through; the digits of a number
-- (Python/Decimal) are counted on a fuel above the number, which is enough.
--
-- Taken for granted: the removal of a temporary directory and `chmod` do not fail, and a file that is
-- there can be read. PyJWT fails with a `PyJWTError`, a `ValueError` or a `KeyError` only. The cache's
-- time to live is not negative.
--
-- Not modelled: FastAPI and pydantic, that is the parsing of requests and their default answers;
-- the environment and the .env file; the set-up of structlog; the event loop. A handler is one
-- sequence of steps; where requests overlap, only the limiter and the refresh of the keys are
-- modelled, each as a step relation. The vendored cern-get-keytab is a child like any other. The
-- charts and the image have no logic of the program.
pub mod Prelude
pub mod Python
pub mod Regex
pub mod Settings
pub mod Logging
pub mod Errors
pub mod World
pub mod Exec
pub mod RateLimit
pub mod System
pub mod Ccache
pub mod Minting
pub mod Identity
pub mod App
mod Tests
