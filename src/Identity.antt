-- ===== src/Identity.antt =====
-- src/krb5_token_service/identity.py: the broker's keys, and the verification of its tokens. A refresh
-- is one step here; Flight has the requests that wait for one another.
pub mod Client
pub mod Flight
pub mod Footprint
pub mod Locks
pub mod Keys
pub mod Given
pub mod Questions
pub mod Accepted
use krb5_token_service.Prelude.{
  ℕ, ◌+◌, ◌*◌, Bool, false, Option, none, some, List, [], ◌∷◌, ◌++◌, if◌then◌else◌, Text, codes,
  leb, text_eq, length,
}
use krb5_token_service.Prelude.Dict
use krb5_token_service.Python.Decimal.{show}
use krb5_token_service.Errors.{Failure, http, HttpError}
use krb5_token_service.World.{
  World, noted, Jwk, JwksEntry, Claims, Verified, valid, invalid, Outside, ticks_per_second,
}
use krb5_token_service.Exec.{Exec, pure, raise, gets, catch, modify, ◌>>=◌, ◌>>◌}
use krb5_token_service.Settings.{Settings}
use krb5_token_service.System.{emit, next_tick, monotonic}

-- `(now - entry.fetched_at) <= ttl`, with no subtraction.
abbrev pub is_fresh : ℕ → ℕ → JwksEntry → Bool
is_fresh ttl now entry = leb now (ttl * ticks_per_second + entry.fetched_at)

abbrev pub fresh_keys : ℕ → ℕ → Option JwksEntry → Option (List Jwk)
fresh_keys ttl now none = none
fresh_keys ttl now (some entry) = if is_fresh ttl now entry then some entry.keys else none

has_kid : Text → Option Text → Bool
has_kid kid none = false
has_kid kid (some k) = text_eq k kid

find_kid : Text → List Jwk → Option Jwk
find_kid kid [] = none
find_kid kid (key ∷ keys) = if has_kid kid key.kid then some key else find_kid kid keys

only_key : List Jwk → Option Jwk
only_key (key ∷ []) = some key
only_key _ = none

-- `_select_jwk`
unfoldable pub select_jwk : List Jwk → Option Text → Option Jwk
unfolding find_kid has_kid only_key
select_jwk keys (some kid) = find_kid kid keys
select_jwk keys none = only_key keys

abbrev pub bad_gateway : Text → HttpError
bad_gateway detail = record { status = 502; detail = detail; headers = [] }

abbrev pub unauthorized : Text → HttpError
unauthorized detail = record {
  status = 401;
  detail = detail;
  headers = (codes "WWW-Authenticate", codes "Bearer") ∷ [];
}

module _ (env : Outside) where
  -- The `error` field of the line, the text of the exception, is left out.
  fetched : Text → Option (List Jwk) → Exec (List Jwk)
  fetched url none = do
    emit (noted (codes "jwks_fetch_failed") ((codes "url", url) ∷ []))
    raise (http (bad_gateway (codes "Unable to reach JWKS endpoint: " ++ url)))
  fetched url (some keys) = pure keys

  -- `_fetch_jwks`
  unfoldable pub fetch_jwks : Text → Exec (List Jwk)
  unfolding fetched
  fetch_jwks url = do n ← next_tick; fetched url (env.fetch n url)

  -- A refresh that fails serves the old entry, if there is one.
  stale : Text → Option JwksEntry → Failure → Exec (List Jwk)
  stale url (some entry) (http e) = do
    emit (noted (codes "jwks_refresh_failed_serving_stale") ((codes "url", url) ∷ []))
    pure entry.keys
  stale url _ f = raise f

  store_keys : Text → ℕ → List Jwk → World → World
  store_keys url now keys w = record w {
    jwks_cache = Dict.insert url (record { keys = keys; fetched_at = now }) w.jwks_cache;
  }

  download : Text → ℕ → Exec (List Jwk)
  download url now = do
    keys ← fetch_jwks url
    modify (store_keys url now keys)
    emit (
        noted (codes "jwks_cache_refreshed")
          ((codes "url", url) ∷ (codes "key_count", show (length keys)) ∷ []))
    pure keys

  -- What happens under the lock; `fresh` are the keys of an entry that is still fresh.
  refresh : Text → ℕ → Option JwksEntry → Option (List Jwk) → Exec (List Jwk)
  refresh url now entry (some keys) = pure keys
  refresh url now entry none = catch (download url now) (stale url entry)

  locked : Text → ℕ → Exec (List Jwk)
  locked url ttl = do
    entry ← gets (λ w. Dict.lookup url w.jwks_cache)
    now ← monotonic env
    refresh url now entry (fresh_keys ttl now entry)

  unlocked : Text → ℕ → Option (List Jwk) → Exec (List Jwk)
  unlocked url ttl (some keys) = pure keys
  unlocked url ttl none = locked url ttl

  unfoldable pub get_jwks : Settings → Exec (List Jwk)
  unfolding unlocked locked refresh download store_keys stale
  get_jwks settings = do
    let url = settings.broker_jwks_url
    entry ← gets (λ w. Dict.lookup url w.jwks_cache)
    now ← monotonic env
    unlocked url settings.jwks_cache_ttl_seconds
        (fresh_keys settings.jwks_cache_ttl_seconds now entry)

  -- The text of the first case goes to the log only; the `kid` in it is left out.
  decode_with : ℕ → Text → Settings → Option Jwk → Verified Claims
  decode_with n token settings none = invalid (codes "no JWKS key matches token kid")
  decode_with n token settings (some key) =
      env.decode_token n token key settings.expected_audience settings.broker_issuer

  verify_with : ℕ → Text → Settings → List Jwk → Verified (Option Text) → Verified Claims
  verify_with n token settings keys (invalid why) = invalid why
  verify_with n token settings keys (valid kid) = decode_with n token settings (select_jwk keys kid)

  conclude : Verified Claims → Exec Claims
  conclude (valid claims) = pure claims
  conclude (invalid why) = do
    emit (noted (codes "jwt_validation_failed") ((codes "error", why) ∷ []))
    raise (http (unauthorized (codes "Invalid or expired token")))

  unfoldable pub verify_broker_token : Text → Settings → Exec Claims
  unfolding conclude verify_with decode_with
  verify_broker_token token settings = do
    keys ← get_jwks settings
    n ← next_tick
    conclude (verify_with n token settings keys (env.unverified_kid token))

  subject_of : Verified (Option Text) → Text
  subject_of (valid (some sub)) = sub
  subject_of (valid none) = codes "<unknown>"
  subject_of (invalid why) = codes "<unparseable>"

  unfoldable pub peek_sub : Text → Text
  unfolding subject_of
  peek_sub token = subject_of (env.unverified_sub token)
