-- ===== src/Identity/Footprint.antt =====
-- Fetching keys and verifying tokens leave the limiter and the audit lines alone, and raise only two
-- refusals.
use krb5_token_service.Prelude.{
  ℕ, ◌≡◌, refl, ◌⊎◌, inl, inr, Option, none, some, List, Text, codes, ◌++◌,
}
use krb5_token_service.Errors.{Failure, http}
use krb5_token_service.RateLimit.{RateLimiter}
use krb5_token_service.World.{
  World, Spawned, AuditLine, JwksEntry, Jwk, Claims, Verified, valid, invalid, Outside,
}
use krb5_token_service.Settings.{Settings}
use krb5_token_service.Exec.Keeps.{
  Keeps, Keeps-pure, Keeps-raise, Keeps-gets, Keeps-bind, Keeps-modify, Keeps-catch,
}
use krb5_token_service.System.{next_tick, emit, monotonic}
use krb5_token_service.System.Footprint.{audits}
use krb5_token_service.Identity.{
  fetched, fetch_jwks, stale, store_keys, download, refresh, locked, unlocked, get_jwks, conclude,
  verify_broker_token, unauthorized, bad_gateway,
}

-- What a lookup of keys leaves alone.
pub record Books : Type 0 where
  pub limiter : RateLimiter
  pub audit_log : List AuditLine
  pub spawned : List Spawned

abbrev pub books : World → Books
books w = record { limiter = w.limiter; audit_log = audits w.log; spawned = w.spawned }

-- The two refusals that the verification of a token can raise.
abbrev pub IsTokenFailure : Text → Failure → Type 0
IsTokenFailure url (http e) =
    (e ≡ unauthorized (codes "Invalid or expired token"))
    ⊎ (e ≡ bad_gateway (codes "Unable to reach JWKS endpoint: " ++ url))
IsTokenFailure url _ = ⊥

books-next_tick : {E : Failure → Type 0} → Keeps books E next_tick
unfolding next_tick
books-next_tick = record { same = λ w. refl; fails = λ w. tt }

books-monotonic : {E : Failure → Type 0} (env : Outside) → Keeps books E (monotonic env)
unfolding monotonic
books-monotonic env = Keeps-bind _ _ books-next_tick (λ n. Keeps-pure _)

module _ (env : Outside) where
  books-fetched :
      (url : Text) (keys : Option (List Jwk))
      → Keeps books (IsTokenFailure url) (fetched env url keys)
  unfolding fetched emit
  books-fetched url none =
      Keeps-bind _ _ (Keeps-modify _ (λ w. refl)) (λ _. Keeps-raise _ (inr refl))
  books-fetched url (some keys) = Keeps-pure keys

  pub Keeps-fetch_jwks : (url : Text) → Keeps books (IsTokenFailure url) (fetch_jwks env url)
  unfolding fetch_jwks
  Keeps-fetch_jwks url = Keeps-bind _ _ books-next_tick (λ n. books-fetched url _)

  books-stale :
      (url : Text) (entry : Option JwksEntry) (f : Failure)
      → IsTokenFailure url f
      → Keeps books (IsTokenFailure url) (stale env url entry f)
  unfolding stale emit
  books-stale url (some entry) (http e) h =
      Keeps-bind _ _ (Keeps-modify _ (λ w. refl)) (λ _. Keeps-pure _)
  books-stale url none (http e) h = Keeps-raise _ h
  books-stale url entry _ h = absurd h

  books-refresh :
      (url : Text) (now : ℕ) (entry : Option JwksEntry) (fresh : Option (List Jwk))
      → Keeps books (IsTokenFailure url) (refresh env url now entry fresh)
  unfolding refresh download store_keys emit
  books-refresh url now entry (some keys) = Keeps-pure keys
  books-refresh url now entry none =
      Keeps-catch _ _
        (Keeps-bind _ _ (Keeps-fetch_jwks url) (λ keys.
          Keeps-bind _ _ (Keeps-modify _ (λ w. refl))
            (λ _. Keeps-bind _ _ (Keeps-modify _ (λ w. refl)) (λ _. Keeps-pure keys))))
        (books-stale url entry)

  books-unlocked :
      (url : Text) (ttl : ℕ) (fresh : Option (List Jwk))
      → Keeps books (IsTokenFailure url) (unlocked env url ttl fresh)
  unfolding unlocked locked
  books-unlocked url ttl (some keys) = Keeps-pure keys
  books-unlocked url ttl none =
      Keeps-bind _ _ (Keeps-gets _)
        (λ entry. Keeps-bind _ _ (books-monotonic env) (λ now. books-refresh url now entry _))

  pub Keeps-get_jwks :
      (settings : Settings)
      → Keeps books (IsTokenFailure settings.broker_jwks_url) (get_jwks env settings)
  unfolding get_jwks
  Keeps-get_jwks settings =
      Keeps-bind _ _ (Keeps-gets _)
        (λ entry. Keeps-bind _ _ (books-monotonic env) (λ now. books-unlocked _ _ _))

  books-conclude :
      (url : Text) (v : Verified Claims) → Keeps books (IsTokenFailure url) (conclude env v)
  unfolding conclude emit
  books-conclude url (valid claims) = Keeps-pure claims
  books-conclude url (invalid why) =
      Keeps-bind _ _ (Keeps-modify _ (λ w. refl)) (λ _. Keeps-raise _ (inl refl))

  pub Keeps-verify_broker_token :
      (token : Text) (settings : Settings)
      → Keeps books
          (IsTokenFailure settings.broker_jwks_url)
          (verify_broker_token env token settings)
  unfolding verify_broker_token
  Keeps-verify_broker_token token settings =
      Keeps-bind _ _ (Keeps-get_jwks settings)
        (λ keys. Keeps-bind _ _ books-next_tick (λ n. books-conclude _ _))
