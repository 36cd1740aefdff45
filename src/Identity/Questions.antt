-- ===== src/Identity/Questions.antt =====
-- The verification of a token asks the outside at most four questions: two readings of the clock, a
-- fetch, and the decoding.
use krb5_token_service.Prelude.{ℕ, refl, Option, none, some, List, Text}
use krb5_token_service.Errors.{Failure, http}
use krb5_token_service.World.{Event, Jwk, JwksEntry, Claims, Verified, valid, invalid, Outside}
use krb5_token_service.Settings.{Settings}
use krb5_token_service.Exec.Takes.{
  Takes, Takes-pure, Takes-raise, Takes-gets, Takes-modify, Takes-catch, Takes-bind,
}
use krb5_token_service.System.{next_tick, emit, monotonic}
use krb5_token_service.Identity.{
  fetched, fetch_jwks, stale, store_keys, download, refresh, locked, unlocked, get_jwks, conclude,
  verify_broker_token,
}
use krb5_token_service.Prelude.{arith}

pub Takes-next_tick : Takes 1 next_tick
unfolding next_tick
Takes-next_tick = record { at = λ w. omega arith }

pub Takes-emit : {k : ℕ} (e : Event) → Takes k (emit e)
unfolding emit
Takes-emit e = Takes-modify _ (λ w. refl)

Takes-monotonic : (env : Outside) → Takes 1 (monotonic env)
unfolding monotonic
Takes-monotonic env = Takes-bind 1 0 _ _ Takes-next_tick (λ n. Takes-pure _)

module _ (env : Outside) where
  Takes-fetched : (url : Text) (keys : Option (List Jwk)) → Takes 0 (fetched env url keys)
  unfolding fetched
  Takes-fetched url none = Takes-bind 0 0 _ _ (Takes-emit _) (λ _. Takes-raise _)
  Takes-fetched url (some keys) = Takes-pure keys

  Takes-stale :
      (url : Text) (entry : Option JwksEntry) (f : Failure) → Takes 0 (stale env url entry f)
  unfolding stale
  Takes-stale url (some entry) (http e) = Takes-bind 0 0 _ _ (Takes-emit _) (λ _. Takes-pure _)
  Takes-stale url (some entry) _ = Takes-raise _
  Takes-stale url none _ = Takes-raise _

  Takes-refresh :
      (url : Text) (now : ℕ) (entry : Option JwksEntry) (fresh : Option (List Jwk))
      → Takes 1 (refresh env url now entry fresh)
  unfolding refresh download store_keys fetch_jwks
  Takes-refresh url now entry (some keys) = Takes-pure keys
  Takes-refresh url now entry none =
      Takes-catch 1 0 _ _
        (Takes-bind 1 0 _ _ (Takes-bind 1 0 _ _ Takes-next_tick (λ n. Takes-fetched url _)) (λ keys.
          Takes-bind 0 0 _ _ (Takes-modify _ (λ w. refl))
            (λ _. Takes-bind 0 0 _ _ (Takes-emit _) (λ _. Takes-pure keys))))
        (Takes-stale url entry)

  Takes-unlocked :
      (url : Text) (ttl : ℕ) (fresh : Option (List Jwk)) → Takes 2 (unlocked env url ttl fresh)
  unfolding unlocked locked
  Takes-unlocked url ttl (some keys) = Takes-pure keys
  Takes-unlocked url ttl none =
      Takes-bind 0 2 _ _ (Takes-gets _)
        (λ entry. Takes-bind 1 1 _ _ (Takes-monotonic env) (λ now. Takes-refresh url now entry _))

  Takes-get_jwks : (settings : Settings) → Takes 3 (get_jwks env settings)
  unfolding get_jwks
  Takes-get_jwks settings =
      Takes-bind 0 3 _ _ (Takes-gets _)
        (λ entry. Takes-bind 1 2 _ _ (Takes-monotonic env) (λ now. Takes-unlocked _ _ _))

  Takes-conclude : (v : Verified Claims) → Takes 0 (conclude env v)
  unfolding conclude
  Takes-conclude (valid claims) = Takes-pure claims
  Takes-conclude (invalid why) = Takes-bind 0 0 _ _ (Takes-emit _) (λ _. Takes-raise _)

  pub Takes-verify_broker_token :
      (token : Text) (settings : Settings) → Takes 4 (verify_broker_token env token settings)
  unfolding verify_broker_token
  Takes-verify_broker_token token settings =
      Takes-bind 3 1 _ _ (Takes-get_jwks settings)
        (λ keys. Takes-bind 1 0 _ _ Takes-next_tick (λ n. Takes-conclude _))
