-- ===== src/Identity/Keys.antt =====
-- The cache of the broker's keys, and the choice of a key.
use krb5_token_service.Prelude.{
  suc, ◌≡◌, ◌≢◌, refl, sym, inl, inr, ap, ◌∙◌, arith, true, false, Option, none, some, List, [],
  ◌∷◌, ◌++◌, Text, text_eq_iff, All, Bool-cases, ◌↔◌, length,
}
use krb5_token_service.Prelude.Dict
use krb5_token_service.Errors.{ok}
use krb5_token_service.World.{World, Jwk, JwksEntry, Outside}
use krb5_token_service.Settings.{Settings}
use krb5_token_service.Exec.{pure, raise, gets, catch, modify, ◌>>=◌}
use krb5_token_service.System.{emit, next_tick, monotonic}
use krb5_token_service.Identity.{
  is_fresh, select_jwk, find_kid, has_kid, only_key, fetch_jwks, fetched, stale, store_keys,
  download, refresh, locked, unlocked, get_jwks,
}

module _ (env : Outside) (settings : Settings) where
  -- The keys that the broker gives on the first fetch after the two readings of the clock.
  abbrev pub offered : World → Option (List Jwk)
  offered w = env.fetch (suc (suc w.ticks)) settings.broker_jwks_url

  -- With an entry that is not older than its time to live: its keys, without a fetch, and nothing but
  -- the clock is asked.
  pub get_jwks-fresh :
      (w : World) (entry : JwksEntry)
      → Dict.lookup settings.broker_jwks_url w.jwks_cache ≡ some entry
      → is_fresh settings.jwks_cache_ttl_seconds (env.monotonic w.ticks) entry ≡ true
      → get_jwks env settings w ≡ (ok entry.keys, record w { ticks = suc w.ticks })
  unfolding get_jwks unlocked gets monotonic next_tick ◌>>=◌ pure
  get_jwks-fresh w entry h fresh = rw (h, fresh) refl

  -- The cache after a refresh: what the broker gave, as of the second reading of the clock.
  abbrev pub cache_after : World → Option (List Jwk) → Dict.Dict JwksEntry
  cache_after w none = w.jwks_cache
  cache_after w (some keys) =
      Dict.insert settings.broker_jwks_url
        (record { keys = keys; fetched_at = env.monotonic (suc w.ticks) }) w.jwks_cache

  abbrev pub keys_or : List Jwk → Option (List Jwk) → List Jwk
  keys_or old none = old
  keys_or old (some keys) = keys

  pub get_jwks-refreshed :
      (w : World) (entry : JwksEntry) (got : Option (List Jwk))
      → offered w ≡ got
      → Dict.lookup settings.broker_jwks_url w.jwks_cache ≡ some entry
      → is_fresh settings.jwks_cache_ttl_seconds (env.monotonic w.ticks) entry ≡ false
      → is_fresh settings.jwks_cache_ttl_seconds (env.monotonic (suc w.ticks)) entry ≡ false
      → let out = get_jwks env settings w in
        (out.0 ≡ ok (keys_or entry.keys got)) × (out.1.jwks_cache ≡ cache_after w got)
  unfolding get_jwks unlocked locked refresh download store_keys stale fetch_jwks fetched gets
      monotonic next_tick catch modify emit raise ◌>>=◌ pure
  get_jwks-refreshed w entry none g h old older = rw (h, old, h, older, g) (refl, refl)
  get_jwks-refreshed w entry (some keys) g h old older = rw (h, old, h, older, g) (refl, refl)

  -- With an entry that is older than its time to live at both readings of the clock: a fetch that succeeds gives its keys and
  -- replaces the entry; one that fails gives the old keys and leaves the cache as it is. A broker that
  -- is down never makes it raise.
  pub get_jwks-stale :
      (w : World) (entry : JwksEntry)
      → Dict.lookup settings.broker_jwks_url w.jwks_cache ≡ some entry
      → is_fresh settings.jwks_cache_ttl_seconds (env.monotonic w.ticks) entry ≡ false
      → is_fresh settings.jwks_cache_ttl_seconds (env.monotonic (suc w.ticks)) entry ≡ false
      → let out = get_jwks env settings w in
        (out.0 ≡ ok (keys_or entry.keys (offered w)))
        × (out.1.jwks_cache ≡ cache_after w (offered w))
  get_jwks-stale w entry h old older = get_jwks-refreshed w entry (offered w) refl h old older

-- The key at which a search ends: none of those before it has the `kid`.
abbrev pub IsFirst : (Jwk → Type 0) → Jwk → List Jwk → Type 0
IsFirst P key keys =
    (before : List Jwk) × (after : List Jwk) × (keys ≡ before ++ key ∷ after)
    × All (λ k. ¬ P k) before
    × P key

has_kid_iff : (kid : Text) (o : Option Text) → (has_kid kid o ≡ true) ↔ (o ≡ some kid)
unfolding has_kid
has_kid_iff kid none = (λ h. cc, λ h. cc)
has_kid_iff kid (some k) = (λ h. ap some ((text_eq_iff k kid).0 h), λ h. (text_eq_iff k kid).1 cc)

find_kid-IsFirst :
    (kid : Text) (keys : List Jwk) (key : Jwk)
    → find_kid kid keys ≡ some key
    → IsFirst (λ k. k.kid ≡ some kid) key keys
unfolding find_kid
find_kid-IsFirst kid [] key h = cc
find_kid-IsFirst kid (k ∷ keys) key h = elim (Bool-cases (has_kid kid k.kid)) [
  | inl found ↦
      let same : k ≡ key = some-injective (rw found at h) in
      (
        [],
        keys,
        ap (λ x. x ∷ keys) same,
        tt,
        ap Jwk.kid (sym same) ∙ (has_kid_iff kid k.kid).0 found,
      )
  | inr other ↦
      let (before, after, e, none_before, is_kid) = find_kid-IsFirst kid keys key (rw other at h) in
      (
        k ∷ before,
        after,
        ap (◌∷◌ k) e,
        ((λ t. cc ((has_kid_iff kid k.kid).1 t)), none_before),
        is_kid,
      )
]
  where
    some-injective : {a b : Jwk} → ◌≡◌ {A = Option Jwk} (some a) (some b) → a ≡ b
    some-injective e = cc

find_kid-none :
    (kid : Text) (keys : List Jwk) → find_kid kid keys ≡ none → All (λ k. ¬ (k.kid ≡ some kid)) keys
unfolding find_kid
find_kid-none kid [] h = tt
find_kid-none kid (k ∷ keys) h = elim (Bool-cases (has_kid kid k.kid)) [
  | inl found ↦ absurd (cc (rw found at h))
  | inr other ↦ ((λ t. cc ((has_kid_iff kid k.kid).1 t)), find_kid-none kid keys (rw other at h))
]

-- What the choice of a key by the token's `kid` comes to. With a `kid`, the first key that has it, and
-- none only if no key has it; without, the only key of a set of one.
abbrev pub Selected : List Jwk → Option Text → Option Jwk → Type 0
Selected keys (some kid) (some key) = IsFirst (λ k. k.kid ≡ some kid) key keys
Selected keys (some kid) none = All (λ k. ¬ (k.kid ≡ some kid)) keys
Selected keys none (some key) = keys ≡ key ∷ []
Selected keys none none = length keys ≢ 1

only_key-Selected : (keys : List Jwk) → Selected keys none (only_key keys)
unfolding only_key
only_key-Selected [] = λ h. cc
only_key-Selected (k ∷ []) = refl
only_key-Selected (k ∷ j ∷ keys) = λ h. omega arith

find_kid-Selected :
    (kid : Text) (keys : List Jwk) (o : Option Jwk)
    → find_kid kid keys ≡ o
    → Selected keys (some kid) o
find_kid-Selected kid keys none h = find_kid-none kid keys h
find_kid-Selected kid keys (some key) h = find_kid-IsFirst kid keys key h

-- With a `kid`, the first key that has it is chosen, and none only if no key has it; without one, a key
-- is chosen exactly if the set has no other.
pub select_jwk-Selected :
    (keys : List Jwk) (kid : Option Text) → Selected keys kid (select_jwk keys kid)
unfolding select_jwk
select_jwk-Selected keys none = only_key-Selected keys
select_jwk-Selected keys (some kid) = find_kid-Selected kid keys _ refl
