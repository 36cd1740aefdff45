-- ===== src/Identity/Given.antt =====
-- When `get_jwks` gives keys.
use krb5_token_service.Prelude.{
  suc, ◌≡◌, refl, inl, inr, ap, Option, none, some, List, ◌++◌, ◌⊎◌, codes, Bool-cases,
}
use krb5_token_service.Prelude.Dict
use krb5_token_service.Errors.{Failure, http, Result, ok, raised}
use krb5_token_service.World.{World, Jwk, JwksEntry, Outside}
use krb5_token_service.Settings.{Settings}
use krb5_token_service.Exec.{pure, raise, gets, catch, modify, ◌>>=◌}
use krb5_token_service.System.{emit, next_tick, monotonic}
use krb5_token_service.Identity.{
  bad_gateway, is_fresh, fetch_jwks, fetched, stale, store_keys, download, refresh, locked,
  unlocked, get_jwks,
}
use krb5_token_service.Identity.Keys.{offered, get_jwks-fresh, get_jwks-refreshed}

module _ (env : Outside) (settings : Settings) where
  get_jwks-entry :
      (w : World) (entry : JwksEntry)
      → Dict.lookup settings.broker_jwks_url w.jwks_cache ≡ some entry
      → (keys : List Jwk) × ((get_jwks env settings w).0 ≡ ok keys)
  unfolding get_jwks unlocked locked refresh gets monotonic next_tick ◌>>=◌ pure
  get_jwks-entry w entry h =
      let ttl = settings.jwks_cache_ttl_seconds in
      elim (Bool-cases (is_fresh ttl (env.monotonic w.ticks) entry)) [
        | inl fresh ↦ (entry.keys, ap (λ x. x.0) (get_jwks-fresh env settings w entry h fresh))
        | inr old ↦ elim (Bool-cases (is_fresh ttl (env.monotonic (suc w.ticks)) entry)) [
          | inl fresher ↦ (entry.keys, rw (h, old, h, fresher) refl)
          | inr older ↦ (
            _,
            (get_jwks-refreshed env settings w entry (offered env settings w) refl h old older).0,
          )
        ]
      ]

  -- The failure of a fetch.
  abbrev pub no_keys : Failure
  no_keys = http (bad_gateway (codes "Unable to reach JWKS endpoint: " ++ settings.broker_jwks_url))

  abbrev fetched_or : Option (List Jwk) → Result (List Jwk)
  fetched_or none = raised no_keys
  fetched_or (some keys) = ok keys

  get_jwks-no_entry :
      (w : World) (got : Option (List Jwk))
      → offered env settings w ≡ got
      → Dict.lookup settings.broker_jwks_url w.jwks_cache ≡ none
      → (get_jwks env settings w).0 ≡ fetched_or got
  unfolding get_jwks unlocked locked refresh download store_keys stale fetch_jwks fetched gets
      monotonic next_tick catch modify emit raise ◌>>=◌ pure
  get_jwks-no_entry w none g h = rw (h, h, g) refl
  get_jwks-no_entry w (some keys) g h = rw (h, h, g) refl

  -- There is an entry for the broker's URL, of whatever age, or the broker gives its keys.
  abbrev pub AreThere : World → Type 0
  AreThere w =
      ((entry : JwksEntry) × (Dict.lookup settings.broker_jwks_url w.jwks_cache ≡ some entry))
      ⊎ ((keys : List Jwk) × (offered env settings w ≡ some keys))

  -- `get_jwks` gives keys if they are there, and fails otherwise.
  pub get_jwks-cases :
      (w : World)
      → ((keys : List Jwk) × ((get_jwks env settings w).0 ≡ ok keys) × AreThere w)
        ⊎ (((get_jwks env settings w).0 ≡ raised no_keys) × ¬ (AreThere w))
  get_jwks-cases w =
      by_entry (Dict.lookup settings.broker_jwks_url w.jwks_cache) (offered env settings w) refl
        refl
    where
      by_entry :
          (o : Option JwksEntry) (got : Option (List Jwk))
          → Dict.lookup settings.broker_jwks_url w.jwks_cache ≡ o
          → offered env settings w ≡ got
          → ((keys : List Jwk) × ((get_jwks env settings w).0 ≡ ok keys) × AreThere w)
            ⊎ (((get_jwks env settings w).0 ≡ raised no_keys) × ¬ (AreThere w))
      by_entry (some entry) got h g =
          let (keys, e) = get_jwks-entry w entry h in inl (keys, e, inl (entry, h))
      by_entry none (some keys) h g = inl (keys, get_jwks-no_entry w (some keys) g h, inr (keys, g))
      by_entry none none h g = inr (
        get_jwks-no_entry w none g h,
        λ x. elim x [ inl (entry, k) ↦ cc (h, k) | inr (keys, k) ↦ cc (g, k) ],
      )
