-- ===== src/Identity/Flight/Alone.antt =====
-- `get_jwks` as one action is what the requests that overlap come to when there is only one.
use krb5_token_service.Prelude.{
  ℕ, suc, ◌+◌, ◌≤◌, ◌≡◌, refl, ◌∙◌, false, Option, none, some, List, [], ◌∷◌, text_eq_refl,
}
use krb5_token_service.Prelude.Dict
use krb5_token_service.Errors.{Result, ok, raised}
use krb5_token_service.World.{World, Jwk, JwksEntry, Outside}
use krb5_token_service.Settings.{Settings}
use krb5_token_service.Exec.{pure, raise, gets, catch, modify, ◌>>=◌}
use krb5_token_service.System.{emit, next_tick, monotonic}
use krb5_token_service.Identity.{
  fresh_keys, fetch_jwks, fetched, stale, store_keys, download, refresh, locked, unlocked, get_jwks,
}
use krb5_token_service.Identity.Keys.{offered}
use krb5_token_service.Identity.Flight.{
  Phase, served, failed, Flight, ask, enter, land, cache_with, successes, asks, enters, lands,
  moves, Reach, here, later, asked_by,
}

-- One request that has ended.
abbrev pub ended : Option JwksEntry → Phase → ℕ → Flight
ended cache p refreshes = record {
  cache = cache;
  is_locked = false;
  requests = p ∷ [];
  refreshes = refreshes;
}

module _ (ttl first last : ℕ) (entry : Option JwksEntry) (now later_on : ℕ) where
  module _ (h : first ≤ now) (h' : now ≤ last) where
    served_first :
        (keys : List Jwk)
        → fresh_keys ttl now entry ≡ some keys
        → Reach ttl first last (asked_by 1 entry) (ended entry (served keys) 0)
    unfolding ask
    served_first keys f = later here (moves (asks now [] [] h h' refl (rw f refl)))

    module _ (k : first ≤ later_on) (k' : later_on ≤ last)
        (f : fresh_keys ttl now entry ≡ none) where
      served_second :
          (keys : List Jwk)
          → fresh_keys ttl later_on entry ≡ some keys
          → Reach ttl first last (asked_by 1 entry) (ended entry (served keys) 0)
      unfolding ask enter
      served_second keys g =
          later (later here (moves (asks now [] [] h h' refl refl)))
            (moves (enters later_on [] [] k k' refl (rw f refl) (rw g refl)))

      served_third :
          (answer : Option (List Jwk))
          → fresh_keys ttl later_on entry ≡ none
          → Reach ttl first last
              (asked_by 1 entry)
              (ended (cache_with later_on answer entry) (land entry answer) (successes answer + 0))
      unfolding ask enter
      served_third answer g =
          later
            (later (later here (moves (asks now [] [] h h' refl refl)))
              (moves (enters later_on [] [] k k' refl (rw f refl) refl)))
            (moves (lands later_on entry answer [] [] (rw g refl) refl))

-- The request ends as the action does.
abbrev pub EndsAs : Result (List Jwk) → Phase → Type 0
EndsAs (ok keys) (served others) = keys ≡ others
EndsAs (raised e) failed = Unit
EndsAs _ _ = ⊥

module _ (env : Outside) (settings : Settings) (first last : ℕ) where
  abbrev pub IsAlone : Option JwksEntry → Result (List Jwk) × World → Type 0
  IsAlone entry out =
      (p : Phase) × (refreshes : ℕ) × Reach settings.jwks_cache_ttl_seconds first last
        (asked_by 1 entry)
        (ended (Dict.lookup settings.broker_jwks_url out.1.jwks_cache) p refreshes)
      × EndsAs out.0 p

  stored :
      (entry : JwksEntry) (d : Dict.Dict JwksEntry)
      → Dict.lookup settings.broker_jwks_url (Dict.insert settings.broker_jwks_url entry d)
        ≡ some entry
  stored entry d =
      Dict.lookup-insert settings.broker_jwks_url settings.broker_jwks_url entry d
      ∙ rw (text_eq_refl settings.broker_jwks_url) refl

  module _ (w : World) (h : first ≤ env.monotonic w.ticks) (h' : env.monotonic w.ticks ≤ last)
      (k : first ≤ env.monotonic (suc w.ticks)) (k' : env.monotonic (suc w.ticks) ≤ last) where
    get_jwks-fetched :
        (entry : Option JwksEntry) (got : Option (List Jwk))
        → Dict.lookup settings.broker_jwks_url w.jwks_cache ≡ entry
        → offered env settings w ≡ got
        → fresh_keys settings.jwks_cache_ttl_seconds (env.monotonic w.ticks) entry ≡ none
        → fresh_keys settings.jwks_cache_ttl_seconds (env.monotonic (suc w.ticks)) entry ≡ none
        → IsAlone entry (get_jwks env settings w)
    unfolding get_jwks unlocked locked refresh download store_keys stale fetch_jwks fetched gets
        monotonic next_tick catch modify emit raise ◌>>=◌ pure land cache_with
    get_jwks-fetched none none e o f g =
        rw (e, e, o, e) (_, _, served_third _ first last none _ _ h h' k k' f none g, tt)
    get_jwks-fetched (some old) none e o f g =
        rw (e, f, e, g, o, e)
          (_, _, served_third _ first last (some old) _ _ h h' k k' f none g, refl)
    get_jwks-fetched none (some keys) e o f g =
        rw
          (
            e,
            e,
            o,
            stored (record { keys = keys; fetched_at = env.monotonic (suc w.ticks) }) w.jwks_cache,
          )
          (_, _, served_third _ first last none _ _ h h' k k' f (some keys) g, refl)
    get_jwks-fetched (some old) (some keys) e o f g =
        rw
          (
            e,
            f,
            e,
            g,
            o,
            stored (record { keys = keys; fetched_at = env.monotonic (suc w.ticks) }) w.jwks_cache,
          )
          (_, _, served_third _ first last (some old) _ _ h h' k k' f (some keys) g, refl)

    get_jwks-second :
        (entry : Option JwksEntry) (found : Option (List Jwk))
        → Dict.lookup settings.broker_jwks_url w.jwks_cache ≡ entry
        → fresh_keys settings.jwks_cache_ttl_seconds (env.monotonic w.ticks) entry ≡ none
        → fresh_keys settings.jwks_cache_ttl_seconds (env.monotonic (suc w.ticks)) entry ≡ found
        → IsAlone entry (get_jwks env settings w)
    unfolding get_jwks unlocked locked refresh gets monotonic next_tick ◌>>=◌ pure
    get_jwks-second entry none e f g = get_jwks-fetched entry (offered env settings w) e refl f g
    get_jwks-second none (some keys) e f g = cc
    get_jwks-second (some old) (some keys) e f g =
        rw (e, f, e, g, e)
          (_, _, served_second _ first last (some old) _ _ h h' k k' f keys g, refl)

    get_jwks-first :
        (entry : Option JwksEntry) (found : Option (List Jwk))
        → Dict.lookup settings.broker_jwks_url w.jwks_cache ≡ entry
        → fresh_keys settings.jwks_cache_ttl_seconds (env.monotonic w.ticks) entry ≡ found
        → IsAlone entry (get_jwks env settings w)
    unfolding get_jwks unlocked gets monotonic next_tick ◌>>=◌ pure
    get_jwks-first entry none e f = get_jwks-second entry _ e f refl
    get_jwks-first none (some keys) e f = cc
    get_jwks-first (some old) (some keys) e f =
        rw (e, f, e) (_, _, served_first _ first last (some old) _ 0 h h' keys f, refl)

-- `get_jwks` as one action, from any state whose two readings of the clock lie between `first` and
-- `last`, is a run of one request alone: it ends with the same keys, or fails where the request does,
-- and leaves the same entry in the cache.
pub get_jwks-IsAlone :
    (env : Outside) (settings : Settings) (first last : ℕ) (w : World)
    → first ≤ env.monotonic w.ticks
    → env.monotonic w.ticks ≤ last
    → first ≤ env.monotonic (suc w.ticks)
    → env.monotonic (suc w.ticks) ≤ last
    → IsAlone env settings first last
        (Dict.lookup settings.broker_jwks_url w.jwks_cache)
        (get_jwks env settings w)
get_jwks-IsAlone env settings first last w h h' k k' =
    get_jwks-first env settings first last w h h' k k' _ _ refl refl
