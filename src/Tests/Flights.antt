-- ===== src/Tests/Flights.antt =====
-- Requests for the broker's keys that overlap, at concrete interleavings.
use krb5_token_service.Prelude.{
  ◌+◌, ◌*◌, ◌≤◌, ◌≡◌, ◌↔◌, refl, arith, true, false, Option, none, some, [], ◌∷◌, codes,
  if◌then◌else◌,
}
use krb5_token_service.Prelude.Dict
use krb5_token_service.World.{World, JwksEntry}
use krb5_token_service.Settings.{default_settings}
use krb5_token_service.App.Health.{create_app}
use krb5_token_service.Identity.{get_jwks}
use krb5_token_service.Identity.Locks.{get_jwks_lock, get_jwks_lock_iff, no_locks, after_calls}
use krb5_token_service.Identity.Flight.{
  Flight, asking, waiting, fetching, served, cancelled, ask, enter, land, cache_with, Move, asks,
  enters, lands, moves, cancels, Reach, here, later, steps, asked_by,
}
use krb5_token_service.Identity.Flight.Lock.{at_broker, at_broker-Reach}
use krb5_token_service.Identity.Flight.Single.{at_broker-le-one}
use krb5_token_service.Identity.Flight.Progress.{moves_left, steps-le-three, Move-Reach}
use krb5_token_service.Identity.Flight.Alone.{IsAlone, get_jwks-IsAlone}
use krb5_token_service.Tests.Sample.{outside, key}

abbrev old : Option JwksEntry
old = some (record { keys = []; fetched_at = 0 })

-- Of three requests, the first is at the broker, the second waits for the lock, and the third has been
-- cancelled.
abbrev one_fetches : Flight
one_fetches = record {
  cache = old;
  is_locked = true;
  requests = fetching 20000000000 old ∷ waiting ∷ cancelled ∷ [];
  refreshes = 0;
}

abbrev Run : Flight → Flight → Type 0
Run s t = Reach 10 20000000000 25000000000 s t

one_run : Run (asked_by 3 old) one_fetches
unfolding ask enter
one_run =
    later
      (later
        (later
          (later here (
            moves
              (asks 20000000000 [] (asking ∷ asking ∷ []) (omega arith) (omega arith) refl refl)))
          (moves
            (asks 20000000000 (waiting ∷ []) (asking ∷ []) (omega arith) (omega arith) refl refl)))
        (moves (
          enters 20000000000 [] (waiting ∷ asking ∷ []) (omega arith) (omega arith) refl refl
            refl)))
      (cancels asking (fetching 20000000000 old ∷ waiting ∷ []) [] refl refl refl)

-- The first has been served with new keys, and so has the second, from the cache.
abbrev both_served : Flight
both_served = record {
  cache = some (record { keys = key ∷ []; fetched_at = 20000000000 });
  is_locked = false;
  requests = served (key ∷ []) ∷ served (key ∷ []) ∷ cancelled ∷ [];
  refreshes = 1;
}

both_run : Run (asked_by 3 old) both_served
unfolding land enter cache_with
both_run =
    later
      (later one_run
        (moves (lands 20000000000 old (some (key ∷ [])) [] (waiting ∷ cancelled ∷ []) refl refl)))
      (moves (
        enters 21000000000 (served (key ∷ []) ∷ []) (cancelled ∷ []) (omega arith) (omega arith)
          refl refl refl))

at_broker-Reach_example : at_broker one_fetches ≡ (if one_fetches.is_locked then 1 else 0)
at_broker-Reach_example = at_broker-Reach 10 20000000000 25000000000 3 old one_fetches one_run

at_broker-le-one_example : at_broker both_served + both_served.refreshes ≤ 1
at_broker-le-one_example =
    at_broker-le-one 10 20000000000 25000000000 3 old both_served (omega arith) both_run

steps-le-three_example : steps 10 20000000000 25000000000 both_run + moves_left both_served ≤ 3 * 3
steps-le-three_example = steps-le-three 10 20000000000 25000000000 3 old both_served both_run

Move-Reach_example : (u : Flight) × Move 10 20000000000 25000000000 one_fetches u
Move-Reach_example =
    Move-Reach 10 20000000000 25000000000 3 old 22000000000 none one_fetches (omega arith)
      (omega arith) one_run (omega arith)

abbrev ready : World
ready = create_app default_settings

get_jwks-IsAlone_example :
    IsAlone outside default_settings 0 5000000000
      (Dict.lookup default_settings.broker_jwks_url ready.jwks_cache)
      (get_jwks outside default_settings ready)
unfolding create_app
get_jwks-IsAlone_example =
    get_jwks-IsAlone outside default_settings 0 5000000000 ready (omega arith) (omega arith)
      (omega arith) (omega arith)

get_jwks_lock_iff_example :
    let first = get_jwks_lock 7 (codes "u") (after_calls 7 (codes "v" ∷ []) no_locks) in
    let second = get_jwks_lock 7 (codes "v") (after_calls 7 (codes "w" ∷ []) first.1) in
    (second.0 ≡ first.0) ↔ (codes "v" ≡ codes "u")
get_jwks_lock_iff_example =
    get_jwks_lock_iff 7 (codes "v" ∷ []) (codes "w" ∷ []) (codes "u") (codes "v")
