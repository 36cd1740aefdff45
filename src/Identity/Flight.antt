-- ===== src/Identity/Flight.antt =====
-- `get_jwks` of src/krb5_token_service/identity.py where requests for the same keys overlap. A request
-- waits in two places: for the lock, and for the broker. What stands between two waits happens at once.
pub mod Lock
pub mod Single
pub mod Progress
pub mod Alone
use krb5_token_service.Prelude.{
  ℕ, suc, ◌+◌, ◌*◌, ◌≤◌, ◌≡◌, Bool, true, false, Option, none, some, List, [], ◌∷◌, ◌++◌, replicate,
  if◌then◌else◌, ◌||◌,
}
use krb5_token_service.World.{Jwk, JwksEntry, ticks_per_second}
use krb5_token_service.Identity.{fresh_keys}

-- Where a request stands in `get_jwks`: before it, at the lock, at the broker with the time and the
-- entry that it read under the lock, or past it, with keys, with the failure of the fetch, or
-- cancelled.
pub data Phase : Type 0 where
  asking : Phase
  waiting : Phase
  fetching : ℕ → Option JwksEntry → Phase
  served : List Jwk → Phase
  failed : Phase
  cancelled : Phase

abbrev pub is_fetching : Phase → Bool
is_fetching (fetching began entry) = true
is_fetching _ = false

abbrev pub is_over : Phase → Bool
is_over (served keys) = true
is_over failed = true
is_over cancelled = true
is_over _ = false

-- The entry of the URL, its lock, the requests, and how often a refresh has succeeded.
pub record Flight : Type 0 where
  pub cache : Option JwksEntry
  pub is_locked : Bool
  pub requests : List Phase
  pub refreshes : ℕ

abbrev pub served_or : Phase → Option (List Jwk) → Phase
served_or otherwise (some keys) = served keys
served_or otherwise none = otherwise

-- Up to the lock.
unfoldable pub ask : ℕ → ℕ → Option JwksEntry → Phase
ask ttl now entry = served_or waiting (fresh_keys ttl now entry)

-- From the lock to the broker.
unfoldable pub enter : ℕ → ℕ → Option JwksEntry → Phase
enter ttl now entry = served_or (fetching now entry) (fresh_keys ttl now entry)

-- From the broker's answer to the end.
unfoldable pub land : Option JwksEntry → Option (List Jwk) → Phase
land entry (some keys) = served keys
land (some entry) none = served entry.keys
land none none = failed

unfoldable pub cache_with : ℕ → Option (List Jwk) → Option JwksEntry → Option JwksEntry
cache_with began (some keys) entry = some (record { keys = keys; fetched_at = began })
cache_with began none entry = entry

abbrev pub successes : Option (List Jwk) → ℕ
successes (some keys) = 1
successes none = 0

module _ (ttl first last : ℕ) where
  -- One request goes on, at a time from `first` to `last` where it reads the clock.
  pub data Move (s t : Flight) : Type 0 where
    asks :
        (now : ℕ) (xs ys : List Phase)
        → first ≤ now
        → now ≤ last
        → s.requests ≡ xs ++ asking ∷ ys
        → t ≡ record s { requests = xs ++ ask ttl now s.cache ∷ ys }
        → Move s t
    enters :
        (now : ℕ) (xs ys : List Phase)
        → first ≤ now
        → now ≤ last
        → s.is_locked ≡ false
        → s.requests ≡ xs ++ waiting ∷ ys
        → t ≡ record s {
          is_locked = is_fetching (enter ttl now s.cache);
          requests = xs ++ enter ttl now s.cache ∷ ys;
        }
        → Move s t
    lands :
        (began : ℕ) (entry : Option JwksEntry) (answer : Option (List Jwk)) (xs ys : List Phase)
        → s.requests ≡ xs ++ fetching began entry ∷ ys
        → t ≡ record {
          cache = cache_with began answer s.cache;
          is_locked = false;
          requests = xs ++ land entry answer ∷ ys;
          refreshes = successes answer + s.refreshes;
        }
        → Move s t

  pub data Step (s t : Flight) : Type 0 where
    moves : Move s t → Step s t
    -- A request is cancelled, and leaves the lock if it holds it.
    cancels :
        (p : Phase) (xs ys : List Phase)
        → is_over p ≡ false
        → s.requests ≡ xs ++ p ∷ ys
        → t ≡ record s {
          is_locked = if is_fetching p then false else s.is_locked;
          requests = xs ++ cancelled ∷ ys;
        }
        → Step s t

  pub data Reach (s : Flight) : Flight → Type 0 where
    here : Reach s s
    later : {t u : Flight} → Reach s t → Step t u → Reach s u

  abbrev pub steps : {s t : Flight} → Reach s t → ℕ
  steps here = 0
  steps (later run step) = suc (steps run)

-- So many requests, none of which has begun.
abbrev pub asked_by : ℕ → Option JwksEntry → Flight
asked_by n cache = record {
  cache = cache;
  is_locked = false;
  requests = replicate n asking;
  refreshes = 0;
}
