-- ===== src/Identity/Flight/Single.antt =====
-- A refresh is single-flight: within one time to live one refresh is enough.
use krb5_token_service.Prelude.{
  ℕ, ◌+◌, ◌*◌, ◌≤◌, ◌<◌, ◌≡◌, refl, ◌⊎◌, inl, inr, false, Option, none, some, List, ◌∷◌, ◌++◌,
  arith, leb, if◌then◌else◌, total, total-replace, total-replicate,
}
use krb5_token_service.World.{Jwk, JwksEntry, ticks_per_second}
use krb5_token_service.Identity.{fresh_keys}
use krb5_token_service.Identity.Flight.{
  Phase, asking, waiting, fetching, served, failed, cancelled, is_fetching, is_over, Flight,
  served_or, ask, enter, land, cache_with, successes, Move, asks, enters, lands, Step, moves,
  cancels, Reach, here, later, asked_by,
}
use krb5_token_service.Identity.Flight.Lock.{
  holds, holds-ask, holds-land, at_broker, one_or_none, IsHeld, at_broker-leave, at_broker-same,
  at_broker-enter, at_broker-Reach,
}

module _ (ttl first last : ℕ) where
  abbrev early : Phase → ℕ
  early (fetching began entry) = if leb first began then 0 else 1
  early _ = 0

  early-served_or :
      (p : Phase) (found : Option (List Jwk)) → early p ≡ 0 → early (served_or p found) ≡ 0
  early-served_or p none h = h
  early-served_or p (some keys) h = refl

  early-ask : (now : ℕ) (entry : Option JwksEntry) → early (ask ttl now entry) ≡ 0
  unfolding ask
  early-ask now entry = early-served_or waiting (fresh_keys ttl now entry) refl

  early-enter : (now : ℕ) (entry : Option JwksEntry) → first ≤ now → early (enter ttl now entry) ≡ 0
  unfolding enter
  early-enter now entry h =
      early-served_or (fetching now entry) (fresh_keys ttl now entry) (ground arith)

  early-land :
      (entry : Option JwksEntry) (answer : Option (List Jwk)) → early (land entry answer) ≡ 0
  unfolding land
  early-land entry (some keys) = refl
  early-land (some entry) none = refl
  early-land none none = refl

  -- The entry of a refresh of this run.
  abbrev IsOfRun : Option JwksEntry → Type 0
  IsOfRun none = ⊥
  IsOfRun (some entry) = first ≤ entry.fetched_at

  abbrev Once : ℕ → Option JwksEntry → ℕ → Type 0
  Once refreshes cache fetchers =
      (refreshes ≡ 0) ⊎ ((refreshes ≡ 1) × (fetchers ≡ 0) × IsOfRun cache)

  -- The request at the broker has read the clock in this run; and after a refresh there is none.
  pub record IsSingle (s : Flight) : Type 0 where
    pub begun : total early s.requests ≡ 0
    pub once : Once s.refreshes s.cache (at_broker s)

  -- A request moves that neither was nor is at the broker.
  IsSingle-replace :
      (s : Flight) (xs ys : List Phase) (p q : Phase)
      → s.requests ≡ xs ++ p ∷ ys
      → holds p ≡ 0
      → holds q ≡ 0
      → early p ≡ 0
      → early q ≡ 0
      → IsSingle s
      → IsSingle (record s { requests = xs ++ q ∷ ys })
  IsSingle-replace s xs ys p q e hp hq ep eq k = record {
    begun = omega (arith, total-replace early s.requests xs ys p q e, ep, eq, k.begun);
    once = rw (at_broker-same ttl first last s xs ys p q e hp hq) k.once;
  }

  enter-fresh :
      (now refreshes : ℕ) (cache : Option JwksEntry)
      → now ≤ last
      → last ≤ first + ttl * ticks_per_second
      → Once refreshes cache 0
      → 0 < refreshes
      → holds (enter ttl now cache) ≡ 0
  unfolding enter
  enter-fresh now refreshes cache h d (inl none_yet) pos = omega arith
  enter-fresh now refreshes none h d (inr (_, _, bad)) pos = elim bad [ ]
  enter-fresh now refreshes (some entry) h d (inr (_, _, late)) pos = ground arith

  Once-enter :
      (now refreshes : ℕ) (cache : Option JwksEntry)
      → now ≤ last
      → last ≤ first + ttl * ticks_per_second
      → Once refreshes cache 0
      → Once refreshes cache (holds (enter ttl now cache))
  Once-enter now refreshes cache h d (inl e) = inl e
  Once-enter now refreshes cache h d (inr (e, f, late)) =
      inr (e, enter-fresh now refreshes cache h d (inr (e, f, late)) (omega arith), late)

  Once-land :
      (began refreshes : ℕ) (answer : Option (List Jwk)) (cache : Option JwksEntry)
      → first ≤ began
      → Once refreshes cache 1
      → Once (successes answer + refreshes) (cache_with began answer cache) 0
  unfolding cache_with
  Once-land began refreshes none cache h (inl e) = inl (omega arith)
  Once-land began refreshes (some keys) cache h (inl e) = inr (omega arith, refl, h)
  Once-land began refreshes answer cache h (inr (_, bad, _)) = omega arith

  Once-none :
      (refreshes : ℕ) (cache : Option JwksEntry) → Once refreshes cache 1 → Once refreshes cache 0
  Once-none refreshes cache (inl e) = inl e
  Once-none refreshes cache (inr (_, bad, _)) = omega arith

  one_in_all :
      (refreshes : ℕ) (cache : Option JwksEntry) (fetchers : ℕ)
      → fetchers ≤ 1
      → Once refreshes cache fetchers
      → fetchers + refreshes ≤ 1
  one_in_all refreshes cache fetchers h (inl e) = omega arith
  one_in_all refreshes cache fetchers h (inr (e, f, late)) = omega arith

  not_early :
      (began : ℕ) (entry : Option JwksEntry) → early (fetching began entry) ≡ 0 → first ≤ began
  not_early began entry h = ground arith

  -- The request with the lock free goes to the broker, or is served.
  IsSingle-enter :
      (s : Flight) (xs ys : List Phase) (now : ℕ)
      → s.requests ≡ xs ++ waiting ∷ ys
      → s.is_locked ≡ false
      → first ≤ now
      → now ≤ last
      → last ≤ first + ttl * ticks_per_second
      → IsHeld ttl first last s
      → IsSingle s
      → IsSingle (record s {
        is_locked = is_fetching (enter ttl now s.cache);
        requests = xs ++ enter ttl now s.cache ∷ ys;
      })
  IsSingle-enter s xs ys now e free h h' d held k =
      let q = enter ttl now s.cache in
      let (nobody, same) = at_broker-enter ttl first last s xs ys q e free held in
      record {
        begun = omega (
          arith,
          total-replace early s.requests xs ys waiting q e,
          early-enter now s.cache h,
          k.begun,
        );
        once = rw same (Once-enter now s.refreshes s.cache h' d (rw nobody at k.once));
      }

  -- The request at the broker leaves it, and with it the lock.
  IsSingle-leave :
      (s : Flight) (xs ys : List Phase) (began : ℕ) (entry : Option JwksEntry) (q : Phase)
      (cache : Option JwksEntry) (refreshes : ℕ)
      → s.requests ≡ xs ++ fetching began entry ∷ ys
      → holds q ≡ 0
      → early q ≡ 0
      → (first ≤ began → Once s.refreshes s.cache 1 → Once refreshes cache 0)
      → IsHeld ttl first last s
      → IsSingle s
      → IsSingle (record {
        cache = cache;
        is_locked = false;
        requests = xs ++ q ∷ ys;
        refreshes = refreshes;
      })
  IsSingle-leave s xs ys began entry q cache refreshes e hq eq next held k =
      let b = total-replace early s.requests xs ys (fetching began entry) q e in
      let (one, nobody) = at_broker-leave ttl first last s xs ys began entry q e hq held in
      record {
        begun = omega (arith, b, k.begun, eq);
        once =
            rw nobody
              (next (not_early began entry (omega (arith, b, k.begun, eq))) (rw one at k.once));
      }

  IsSingle-Move :
      (s t : Flight)
      → last ≤ first + ttl * ticks_per_second
      → Move ttl first last s t
      → IsHeld ttl first last s
      → IsSingle s
      → IsSingle t
  IsSingle-Move s t d (asks now xs ys h h' split e) held k = rw e (
      IsSingle-replace s xs ys asking (ask ttl now s.cache) split refl (holds-ask ttl now s.cache)
        refl (early-ask now s.cache) k)
  IsSingle-Move s t d (enters now xs ys h h' free split e) held k =
      rw e (IsSingle-enter s xs ys now split free h h' d held k)
  IsSingle-Move s t d (lands began entry answer xs ys split e) held k = rw e (
      IsSingle-leave s xs ys began entry (land entry answer) (cache_with began answer s.cache)
        (successes answer + s.refreshes) split (holds-land entry answer) (early-land entry answer)
        (Once-land began s.refreshes answer s.cache) held k)

  -- A request that is cancelled.
  IsSingle-cancel :
      (s : Flight) (xs ys : List Phase) (p : Phase)
      → s.requests ≡ xs ++ p ∷ ys
      → is_over p ≡ false
      → IsHeld ttl first last s
      → IsSingle s
      → IsSingle (record s {
        is_locked = if is_fetching p then false else s.is_locked;
        requests = xs ++ cancelled ∷ ys;
      })
  IsSingle-cancel s xs ys asking e o held k =
      IsSingle-replace s xs ys asking cancelled e refl refl refl refl k
  IsSingle-cancel s xs ys waiting e o held k =
      IsSingle-replace s xs ys waiting cancelled e refl refl refl refl k
  IsSingle-cancel s xs ys (fetching began entry) e o held k =
      IsSingle-leave s xs ys began entry cancelled s.cache s.refreshes e refl refl
        (λ h o. Once-none s.refreshes s.cache o) held k
  IsSingle-cancel s xs ys (served keys) e o held k = ground arith
  IsSingle-cancel s xs ys failed e o held k = ground arith
  IsSingle-cancel s xs ys cancelled e o held k = ground arith

  IsSingle-Step :
      (s t : Flight)
      → last ≤ first + ttl * ticks_per_second
      → Step ttl first last s t
      → IsHeld ttl first last s
      → IsSingle s
      → IsSingle t
  IsSingle-Step s t d (moves move) held k = IsSingle-Move s t d move held k
  IsSingle-Step s t d (cancels p xs ys o split e) held k =
      rw e (IsSingle-cancel s xs ys p split o held k)

  IsSingle-asked_by : (n : ℕ) (cache : Option JwksEntry) → IsSingle (asked_by n cache)
  IsSingle-asked_by n cache = record {
    begun = omega (arith, total-replicate early n asking);
    once = inl refl;
  }

  pub IsSingle-Reach :
      (n : ℕ) (cache : Option JwksEntry) (t : Flight)
      → last ≤ first + ttl * ticks_per_second
      → Reach ttl first last (asked_by n cache) t
      → IsSingle t
  IsSingle-Reach n cache t d here = IsSingle-asked_by n cache
  IsSingle-Reach n cache t d (later run step) =
      IsSingle-Step _ t d step (at_broker-Reach ttl first last n cache _ run)
        (IsSingle-Reach n cache _ d run)

  -- Whatever the entry, however many requests, and however they take turns, fail or are cancelled,
  -- as long as the clock stays within the time to live of its first reading: at most one refresh
  -- succeeds, and once one has, no request is at the broker.
  pub at_broker-le-one :
      (n : ℕ) (cache : Option JwksEntry) (t : Flight)
      → last ≤ first + ttl * ticks_per_second
      → Reach ttl first last (asked_by n cache) t
      → at_broker t + t.refreshes ≤ 1
  at_broker-le-one n cache t d run =
      one_in_all t.refreshes t.cache (at_broker t)
        (one_or_none t (at_broker-Reach ttl first last n cache t run))
        (IsSingle-Reach n cache t d run).once
