-- ===== src/Identity/Flight/Lock.antt =====
-- The lock of the keys: it is held exactly by the request at the broker.
use krb5_token_service.Prelude.{
  ℕ, ◌≤◌, ◌≡◌, refl, ◌∙◌, false, Option, none, some, List, ◌∷◌, ◌++◌, arith, if◌then◌else◌, total,
  total-replace, total-replicate,
}
use krb5_token_service.World.{Jwk, JwksEntry}
use krb5_token_service.Identity.{fresh_keys}
use krb5_token_service.Identity.Flight.{
  Phase, asking, waiting, fetching, served, failed, cancelled, is_fetching, is_over, Flight,
  served_or, ask, enter, land, Move, asks, enters, lands, Step, moves, cancels, Reach, here, later,
  asked_by,
}

-- 1 for the request at the broker.
abbrev pub holds : Phase → ℕ
holds p = if is_fetching p then 1 else 0

-- The requests at the broker.
abbrev pub at_broker : Flight → ℕ
at_broker s = total holds s.requests

holds-served_or : (p : Phase) (found : Option (List Jwk)) → holds (served_or p found) ≤ holds p
holds-served_or p none = omega arith
holds-served_or p (some keys) = omega arith

pub holds-ask : (ttl now : ℕ) (entry : Option JwksEntry) → holds (ask ttl now entry) ≡ 0
unfolding ask
holds-ask ttl now entry = omega (arith, holds-served_or waiting (fresh_keys ttl now entry))

pub holds-land :
    (entry : Option JwksEntry) (answer : Option (List Jwk)) → holds (land entry answer) ≡ 0
unfolding land
holds-land entry (some keys) = refl
holds-land (some entry) none = refl
holds-land none none = refl

pub one_or_none : (s : Flight) → at_broker s ≡ (if s.is_locked then 1 else 0) → at_broker s ≤ 1
one_or_none s h = ground arith

module _ (ttl first last : ℕ) where
  abbrev pub IsHeld : Flight → Type 0
  IsHeld s = at_broker s ≡ (if s.is_locked then 1 else 0)

  -- A request that holds the lock leaves the broker, so that nobody is there.
  pub at_broker-leave :
      (s : Flight) (xs ys : List Phase) (began : ℕ) (entry : Option JwksEntry) (q : Phase)
      → s.requests ≡ xs ++ fetching began entry ∷ ys
      → holds q ≡ 0
      → IsHeld s
      → (at_broker s ≡ 1) × (total holds (xs ++ q ∷ ys) ≡ 0)
  at_broker-leave s xs ys began entry q e hq k =
      let a = total-replace holds s.requests xs ys (fetching began entry) q e in
      (omega (arith, a, hq, one_or_none s k), omega (arith, a, hq, one_or_none s k))

  -- A request goes on that neither was nor is at the broker.
  pub at_broker-same :
      (s : Flight) (xs ys : List Phase) (p q : Phase)
      → s.requests ≡ xs ++ p ∷ ys
      → holds p ≡ 0
      → holds q ≡ 0
      → total holds (xs ++ q ∷ ys) ≡ at_broker s
  at_broker-same s xs ys p q e hp hq =
      omega (arith, total-replace holds s.requests xs ys p q e, hp, hq)

  -- A request takes the free lock.
  pub at_broker-enter :
      (s : Flight) (xs ys : List Phase) (q : Phase)
      → s.requests ≡ xs ++ waiting ∷ ys
      → s.is_locked ≡ false
      → IsHeld s
      → (at_broker s ≡ 0) × (total holds (xs ++ q ∷ ys) ≡ holds q)
  at_broker-enter s xs ys q e free k =
      let nobody : at_broker s ≡ 0 = k ∙ rw free refl in
      (nobody, omega (arith, total-replace holds s.requests xs ys waiting q e, nobody))

  IsHeld-Move : (s t : Flight) → Move ttl first last s t → IsHeld s → IsHeld t
  IsHeld-Move s t (asks now xs ys h h' split e) k = rw e (
      at_broker-same s xs ys asking (ask ttl now s.cache) split refl (holds-ask ttl now s.cache)
      ∙ k)
  IsHeld-Move s t (enters now xs ys h h' free split e) k =
      rw e (at_broker-enter s xs ys (enter ttl now s.cache) split free k).1
  IsHeld-Move s t (lands began entry answer xs ys split e) k =
      rw e
        (at_broker-leave s xs ys began entry (land entry answer) split (holds-land entry answer)
          k).1

  IsHeld-cancel :
      (s : Flight) (xs ys : List Phase) (p : Phase)
      → s.requests ≡ xs ++ p ∷ ys
      → is_over p ≡ false
      → IsHeld s
      → total holds (xs ++ cancelled ∷ ys)
        ≡ (if (if is_fetching p then false else s.is_locked) then 1 else 0)
  IsHeld-cancel s xs ys asking e o k = at_broker-same s xs ys asking cancelled e refl refl ∙ k
  IsHeld-cancel s xs ys waiting e o k = at_broker-same s xs ys waiting cancelled e refl refl ∙ k
  IsHeld-cancel s xs ys (fetching began entry) e o k =
      (at_broker-leave s xs ys began entry cancelled e refl k).1
  IsHeld-cancel s xs ys (served keys) e o k = ground arith
  IsHeld-cancel s xs ys failed e o k = ground arith
  IsHeld-cancel s xs ys cancelled e o k = ground arith

  IsHeld-Step : (s t : Flight) → Step ttl first last s t → IsHeld s → IsHeld t
  IsHeld-Step s t (moves move) k = IsHeld-Move s t move k
  IsHeld-Step s t (cancels p xs ys o split e) k = rw e (IsHeld-cancel s xs ys p split o k)

  -- Whatever the entry and however many requests ask, and however they take turns, fail or are
  -- cancelled: the lock is held exactly while a request is at the broker, and never more than one is
  -- there.
  pub at_broker-Reach :
      (n : ℕ) (cache : Option JwksEntry) (t : Flight)
      → Reach ttl first last (asked_by n cache) t
      → at_broker t ≡ (if t.is_locked then 1 else 0)
  at_broker-Reach n cache t here = omega (arith, total-replicate holds n asking)
  at_broker-Reach n cache t (later run step) = IsHeld-Step _ t step (at_broker-Reach n cache _ run)
