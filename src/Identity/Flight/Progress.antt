-- ===== src/Identity/Flight/Progress.antt =====
-- Every request for the keys comes to an end.
use krb5_token_service.Prelude.{
  ℕ, ◌+◌, ◌*◌, ◌≤◌, ◌<◌, ◌≡◌, refl, ◌∙◌, inl, inr, false, Option, none, some, List, ◌∷◌, ◌++◌,
  arith, total, total-replace, total-replicate, Bool-cases, total-pos,
}
use krb5_token_service.World.{Jwk, JwksEntry}
use krb5_token_service.Identity.{fresh_keys}
use krb5_token_service.Identity.Flight.{
  Phase, asking, waiting, fetching, served, failed, cancelled, is_over, Flight, served_or, ask,
  enter, land, Move, asks, enters, lands, Step, moves, cancels, Reach, here, later, asked_by,
}
use krb5_token_service.Identity.Flight.{steps}
use krb5_token_service.Identity.Flight.Lock.{holds, at_broker, at_broker-Reach}

-- The most moves that a request has before it.
abbrev pub left : Phase → ℕ
left asking = 3
left waiting = 2
left (fetching began entry) = 1
left _ = 0

left-served_or : (p : Phase) (found : Option (List Jwk)) → left (served_or p found) ≤ left p
left-served_or p none = omega arith
left-served_or p (some keys) = omega arith

left-ask : (ttl now : ℕ) (entry : Option JwksEntry) → left (ask ttl now entry) ≤ 2
unfolding ask
left-ask ttl now entry = left-served_or waiting (fresh_keys ttl now entry)

left-enter : (ttl now : ℕ) (entry : Option JwksEntry) → left (enter ttl now entry) ≤ 1
unfolding enter
left-enter ttl now entry = left-served_or (fetching now entry) (fresh_keys ttl now entry)

left-land : (entry : Option JwksEntry) (answer : Option (List Jwk)) → left (land entry answer) ≡ 0
unfolding land
left-land entry (some keys) = refl
left-land (some entry) none = refl
left-land none none = refl

left-open : (p : Phase) → is_over p ≡ false → 0 < left p
left-open asking h = omega arith
left-open waiting h = omega arith
left-open (fetching began entry) h = omega arith
left-open (served keys) h = ground arith
left-open failed h = ground arith
left-open cancelled h = ground arith

abbrev pub moves_left : Flight → ℕ
moves_left s = total left s.requests

left-replace :
    (s : Flight) (xs ys : List Phase) (p q : Phase)
    → s.requests ≡ xs ++ p ∷ ys
    → left q < left p
    → total left (xs ++ q ∷ ys) < moves_left s
left-replace s xs ys p q e h = omega (arith, total-replace left s.requests xs ys p q e)

module _ (ttl first last : ℕ) where
  moves_left-Move : (s t : Flight) → Move ttl first last s t → moves_left t < moves_left s
  moves_left-Move s t (asks now xs ys h h' split e) =
      rw e (left-replace s xs ys asking _ split (omega (arith, left-ask ttl now s.cache)))
  moves_left-Move s t (enters now xs ys h h' free split e) =
      rw e (left-replace s xs ys waiting _ split (omega (arith, left-enter ttl now s.cache)))
  moves_left-Move s t (lands began entry answer xs ys split e) =
      rw e (
        left-replace s xs ys (fetching began entry) _ split (omega (arith, left-land entry answer)))

  moves_left-Step : (s t : Flight) → Step ttl first last s t → moves_left t < moves_left s
  moves_left-Step s t (moves move) = moves_left-Move s t move
  moves_left-Step s t (cancels p xs ys o split e) =
      rw e (left-replace s xs ys p cancelled split (left-open p o))

  -- Every run of requests for the keys ends: it has at most three steps for each of them, less those
  -- that are still to come.
  pub steps-le-three :
      (n : ℕ) (cache : Option JwksEntry) (t : Flight)
      (run : Reach ttl first last (asked_by n cache) t)
      → steps ttl first last run + moves_left t ≤ 3 * n
  steps-le-three n cache t here = omega (arith, total-replicate left n asking)
  steps-le-three n cache t (later run step) =
      omega (arith, moves_left-Step _ t step, steps-le-three n cache _ run)

  Move-of :
      (s : Flight) (xs ys : List Phase) (now : ℕ) (answer : Option (List Jwk)) (p : Phase)
      → first ≤ now
      → now ≤ last
      → s.is_locked ≡ false
      → s.requests ≡ xs ++ p ∷ ys
      → 0 < left p
      → (t : Flight) × Move ttl first last s t
  Move-of s xs ys now answer asking h h' free split more = (_, asks now xs ys h h' split refl)
  Move-of s xs ys now answer waiting h h' free split more =
      (_, enters now xs ys h h' free split refl)
  Move-of s xs ys now answer (fetching began entry) h h' free split more =
      (_, lands began entry answer xs ys split refl)
  Move-of s xs ys now answer (served keys) h h' free split more = ground arith
  Move-of s xs ys now answer failed h h' free split more = ground arith
  Move-of s xs ys now answer cancelled h h' free split more = ground arith

  Move-of_lock :
      (s : Flight) (xs ys : List Phase) (answer : Option (List Jwk)) (p : Phase)
      → s.requests ≡ xs ++ p ∷ ys
      → 0 < holds p
      → (t : Flight) × Move ttl first last s t
  Move-of_lock s xs ys answer (fetching began entry) split more =
      (_, lands began entry answer xs ys split refl)
  Move-of_lock s xs ys answer asking split more = ground arith
  Move-of_lock s xs ys answer waiting split more = ground arith
  Move-of_lock s xs ys answer (served keys) split more = ground arith
  Move-of_lock s xs ys answer failed split more = ground arith
  Move-of_lock s xs ys answer cancelled split more = ground arith

  -- No deadlock: from any state that requests for the keys come to, whatever the broker answers and
  -- whenever the clock is read, some request can go on if any has not ended.
  pub Move-Reach :
      (n : ℕ) (cache : Option JwksEntry) (now : ℕ) (answer : Option (List Jwk)) (t : Flight)
      → first ≤ now
      → now ≤ last
      → Reach ttl first last (asked_by n cache) t
      → 0 < moves_left t
      → (u : Flight) × Move ttl first last t u
  Move-Reach n cache now answer t h h' run more = elim (Bool-cases t.is_locked) [
    | inl locked ↦
        let one : at_broker t ≡ 1 = at_broker-Reach ttl first last n cache t run ∙ rw locked refl in
        let (xs, p, ys, split, k) = total-pos holds t.requests (omega (arith, one)) in
        Move-of_lock t xs ys answer p split k
    | inr free ↦
        let (xs, p, ys, split, k) = total-pos left t.requests more in
        Move-of t xs ys now answer p h h' free split k
  ]
