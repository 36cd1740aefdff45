-- ===== src/Identity/Locks.antt =====
-- `_get_jwks_lock` of src/krb5_token_service/identity.py. A lock is the number of its creation, and an
-- event loop any number.
use krb5_token_service.Prelude.{
  ℕ, suc, ◌<◌, ◌≡◌, ◌≢◌, refl, sym, ap, ◌∙◌, ◌⊎◌, inl, inr, Option, none, some, List, [], ◌∷◌, Text,
  text_eq, text_eq_iff, text_eq_refl, text_ne, if◌then◌else◌, ◌==◌, ==_iff, ◌↔◌, arith, Bool-cases,
}
use krb5_token_service.Prelude.Dict
use krb5_token_service.Prelude.Dict.{Dict}

-- `_jwks_locks`, and how many locks there are.
pub record Locks : Type 0 where
  pub table : Dict (ℕ × ℕ)
  pub created : ℕ

abbrev pub no_locks : Locks
no_locks = record { table = []; created = 0 }

add_lock : ℕ → Text → Locks → ℕ × Locks
add_lock loop url s = (
  s.created,
  record { table = Dict.insert url (loop, s.created) s.table; created = suc s.created },
)

lock_of : Option (ℕ × ℕ) → ℕ → Text → Locks → ℕ × Locks
unfolding add_lock
lock_of none loop url s = add_lock loop url s
lock_of (some (owner, lock)) loop url s = if owner == loop then (lock, s) else add_lock loop url s

unfoldable pub get_jwks_lock : ℕ → Text → Locks → ℕ × Locks
unfolding lock_of
get_jwks_lock loop url s = lock_of (Dict.lookup url s.table) loop url s

-- Calls for these URLs, one after the other.
abbrev pub after_calls : ℕ → List Text → Locks → Locks
after_calls loop [] s = s
after_calls loop (url ∷ urls) s = after_calls loop urls (get_jwks_lock loop url s).1

module _ (loop : ℕ) where
  -- Each lock is one that was created, in this loop, for one URL.
  record IsOrderly (s : Locks) : Type 0 where
    older :
        (u : Text) (e : ℕ × ℕ) → Dict.lookup u s.table ≡ some e → (e.0 ≡ loop) × (e.1 < s.created)
    apart :
        (u v : Text) (e : ℕ × ℕ)
        → Dict.lookup u s.table ≡ some e
        → Dict.lookup v s.table ≡ some e
        → u ≡ v

  IsOrderly-no_locks : IsOrderly no_locks
  unfolding Dict.lookup
  IsOrderly-no_locks = record { older = λ u e h. cc; apart = λ u v e h k. cc }

  -- Where a table with one more entry finds an entry.
  lookup-insert-cases :
      (u v : Text) (e f : ℕ × ℕ) (d : Dict (ℕ × ℕ))
      → Dict.lookup v (Dict.insert u f d) ≡ some e
      → ((u ≡ v) × (e ≡ f)) ⊎ ((u ≢ v) × (Dict.lookup v d ≡ some e))
  lookup-insert-cases u v e f d h =
      let h' : (if text_eq u v then some f else Dict.lookup v d) ≡ some e =
        sym (Dict.lookup-insert u v f d) ∙ h in
      elim (Bool-cases (text_eq u v)) [
        | inl same ↦ inl ((text_eq_iff u v).0 same, cc (rw same at h'))
        | inr other ↦ inr (λ k. cc ((text_eq_iff u v).1 k), rw other at h')
      ]

  IsOrderly-add_lock : (u : Text) (s : Locks) → IsOrderly s → IsOrderly (add_lock loop u s).1
  unfolding add_lock
  IsOrderly-add_lock u s k = record {
    older = λ v e h. elim (lookup-insert-cases u v e (loop, s.created) s.table h) [
      | inl (_, f) ↦ rw f (refl, omega arith)
      | inr (_, g) ↦ let (same, less) = k.older v e g in (same, omega arith)
    ];
    apart = λ v w e h h'. elim (lookup-insert-cases u v e (loop, s.created) s.table h) [
      | inl (a, f) ↦ elim (lookup-insert-cases u w e (loop, s.created) s.table h') [
        | inl (b, _) ↦ sym a ∙ b
        | inr (_, g) ↦
            let (_, less) = k.older w e g in
            let no : ⊥ = omega (arith, ap (λ x. x.1) f) in elim no [ ]
      ]
      | inr (_, g) ↦ elim (lookup-insert-cases u w e (loop, s.created) s.table h') [
        | inl (_, f) ↦
            let (_, less) = k.older v e g in
            let no : ⊥ = omega (arith, ap (λ x. x.1) f) in elim no [ ]
        | inr (_, g') ↦ k.apart v w e g g'
      ]
    ];
  }

  -- A call from a state to the next: it gives the URL's lock, and every other one stays.
  record Gives (u : Text) (s : Locks) (out : ℕ × Locks) : Type 0 where
    orderly : IsOrderly out.1
    given : Dict.lookup u out.1.table ≡ some (loop, out.0)
    kept :
        (v : Text) (e : ℕ × ℕ) → Dict.lookup v s.table ≡ some e → Dict.lookup v out.1.table ≡ some e

  Gives-add_lock :
      (u : Text) (s : Locks)
      → Dict.lookup u s.table ≡ none
      → IsOrderly s
      → Gives u s (add_lock loop u s)
  unfolding add_lock
  Gives-add_lock u s empty k = record {
    orderly = IsOrderly-add_lock u s k;
    given = Dict.lookup-insert u u (loop, s.created) s.table ∙ rw (text_eq_refl u) refl;
    kept = λ v e h.
        Dict.lookup-insert u v (loop, s.created) s.table
        ∙ rw (text_ne u v (λ p. cc (empty, h, p))) h;
  }

  Gives-lock_of :
      (found : Option (ℕ × ℕ)) (u : Text) (s : Locks)
      → Dict.lookup u s.table ≡ found
      → IsOrderly s
      → Gives u s (lock_of found loop u s)
  unfolding lock_of
  Gives-lock_of none u s e k = Gives-add_lock u s e k
  Gives-lock_of (some (owner, lock)) u s e k =
      let mine : owner ≡ loop = (k.older u (owner, lock) e).0 in
      rw ((==_iff owner loop).1 mine)
        (record { orderly = k; given = e ∙ rw mine refl; kept = λ v e h. h })

  Gives-get : (u : Text) (s : Locks) → IsOrderly s → Gives u s (get_jwks_lock loop u s)
  unfolding get_jwks_lock
  Gives-get u s k = Gives-lock_of _ u s refl k

  after-IsOrderly : (us : List Text) (s : Locks) → IsOrderly s → IsOrderly (after_calls loop us s)
  after-IsOrderly [] s k = k
  after-IsOrderly (u ∷ us) s k = after-IsOrderly us _ (Gives-get u s k).orderly

  after-kept :
      (us : List Text) (s : Locks) (v : Text) (e : ℕ × ℕ)
      → IsOrderly s
      → Dict.lookup v s.table ≡ some e
      → Dict.lookup v (after_calls loop us s).table ≡ some e
  after-kept [] s v e k h = h
  after-kept (u ∷ us) s v e k h =
      let g = Gives-get u s k in after-kept us _ v e g.orderly (g.kept v e h)

-- In one event loop, after any calls and with any calls between them, two calls of `_get_jwks_lock`
-- give the same lock exactly when they are for the same URL.
pub get_jwks_lock_iff :
    (loop : ℕ) (before between : List Text) (u v : Text)
    → let first = get_jwks_lock loop u (after_calls loop before no_locks) in
      let second = get_jwks_lock loop v (after_calls loop between first.1) in
      (second.0 ≡ first.0) ↔ (v ≡ u)
get_jwks_lock_iff loop before between u v =
    let s = after_calls loop before no_locks in
    let g = Gives-get loop u s (after-IsOrderly loop before no_locks (IsOrderly-no_locks loop)) in
    let s' = after_calls loop between (get_jwks_lock loop u s).1 in
    let g' = Gives-get loop v s' (after-IsOrderly loop between _ g.orderly) in
    let old = g'.kept u _ (after-kept loop between _ u _ g.orderly g.given) in
    (λ e. g'.orderly.apart v u _ g'.given (old ∙ rw e refl), λ e. cc (g'.given, old, e))
