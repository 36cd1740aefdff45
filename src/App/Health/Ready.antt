-- ===== src/App/Health/Ready.antt =====
-- When the service reports that it is ready.
use krb5_token_service.Prelude.{◌≡◌, refl, inl, inr, ◌↔◌, Bool, true, false, Text, List, codes, suc}
use krb5_token_service.Errors.{Failure, http, Result, ok, raised}
use krb5_token_service.World.{World, Jwk, Outside}
use krb5_token_service.Settings.{Settings}
use krb5_token_service.Exec.{pure, raise, catch, ◌>>=◌}
use krb5_token_service.Exec.Keeps.{Fails}
use krb5_token_service.System.{next_tick}
use krb5_token_service.Identity.{get_jwks}
use krb5_token_service.Identity.Given.{no_keys, AreThere, get_jwks-cases}
use krb5_token_service.App.Common.{plain_error}
use krb5_token_service.App.Health.{readyz, jwks_problems, unreachable, report}

-- A 503.
abbrev pub IsUnavailable : Failure → Type 0
IsUnavailable f = (problems : Text) × (f ≡ http (plain_error 503 problems))

-- The answer is `ready` exactly if `P` holds, and a 503 otherwise.
abbrev pub IsReadyIf : Type 0 → Result Text → Type 0
IsReadyIf P r = ((r ≡ ok (codes "ready")) ↔ P) × Fails IsUnavailable r

IsReadyIf-unavailable :
    {P : Type 0} (problems : Text) → ¬ P → IsReadyIf P (raised (http (plain_error 503 problems)))
IsReadyIf-unavailable problems p = (((λ h. cc), (λ h. absurd (p h))), (problems, refl))

module _ (env : Outside) (settings : Settings) (w : World) where
  -- The state in which the keys are asked for, after two questions.
  abbrev pub asked : World
  asked = record w { ticks = suc (suc w.ticks) }

  abbrev AllFine : Bool → Bool → Type 0
  AllFine b c = (b ≡ true) × (c ≡ true) × AreThere env settings asked

  with_keys :
      (b c : Bool) (keys : List Jwk)
      → env.has_executable w.ticks settings.kinit_bin ≡ b
      → env.can_read (suc w.ticks) settings.krb5_config ≡ c
      → (get_jwks env settings asked).0 ≡ ok keys
      → AreThere env settings asked
      → IsReadyIf (AllFine b c) (readyz env settings w).0
  unfolding readyz jwks_problems unreachable report next_tick catch ◌>>=◌ pure raise
  with_keys true true keys hb hc hr there =
      rw (hb, hc, hr) (((λ h. (refl, refl, there)), (λ h. refl)), tt)
  with_keys true false keys hb hc hr there =
      rw (hb, hc, hr) (IsReadyIf-unavailable _ (λ (p, q, x). cc))
  with_keys false true keys hb hc hr there =
      rw (hb, hc, hr) (IsReadyIf-unavailable _ (λ (p, q, x). cc))
  with_keys false false keys hb hc hr there =
      rw (hb, hc, hr) (IsReadyIf-unavailable _ (λ (p, q, x). cc))

  without_keys :
      (b c : Bool)
      → env.has_executable w.ticks settings.kinit_bin ≡ b
      → env.can_read (suc w.ticks) settings.krb5_config ≡ c
      → (get_jwks env settings asked).0 ≡ raised (no_keys env settings)
      → ¬ (AreThere env settings asked)
      → IsReadyIf (AllFine b c) (readyz env settings w).0
  unfolding readyz jwks_problems unreachable report next_tick catch ◌>>=◌ pure raise
  without_keys true true hb hc hr none_there =
      rw (hb, hc, hr) (IsReadyIf-unavailable _ (λ (p, q, x). none_there x))
  without_keys true false hb hc hr none_there =
      rw (hb, hc, hr) (IsReadyIf-unavailable _ (λ (p, q, x). none_there x))
  without_keys false true hb hc hr none_there =
      rw (hb, hc, hr) (IsReadyIf-unavailable _ (λ (p, q, x). none_there x))
  without_keys false false hb hc hr none_there =
      rw (hb, hc, hr) (IsReadyIf-unavailable _ (λ (p, q, x). none_there x))

  -- `readyz` answers `ready` exactly if kinit is found, the Kerberos configuration can be read, and the
  -- cache has an entry for the broker's keys, however old and though the broker be down, or else a fetch
  -- gives them; in every other case it answers with a 503.
  pub readyz_iff :
      IsReadyIf
        ((env.has_executable w.ticks settings.kinit_bin ≡ true)
          × (env.can_read (suc w.ticks) settings.krb5_config ≡ true)
          × AreThere env settings asked)
        (readyz env settings w).0
  readyz_iff = elim (get_jwks-cases env settings asked) [
    | inl (keys, e, there) ↦ with_keys _ _ keys refl refl e there
    | inr (e, none_there) ↦ without_keys _ _ refl refl e none_there
  ]
