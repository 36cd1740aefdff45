-- ===== src/App/Audits.antt =====
-- The audit line of a request: what every answer of a handler adds to the audit log.
use krb5_token_service.Prelude.{◌≡◌, refl, ap, List, ◌∷◌, leb, if◌then◌else◌, Text}
use krb5_token_service.Errors.{Failure, http, HttpError, Result, ok, raised}
use krb5_token_service.World.{World, AuditLine}
use krb5_token_service.Exec.{Exec, pure, raise, modify, ◌>>=◌, ◌>>◌}
use krb5_token_service.Exec.Keeps.{Keeps}
use krb5_token_service.Exec.Stages.{Ends, IsStage, IsStage-Keeps, Ends-raise}
use krb5_token_service.System.{emit}
use krb5_token_service.System.Footprint.{Ledger, ledger, audits}
use krb5_token_service.App.Common.{audit, refuse, issued, denied, error}

abbrev pub audit_log : World → List AuditLine
audit_log w = audits w.log

-- A server error is an error of the platform, any other refusal a denial.
abbrev pub outcome_of : HttpError → Text
outcome_of e = if leb 500 e.status then error else denied

-- One line more than before, with the outcome.
abbrev pub OneMore : Text → List AuditLine → List AuditLine → Type 0
OneMore outcome before after =
    (line : AuditLine) × (after ≡ line ∷ before) × (line.outcome ≡ outcome)

-- What a refusal has done to the audit log: an `HTTPException` has one line that fits its status, and
-- any other exception none.
abbrev pub Refused : Failure → List AuditLine → List AuditLine → Type 0
Refused (http e) before after = OneMore (outcome_of e) before after
Refused _ before after = after ≡ before

-- A whole handler writes exactly one line for every answer.
abbrev pub Audited : {A : Type 0} → Result A → List AuditLine → List AuditLine → Type 0
Audited (ok a) before after = OneMore issued before after
Audited (raised f) before after = Refused f before after

-- A step of a handler writes no line unless it refuses the request.
abbrev pub IsStep : {A : Type 0} → Exec A → Type 0
IsStep m = IsStage audit_log Refused m

abbrev pub IsAnswer : {A : Type 0} → Exec A → Type 0
IsAnswer m = Ends audit_log Refused (OneMore issued) m

-- Not an `HTTPException`.
abbrev pub IsInternal : Failure → Type 0
IsInternal (http e) = ⊥
IsInternal _ = Unit

Refused-internal :
    (f : Failure) → IsInternal f → (before : List AuditLine) → Refused f before before
Refused-internal (http e) i before = absurd i
Refused-internal _ i before = refl

-- The audit log is part of what is kept.
pub Keeps-audit_log :
    {A : Type 0} {E : Failure → Type 0} (m : Exec A) → Keeps ledger E m → Keeps audit_log E m
Keeps-audit_log m k = record { same = λ w. ap Ledger.audit_log (k.same w); fails = k.fails }

module _ {A : Type 0} where
  pub IsStep-Keeps : (m : Exec A) → Keeps audit_log IsInternal m → IsStep m
  IsStep-Keeps m k = IsStage-Keeps m k Refused-internal

  pub IsStep-raise : (f : Failure) → IsInternal f → IsStep (raise {A = A} f)
  IsStep-raise f i = Ends-raise _ f (Refused-internal f i)

  pub IsStep-refuse :
      (line : AuditLine) (e : HttpError)
      → line.outcome ≡ outcome_of e
      → IsStep (refuse {A = A} line e)
  unfolding refuse emit modify ◌>>=◌ raise
  IsStep-refuse line e h = record { at = λ w. (line, refl, h) }

  -- The end of a handler.
  pub IsAnswer-issued :
      (line : AuditLine) (a : A) → line.outcome ≡ issued → IsAnswer (audit line >> pure a)
  unfolding audit emit modify ◌>>=◌ pure
  IsAnswer-issued line a h = record { at = λ w. (line, refl, h) }
