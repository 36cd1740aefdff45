-- ===== src/Minting/Renewals/Footprint.antt =====
-- What `renew_ticket` leaves alone, and what it can raise.
use krb5_token_service.Prelude.{codes, ◌≡◌, Option, none, some, arith, Text}
use krb5_token_service.Python.Utf8.{Bytes}
use krb5_token_service.Errors.{
  Failure, minting, ticket_expired, ccache_parse, value_error, os_error,
}
use krb5_token_service.World.{Outside}
use krb5_token_service.Settings.{Settings}
use krb5_token_service.Exec.Keeps.{
  Keeps, Keeps-pure, Keeps-raise, Keeps-if, Keeps-bind, Keeps-weaken,
}
use krb5_token_service.System.{CompletedProcess}
use krb5_token_service.System.Footprint.{
  ledger, Keeps-emit, Keeps-make_root, Keeps-with_tmpdir, Keeps-write_file, Keeps-chmod_file,
  Keeps-read_file,
}
use krb5_token_service.Minting.Classify.{classify_renew_stderr}
use krb5_token_service.Minting.Child.Footprint.{
  OnSome, IsMinting, Keeps-run_subprocess, Keeps-read_ccache,
}
use krb5_token_service.Ccache.Failures.{IsCcacheFailure}
use krb5_token_service.Minting.Renewals.{
  renew_ticket, renew_in, empty_renewal, check_renewal, renew_failure,
}

abbrev pub IsRenewFailure : Failure → Type 0
IsRenewFailure (minting why) = Unit
IsRenewFailure (ticket_expired why) = why ≡ codes "ticket no longer renewable"
IsRenewFailure (ccache_parse why) = Unit
IsRenewFailure (value_error why) = Unit
IsRenewFailure (os_error why) = Unit
IsRenewFailure _ = ⊥

classify_renew_stderr-kind : (stderr : Text) → OnSome IsRenewFailure (classify_renew_stderr stderr)
unfolding classify_renew_stderr
classify_renew_stderr-kind stderr = ground arith

Keeps-renew_failure :
    {A : Type 0} (result : CompletedProcess) (classified : Option Failure)
    → OnSome IsRenewFailure classified
    → Keeps ledger IsRenewFailure (renew_failure {A = A} result classified)
unfolding renew_failure
Keeps-renew_failure result (some f) e = Keeps-raise f e
Keeps-renew_failure result none e = Keeps-bind _ _ (Keeps-emit _ _) (λ _. Keeps-raise _ tt)

Keeps-check_renewal :
    (result : CompletedProcess) → Keeps ledger IsRenewFailure (check_renewal result)
unfolding check_renewal
Keeps-check_renewal result =
    Keeps-if _ _ _ (Keeps-renew_failure result _ (classify_renew_stderr-kind _)) (Keeps-pure tt)

Keeps-empty_renewal : {A : Type 0} → Keeps ledger IsRenewFailure (empty_renewal {A = A})
unfolding empty_renewal
Keeps-empty_renewal = Keeps-bind _ _ (Keeps-emit _ _) (λ _. Keeps-raise _ tt)

IsRenewFailure-of_minting : (f : Failure) → IsMinting f → IsRenewFailure f
IsRenewFailure-of_minting (minting why) e = tt
IsRenewFailure-of_minting _ e = absurd e

IsRenewFailure-of_ccache : (f : Failure) → IsCcacheFailure f → IsRenewFailure f
IsRenewFailure-of_ccache (ccache_parse why) e = tt
IsRenewFailure-of_ccache (value_error why) e = tt
IsRenewFailure-of_ccache _ e = absurd e

module _ (env : Outside) (settings : Settings) where
  Keeps-renew_in :
      (ccache : Bytes) (tmpdir : Text)
      → Keeps ledger IsRenewFailure (renew_in env settings ccache tmpdir)
  unfolding renew_in
  Keeps-renew_in ccache tmpdir = Keeps-bind _ _ (Keeps-write_file env (λ _. tt) _ _ _) (λ _.
      Keeps-bind _ _ (Keeps-chmod_file env (λ _. tt) _ _ _) (λ _.
        Keeps-bind _ _ (Keeps-weaken _ IsRenewFailure-of_ccache (Keeps-read_ccache env _ _)) (λ _.
          Keeps-bind _ _
            (Keeps-weaken _ IsRenewFailure-of_minting (Keeps-run_subprocess env _ _ _ _))
            (λ result. Keeps-bind _ _ (Keeps-check_renewal result) (λ _.
              Keeps-bind _ _ (Keeps-read_file env (λ _. tt) _ _) (λ bytes.
                Keeps-bind _ _ (Keeps-if _ _ _ Keeps-empty_renewal (Keeps-pure tt)) (λ _.
                  Keeps-bind _ _
                    (Keeps-weaken _ IsRenewFailure-of_ccache (Keeps-read_ccache env _ _))
                    (λ _. Keeps-pure _))))))))

  pub Keeps-renew_ticket :
      (ccache : Bytes) → Keeps ledger IsRenewFailure (renew_ticket env settings ccache)
  unfolding renew_ticket
  Keeps-renew_ticket ccache =
      Keeps-bind _ _ (Keeps-make_root env (λ _. tt))
        (λ _. Keeps-with_tmpdir env (λ _. tt) _ _ (Keeps-renew_in ccache))
