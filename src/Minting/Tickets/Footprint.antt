-- ===== src/Minting/Tickets/Footprint.antt =====
-- What `mint_ticket` leaves alone, and what it can raise.
use krb5_token_service.Prelude.{
  ℕ, ◌≡◌, ◌∙◌, ◌⊎◌, Bool, true, false, not, Option, none, some, arith, Text,
}
use krb5_token_service.Prelude.Dict.{Dict}
use krb5_token_service.Errors.{
  Failure, minting, bad_password, bad_keytab, unknown_principal, account_unusable, ccache_parse,
  value_error, os_error,
}
use krb5_token_service.World.{World, Outside}
use krb5_token_service.Settings.{Settings}
use krb5_token_service.Exec.Keeps.{
  Keeps, Keeps-pure, Keeps-raise, Keeps-if, Keeps-bind, Keeps-finally, Keeps-catch, Keeps-weaken,
}
use krb5_token_service.System.{CompletedProcess}
use krb5_token_service.System.Footprint.{
  ledger, IsOsError, Keeps-emit, Keeps-read_buffer, Keeps-new_buffer, Keeps-extend_buffer,
  ledger-zero_buffer, Keeps-make_root, Keeps-with_tmpdir, Keeps-write_file, Keeps-chmod_file,
  Keeps-read_file,
}
use krb5_token_service.Minting.Classify.{
  classify_password_stderr, classify_keytab_stderr, account_revoked_detail, password_expired_detail,
}
use krb5_token_service.Minting.Child.Footprint.{
  OnSome, IsMinting, Keeps-run_subprocess, Keeps-read_ccache,
}
use krb5_token_service.Ccache.Failures.{IsCcacheFailure}
use krb5_token_service.Minting.Tickets.{
  mint_ticket, mint_checked, mint_in, run_kinit, write_keytab, zero_secrets, read_stdin,
  prepare_stdin, empty_output, no_output, check_kinit, classify_for, kinit_failure, kinit_line,
  is_none,
}

-- What a mint can raise; a bad password only where a password was used, a bad keytab only where a
-- keytab was.
abbrev pub IsMintFailure : Bool → Failure → Type 0
IsMintFailure by_keytab (minting why) = Unit
IsMintFailure by_keytab (unknown_principal why) = Unit
IsMintFailure by_keytab (account_unusable why) =
    (why ≡ account_revoked_detail) ⊎ (why ≡ password_expired_detail)
IsMintFailure by_keytab (ccache_parse why) = Unit
IsMintFailure by_keytab (value_error why) = Unit
IsMintFailure by_keytab (os_error why) = Unit
IsMintFailure by_keytab (bad_password why) = by_keytab ≡ false
IsMintFailure by_keytab (bad_keytab why) = by_keytab ≡ true
IsMintFailure by_keytab _ = ⊥

classify_for-kind :
    (by_keytab : Bool) (stderr : Text)
    → OnSome (IsMintFailure by_keytab) (classify_for by_keytab stderr)
unfolding classify_for classify_password_stderr classify_keytab_stderr
classify_for-kind true stderr = ground arith
classify_for-kind false stderr = ground arith

Keeps-kinit_line :
    {E : Failure → Type 0} (username : Text) (result : CompletedProcess) (more : Dict Text)
    → Keeps ledger E (kinit_line username result more)
unfolding kinit_line
Keeps-kinit_line username result more = Keeps-emit _ _

Keeps-kinit_failure :
    {A : Type 0} {E : Failure → Type 0} (username : Text) (result : CompletedProcess)
    (classified : Option Failure)
    → OnSome E classified
    → ((why : Text) → E (minting why))
    → Keeps ledger E (kinit_failure {A = A} username result classified)
unfolding kinit_failure
Keeps-kinit_failure username result (some f) e m =
    Keeps-bind _ _ (Keeps-if _ _ _ (Keeps-pure tt) (Keeps-kinit_line username result _))
      (λ _. Keeps-raise _ e)
Keeps-kinit_failure username result none e m =
    Keeps-bind _ _ (Keeps-kinit_line username result _) (λ _. Keeps-raise _ (m _))

module _ (by_keytab : Bool) where
  Keeps-check_kinit :
      (username : Text) (result : CompletedProcess)
      → Keeps ledger (IsMintFailure by_keytab) (check_kinit by_keytab username result)
  unfolding check_kinit
  Keeps-check_kinit username result =
      Keeps-if _ _ _
        (Keeps-kinit_failure username result _ (classify_for-kind by_keytab _) (λ _. tt))
        (Keeps-pure tt)

  Keeps-no_output :
      {A : Type 0} (username : Text) (f : Failure)
      → IsOsError f
      → Keeps ledger (IsMintFailure by_keytab) (no_output {A = A} username f)
  unfolding no_output
  Keeps-no_output username (os_error why) e =
      Keeps-bind _ _ (Keeps-emit _ _) (λ _. Keeps-raise _ tt)
  Keeps-no_output username _ e = absurd e

  Keeps-empty_output :
      {A : Type 0} (username : Text)
      → Keeps ledger (IsMintFailure by_keytab) (empty_output {A = A} username)
  unfolding empty_output
  Keeps-empty_output username = Keeps-bind _ _ (Keeps-emit _ _) (λ _. Keeps-raise _ tt)

  IsMintFailure-of_minting : (f : Failure) → IsMinting f → IsMintFailure by_keytab f
  IsMintFailure-of_minting (minting why) e = tt
  IsMintFailure-of_minting _ e = absurd e

  IsMintFailure-of_ccache : (f : Failure) → IsCcacheFailure f → IsMintFailure by_keytab f
  IsMintFailure-of_ccache (ccache_parse why) e = tt
  IsMintFailure-of_ccache (value_error why) e = tt
  IsMintFailure-of_ccache _ e = absurd e

Keeps-prepare_stdin :
    {E : Failure → Type 0} (password : Option ℕ) → Keeps ledger E (prepare_stdin password)
unfolding prepare_stdin
Keeps-prepare_stdin none = Keeps-pure _
Keeps-prepare_stdin (some password) = Keeps-bind _ _ (Keeps-read_buffer _) (λ _.
    Keeps-bind _ _ (Keeps-new_buffer _)
      (λ _. Keeps-bind _ _ (Keeps-extend_buffer _ _) (λ _. Keeps-pure _)))

Keeps-read_stdin : {E : Failure → Type 0} (stdin : Option ℕ) → Keeps ledger E (read_stdin stdin)
unfolding read_stdin
Keeps-read_stdin none = Keeps-pure _
Keeps-read_stdin (some stdin) = Keeps-bind _ _ (Keeps-read_buffer _) (λ _. Keeps-pure _)

ledger-zero_secrets :
    (stdin password keytab : Option ℕ) (w : World)
    → ledger (zero_secrets stdin password keytab w) ≡ ledger w
unfolding zero_secrets
ledger-zero_secrets stdin password keytab w =
    ledger-zero_buffer keytab _ ∙ ledger-zero_buffer password _ ∙ ledger-zero_buffer stdin w

module _ (env : Outside) (settings : Settings) (username lifetime renewable : Text) where
  Keeps-write_keytab :
      (by_keytab : Bool) (tmpdir : Text) (keytab : Option ℕ)
      → Keeps ledger (IsMintFailure by_keytab) (write_keytab env tmpdir keytab)
  unfolding write_keytab
  Keeps-write_keytab by_keytab tmpdir none = Keeps-pure tt
  Keeps-write_keytab by_keytab tmpdir (some keytab) = Keeps-bind _ _ (Keeps-read_buffer _) (λ _.
      Keeps-bind _ _ (Keeps-write_file env (λ _. tt) _ _ _)
        (λ _. Keeps-chmod_file env (λ _. tt) _ _ _))

  Keeps-mint_in :
      (keytab stdin : Option ℕ) (tmpdir : Text)
      → Keeps ledger
          (IsMintFailure (not (is_none keytab)))
          (mint_in env settings username lifetime renewable keytab stdin tmpdir)
  unfolding mint_in run_kinit
  Keeps-mint_in keytab stdin tmpdir = Keeps-bind _ _ (Keeps-write_keytab _ tmpdir keytab) (λ _.
      Keeps-bind _ _ (Keeps-read_stdin stdin) (λ _.
        Keeps-bind _ _
          (Keeps-weaken _ (IsMintFailure-of_minting _) (Keeps-run_subprocess env _ _ _ _))
          (λ result. Keeps-bind _ _ (Keeps-check_kinit _ username result) (λ _.
            Keeps-bind _ _
              (Keeps-catch _ _ (Keeps-read_file env (λ _. tt) _ _) (Keeps-no_output _ username))
              (λ bytes.
                Keeps-bind _ _ (Keeps-if _ _ _ (Keeps-empty_output _ username) (Keeps-pure tt))
                  (λ _.
                    Keeps-bind _ _
                      (Keeps-weaken _ (IsMintFailure-of_ccache _) (Keeps-read_ccache env _ _))
                      (λ _. Keeps-pure _)))))))

  Keeps-mint_checked :
      (password keytab : Option ℕ)
      → Keeps ledger
          (IsMintFailure (not (is_none keytab)))
          (mint_checked env settings username lifetime renewable password keytab)
  unfolding mint_checked
  Keeps-mint_checked password keytab = Keeps-bind _ _ (Keeps-make_root env (λ _. tt)) (λ _.
      Keeps-bind _ _ (Keeps-prepare_stdin password) (λ stdin.
        Keeps-finally _ _ (Keeps-with_tmpdir env (λ _. tt) _ _ (Keeps-mint_in keytab stdin))
          (ledger-zero_secrets stdin password keytab)))

  pub Keeps-mint_ticket :
      (password keytab : Option ℕ)
      → Keeps ledger
          (IsMintFailure (not (is_none keytab)))
          (mint_ticket env settings username lifetime renewable password keytab)
  unfolding mint_ticket
  Keeps-mint_ticket password keytab =
      Keeps-if _ _ _ (Keeps-if _ _ _ (Keeps-raise _ tt) (Keeps-mint_checked password keytab))
        (Keeps-if _ _ _ (Keeps-mint_checked password keytab) (Keeps-raise _ tt))
