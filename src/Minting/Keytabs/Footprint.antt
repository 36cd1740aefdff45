-- ===== src/Minting/Keytabs/Footprint.antt =====
-- What `mint_keytab` leaves alone, and what it can raise.
use krb5_token_service.Prelude.{ℕ, ◌≡◌, ◌∙◌, Option, none, some, arith, Text}
use krb5_token_service.Errors.{Failure, minting, bad_password, os_error}
use krb5_token_service.World.{World, Outside}
use krb5_token_service.Settings.{Settings}
use krb5_token_service.Exec.Keeps.{
  Keeps, Keeps-pure, Keeps-raise, Keeps-if, Keeps-bind, Keeps-finally, Keeps-catch, Keeps-weaken,
}
use krb5_token_service.System.{CompletedProcess}
use krb5_token_service.System.Footprint.{
  ledger, IsOsError, Keeps-emit, Keeps-read_buffer, Keeps-new_buffer, Keeps-extend_buffer,
  ledger-zero_buffer, Keeps-make_root, Keeps-with_tmpdir, Keeps-read_file,
}
use krb5_token_service.Minting.Classify.{classify_cern_get_keytab_stderr}
use krb5_token_service.Minting.Child.Footprint.{OnSome, IsMinting, Keeps-run_subprocess}
use krb5_token_service.Minting.Keytabs.{
  mint_keytab, keytab_in, run_cern_get_keytab, zero_password, empty_keytab, no_keytab, check_keytab,
  keytab_failure, keytab_line,
}

abbrev pub IsKeytabFailure : Failure → Type 0
IsKeytabFailure (minting why) = Unit
IsKeytabFailure (bad_password why) = Unit
IsKeytabFailure (os_error why) = Unit
IsKeytabFailure _ = ⊥

classify_cern_get_keytab_stderr-kind :
    (stderr : Text) → OnSome IsKeytabFailure (classify_cern_get_keytab_stderr stderr)
unfolding classify_cern_get_keytab_stderr
classify_cern_get_keytab_stderr-kind stderr = ground arith

Keeps-keytab_failure :
    {A : Type 0} (username : Text) (result : CompletedProcess) (classified : Option Failure)
    → OnSome IsKeytabFailure classified
    → Keeps ledger IsKeytabFailure (keytab_failure {A = A} username result classified)
unfolding keytab_failure keytab_line
Keeps-keytab_failure username result (some f) e =
    Keeps-bind _ _ (Keeps-if _ _ _ (Keeps-pure tt) (Keeps-emit _ _)) (λ _. Keeps-raise f e)
Keeps-keytab_failure username result none e =
    Keeps-bind _ _ (Keeps-emit _ _) (λ _. Keeps-raise _ tt)

Keeps-check_keytab :
    (username : Text) (result : CompletedProcess)
    → Keeps ledger IsKeytabFailure (check_keytab username result)
unfolding check_keytab
Keeps-check_keytab username result =
    Keeps-if _ _ _ (Keeps-keytab_failure username result _ (classify_cern_get_keytab_stderr-kind _))
      (Keeps-pure tt)

Keeps-no_keytab :
    {A : Type 0} (username : Text) (f : Failure)
    → IsOsError f
    → Keeps ledger IsKeytabFailure (no_keytab {A = A} username f)
unfolding no_keytab
Keeps-no_keytab username (os_error why) e = Keeps-bind _ _ (Keeps-emit _ _) (λ _. Keeps-raise _ tt)
Keeps-no_keytab username _ e = absurd e

Keeps-empty_keytab :
    {A : Type 0} (username : Text) → Keeps ledger IsKeytabFailure (empty_keytab {A = A} username)
unfolding empty_keytab
Keeps-empty_keytab username = Keeps-bind _ _ (Keeps-emit _ _) (λ _. Keeps-raise _ tt)

IsKeytabFailure-of_minting : (f : Failure) → IsMinting f → IsKeytabFailure f
IsKeytabFailure-of_minting (minting why) e = tt
IsKeytabFailure-of_minting _ e = absurd e

ledger-zero_password :
    (stdin password : ℕ) (w : World) → ledger (zero_password stdin password w) ≡ ledger w
unfolding zero_password
ledger-zero_password stdin password w =
    ledger-zero_buffer (some password) _ ∙ ledger-zero_buffer (some stdin) w

module _ (env : Outside) (settings : Settings) (username : Text) where
  Keeps-keytab_in :
      (stdin : ℕ) (tmpdir : Text)
      → Keeps ledger IsKeytabFailure (keytab_in env settings username stdin tmpdir)
  unfolding keytab_in run_cern_get_keytab
  Keeps-keytab_in stdin tmpdir = Keeps-bind _ _ (Keeps-read_buffer _) (λ _.
      Keeps-bind _ _ (Keeps-weaken _ IsKeytabFailure-of_minting (Keeps-run_subprocess env _ _ _ _))
        (λ result. Keeps-bind _ _ (Keeps-check_keytab username result) (λ _.
          Keeps-bind _ _
            (Keeps-catch _ _ (Keeps-read_file env (λ _. tt) _ _) (Keeps-no_keytab username))
            (λ bytes.
              Keeps-bind _ _ (Keeps-if _ _ _ (Keeps-empty_keytab username) (Keeps-pure tt))
                (λ _. Keeps-pure _)))))

  pub Keeps-mint_keytab :
      (password : ℕ) → Keeps ledger IsKeytabFailure (mint_keytab env settings username password)
  unfolding mint_keytab
  Keeps-mint_keytab password = Keeps-bind _ _ (Keeps-make_root env (λ _. tt)) (λ _.
      Keeps-bind _ _ (Keeps-read_buffer _) (λ _. Keeps-bind _ _ (Keeps-new_buffer _) (λ stdin.
        Keeps-bind _ _ (Keeps-extend_buffer _ _) (λ _.
          Keeps-finally _ _ (Keeps-with_tmpdir env (λ _. tt) _ _ (Keeps-keytab_in stdin))
            (ledger-zero_password stdin password)))))
