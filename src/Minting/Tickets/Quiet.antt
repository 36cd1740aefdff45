-- ===== src/Minting/Tickets/Quiet.antt =====
-- What follows the run of kinit starts no child and changes no file.
use krb5_token_service.Prelude.{Bool, Option, none, some, Text, codes, is_empty, if◌then◌else◌}
use krb5_token_service.Errors.{Failure, os_error}
use krb5_token_service.World.{Outside}
use krb5_token_service.Exec.{pure, catch, ◌>>=◌, ◌>>◌}
use krb5_token_service.Exec.Keeps.{Keeps-pure, Keeps-raise, Keeps-bind, Keeps-if, Keeps-catch}
use krb5_token_service.System.{CompletedProcess, read_file}
use krb5_token_service.System.Rooms.{IsQuiet, IsQuiet-emit, IsQuiet-read_file}
use krb5_token_service.Minting.Child.{read_ccache}
use krb5_token_service.Minting.Child.Rooms.{IsQuiet-read_ccache}
use krb5_token_service.Minting.Tickets.{
  empty_output, no_output, check_kinit, kinit_failure, kinit_line, minted_ticket,
}

IsQuiet-kinit_failure :
    {A : Type 0} (username : Text) (result : CompletedProcess) (classified : Option Failure)
    → IsQuiet (kinit_failure {A = A} username result classified)
unfolding kinit_failure kinit_line
IsQuiet-kinit_failure username result (some f) =
    Keeps-bind _ _ (Keeps-if _ _ _ (Keeps-pure tt) (IsQuiet-emit _)) (λ _. Keeps-raise _ tt)
IsQuiet-kinit_failure username result none = Keeps-bind _ _ (IsQuiet-emit _) (λ _. Keeps-raise _ tt)

pub IsQuiet-check_kinit :
    (by_keytab : Bool) (username : Text) (result : CompletedProcess)
    → IsQuiet (check_kinit by_keytab username result)
unfolding check_kinit
IsQuiet-check_kinit by_keytab username result =
    Keeps-if _ _ _ (IsQuiet-kinit_failure username result _) (Keeps-pure tt)

pub IsQuiet-no_output :
    {A : Type 0} (username : Text) (f : Failure) → IsQuiet (no_output {A = A} username f)
unfolding no_output
IsQuiet-no_output username (os_error why) = Keeps-bind _ _ (IsQuiet-emit _) (λ _. Keeps-raise _ tt)
IsQuiet-no_output username _ = Keeps-raise _ tt

pub IsQuiet-empty_output : {A : Type 0} (username : Text) → IsQuiet (empty_output {A = A} username)
unfolding empty_output
IsQuiet-empty_output username = Keeps-bind _ _ (IsQuiet-emit _) (λ _. Keeps-raise _ tt)

-- All that follows the run of kinit.
pub IsQuiet-kinit_output :
    (env : Outside) (username : Text) (by_keytab : Bool) (tmpdir : Text) (result : CompletedProcess)
    → IsQuiet (do
      check_kinit by_keytab username result
      ccache_bytes ← catch (read_file env tmpdir (codes "ccache")) (no_output username)
      if is_empty ccache_bytes then empty_output username else pure tt
      info ← read_ccache env tmpdir (codes "ccache")
      pure (minted_ticket ccache_bytes info))
IsQuiet-kinit_output env username by_keytab tmpdir result =
    Keeps-bind _ _ (IsQuiet-check_kinit by_keytab username result) (λ _.
      Keeps-bind _ _
        (Keeps-catch _ _ (IsQuiet-read_file env _ _) (λ f _. IsQuiet-no_output username f))
        (λ bytes.
          Keeps-bind _ _ (Keeps-if _ _ _ (IsQuiet-empty_output username) (Keeps-pure tt))
            (λ _. Keeps-bind _ _ (IsQuiet-read_ccache env _ _) (λ _. Keeps-pure _))))
