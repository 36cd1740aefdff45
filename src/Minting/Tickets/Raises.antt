-- ===== src/Minting/Tickets/Raises.antt =====
-- Where the run of kinit comes to nothing: what raises in every state, and when the return code is 0.
use krb5_token_service.Prelude.{◌≡◌, ap, Bool, Option, none, some, Text}
use krb5_token_service.Errors.{Failure, os_error, ok}
use krb5_token_service.World.{World, exited}
use krb5_token_service.Exec.{pure}
use krb5_token_service.Exec.Returns.{AlwaysRaises, AlwaysRaises-bind, if-ok}
use krb5_token_service.System.{CompletedProcess}
use krb5_token_service.Minting.Child.{has_failed, stderr_text}
use krb5_token_service.Minting.Child.Returns.{AlwaysRaises-raise, has_failed-exited}
use krb5_token_service.Minting.Tickets.{
  check_kinit, kinit_failure, no_output, empty_output, classify_for,
}

AlwaysRaises-kinit_failure :
    {A : Type 0} (username : Text) (result : CompletedProcess) (classified : Option Failure)
    → AlwaysRaises (kinit_failure {A = A} username result classified)
unfolding kinit_failure
AlwaysRaises-kinit_failure username result (some f) =
    AlwaysRaises-bind _ _ (λ _. AlwaysRaises-raise f)
AlwaysRaises-kinit_failure username result none = AlwaysRaises-bind _ _ (λ _. AlwaysRaises-raise _)

pub AlwaysRaises-no_output :
    {A : Type 0} (username : Text) (f : Failure) → AlwaysRaises (no_output {A = A} username f)
unfolding no_output
AlwaysRaises-no_output username (os_error why) = AlwaysRaises-bind _ _ (λ _. AlwaysRaises-raise _)
AlwaysRaises-no_output username _ = AlwaysRaises-raise _

pub AlwaysRaises-empty_output :
    {A : Type 0} (username : Text) → AlwaysRaises (empty_output {A = A} username)
unfolding empty_output
AlwaysRaises-empty_output username = AlwaysRaises-bind _ _ (λ _. AlwaysRaises-raise _)

pub check_kinit-ok :
    (by_keytab : Bool) (username : Text) (result : CompletedProcess) (w : World)
    → (check_kinit by_keytab username result w).0 ≡ ok tt
    → (result.returncode ≡ exited 0) × ((check_kinit by_keytab username result w).1 ≡ w)
unfolding check_kinit pure
check_kinit-ok by_keytab username result w h =
    let (succeeded, same) =
      if-ok (has_failed result.returncode) _ (pure tt) w tt
        (AlwaysRaises-kinit_failure username result (classify_for by_keytab (stderr_text result)))
        h in
    (has_failed-exited result.returncode succeeded, ap (λ x. x.1) same)
