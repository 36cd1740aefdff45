-- ===== src/Minting/Child/Footprint.antt =====
-- A child of the service and the reading of a ccache leave the limiter, the cached keys and the
-- audit lines alone; and what they raise.
use krb5_token_service.Prelude.{Text, Option}
use krb5_token_service.Errors.{Failure, minting, os_error, timeout_expired}
use krb5_token_service.World.{Call, Outside}
use krb5_token_service.Exec.Keeps.{
  Keeps, Keeps-raise, Keeps-gets, Keeps-bind, Keeps-catch, Keeps-lift,
}
use krb5_token_service.System.Footprint.{ledger, IsChildError, Keeps-emit, Keeps-run_child}
use krb5_token_service.Ccache.Failures.{IsCcacheFailure, parse_ccache-kind}
use krb5_token_service.Minting.Child.{run_subprocess, read_ccache, translate}

-- A predicate of the failure that a classification gives, if it gives one.
abbrev pub OnSome : (Failure → Type 0) → Option Failure → Type 0
OnSome E Option.none = Unit
OnSome E (Option.some f) = E f

pub Keeps-read_ccache :
    (env : Outside) (dir name : Text) → Keeps ledger IsCcacheFailure (read_ccache env dir name)
unfolding read_ccache
Keeps-read_ccache env dir name =
    Keeps-bind _ _ (Keeps-gets _) (λ file. Keeps-lift _ (parse_ccache-kind _))

abbrev pub IsMinting : Failure → Type 0
IsMinting (minting why) = Unit
IsMinting _ = ⊥

Keeps-translate :
    {A : Type 0} (call : Call) (binary context : Text) (f : Failure)
    → IsChildError f
    → Keeps ledger IsMinting (translate {A = A} call binary context f)
unfolding translate
Keeps-translate call binary context (os_error why) e =
    Keeps-bind _ _ (Keeps-emit _ _) (λ _. Keeps-raise _ tt)
Keeps-translate call binary context timeout_expired e =
    Keeps-bind _ _ (Keeps-emit _ _) (λ _. Keeps-raise _ tt)
Keeps-translate call binary context _ e = absurd e

pub Keeps-run_subprocess :
    (env : Outside) (dir : Text) (call : Call) (binary context : Text)
    → Keeps ledger IsMinting (run_subprocess env dir call binary context)
unfolding run_subprocess
Keeps-run_subprocess env dir call binary context =
    Keeps-catch _ _ (Keeps-run_child env dir call) (Keeps-translate call binary context)
