-- ===== src/Minting/Child/Returns.antt =====
-- A child of the service that has run, and a ccache that has been read.
use krb5_token_service.Prelude.{
  ◌≢◌, refl, false, zero, suc, [], ◌∷◌, is_empty, ◌≡◌, ap, ◌∙◌, some, Text,
}
use krb5_token_service.Errors.{Failure, os_error, timeout_expired, Result, ok}
use krb5_token_service.World.{World, Call, File, ReturnCode, exited, killed, Outside}
use krb5_token_service.Python.Utf8.{Bytes}
use krb5_token_service.Exec.{raise, gets, lift, ◌>>=◌}
use krb5_token_service.Exec.Returns.{AlwaysRaises, AlwaysRaises-bind, catch-ok}
use krb5_token_service.Ccache.{CcacheInfo, parse_ccache}
use krb5_token_service.System.{CompletedProcess, run_child, find_file}
use krb5_token_service.System.Returns.{HasRun, run_child-ok}
use krb5_token_service.Minting.Child.{
  has_failed, run_subprocess, translate, read_ccache, content_if,
}
use krb5_token_service.Prelude.{subst, sym}

pub has_failed-exited : (code : ReturnCode) → has_failed code ≡ false → code ≡ exited 0
has_failed-exited (exited zero) h = refl
has_failed-exited (exited (suc n)) h = cc
has_failed-exited (killed n) h = cc

pub ok-injective : {A : Type 0} {a b : A} → ◌≡◌ {A = Result A} (ok a) (ok b) → a ≡ b
ok-injective e = cc

pub is_empty-ne : (bs : Bytes) → is_empty bs ≡ false → bs ≢ []
is_empty-ne [] h = cc
is_empty-ne (b ∷ bs) h = λ e. cc

pub AlwaysRaises-raise : {A : Type 0} (f : Failure) → AlwaysRaises (raise {A = A} f)
unfolding raise
AlwaysRaises-raise f = record { at = λ w. tt }

AlwaysRaises-translate :
    {A : Type 0} (call : Call) (binary context : Text) (f : Failure)
    → AlwaysRaises (translate {A = A} call binary context f)
unfolding translate
AlwaysRaises-translate call binary context (os_error why) =
    AlwaysRaises-bind _ _ (λ _. AlwaysRaises-raise _)
AlwaysRaises-translate call binary context timeout_expired =
    AlwaysRaises-bind _ _ (λ _. AlwaysRaises-raise _)
AlwaysRaises-translate call binary context _ = AlwaysRaises-raise _

module _ (env : Outside) where
  pub run_subprocess-ok :
      (dir : Text) (call : Call) (binary context : Text) (w : World) (result : CompletedProcess)
      → (run_subprocess env dir call binary context w).0 ≡ ok result
      → HasRun env dir call result w.spawned (run_subprocess env dir call binary context w).1
  unfolding run_subprocess
  run_subprocess-ok dir call binary context w result e =
      let (returned, same) =
        catch-ok (run_child env dir call) _ w result (AlwaysRaises-translate call binary context)
          e in
      subst (HasRun env dir call result w.spawned) (sym same)
        (run_child-ok env dir call w result returned)

  pub read_ccache-ok :
      (dir name : Text) (w : World) (file : File) (info : CcacheInfo)
      → find_file env dir name w ≡ some file
      → (read_ccache env dir name w).0 ≡ ok info
      → parse_ccache (env.krb5 (some file.content)) ≡ ok info
  unfolding read_ccache gets lift ◌>>=◌
  read_ccache-ok dir name w file info h e =
      ap (λ o. parse_ccache (env.krb5 (content_if env o))) (sym h) ∙ e
