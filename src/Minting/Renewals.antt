-- ===== src/Minting/Renewals.antt =====
-- `renew_ticket` of src/krb5_token_service/minting.py: `kinit -R` on a ccache.
pub mod Footprint
pub mod Issued
pub mod Spawned
use krb5_token_service.Prelude.{
  Option, none, some, [], ◌∷◌, ◌++◌, if◌then◌else◌, Text, codes, is_empty,
}
use krb5_token_service.Python.Utf8.{Bytes}
use krb5_token_service.Errors.{Failure, minting}
use krb5_token_service.World.{Call, noted, Outside}
use krb5_token_service.Exec.{Exec, pure, raise, ◌>>=◌, ◌>>◌}
use krb5_token_service.Settings.{Settings}
use krb5_token_service.System.{
  emit, join_path, make_root, with_tmpdir, write_file, chmod_file, read_file, CompletedProcess,
}
use krb5_token_service.Minting.Classify.{classify_renew_stderr}
use krb5_token_service.Minting.Child.{
  has_failed, show_code, stderr_text, failure_line, run_subprocess, child_env, read_ccache,
}
use krb5_token_service.Minting.Tickets.{MintedTicket, minted_ticket}

renew_failure : {A : Type 0} → CompletedProcess → Option Failure → Exec A
renew_failure result (some classified) = raise classified
renew_failure result none = do
  emit (failure_line (codes "kinit_renew_failed") result [])
  raise (minting (codes "kinit -R exited " ++ show_code result.returncode))

pub check_renewal : CompletedProcess → Exec (Unit {0})
check_renewal result =
    if has_failed result.returncode
    then renew_failure result (classify_renew_stderr (stderr_text result))
    else pure tt

pub empty_renewal : {A : Type 0} → Exec A
empty_renewal = do
  emit (noted (codes "kinit_renew_empty_output") [])
  raise (minting (codes "kinit -R produced an empty ccache file"))

module _ (env : Outside) (settings : Settings) where
  pub renew_call : Text → Call
  renew_call tmpdir = record {
    argv =
        settings.kinit_bin
        ∷ codes "-R"
        ∷ codes "-c"
        ∷ (codes "FILE:" ++ join_path tmpdir (codes "ccache"))
        ∷ [];
    stdin = none;
    timeout_seconds = settings.kinit_timeout_seconds;
    environ = child_env env settings;
  }

  -- The body of the `with` statement.
  renew_in : Bytes → Text → Exec MintedTicket
  renew_in ccache tmpdir = do
    write_file env tmpdir (codes "ccache") ccache
    chmod_file env tmpdir (codes "ccache") 0o600
    read_ccache env tmpdir (codes "ccache")
    result ← run_subprocess env tmpdir (renew_call tmpdir) settings.kinit_bin (codes "renew")
    check_renewal result
    renewed_bytes ← read_file env tmpdir (codes "ccache")
    if is_empty renewed_bytes then empty_renewal else pure tt
    info ← read_ccache env tmpdir (codes "ccache")
    pure (minted_ticket renewed_bytes info)

  unfoldable pub renew_ticket : Bytes → Exec MintedTicket
  unfolding renew_in renew_call empty_renewal check_renewal renew_failure
  renew_ticket ccache = do make_root env; with_tmpdir env settings.ccache_tmp_root (renew_in ccache)
