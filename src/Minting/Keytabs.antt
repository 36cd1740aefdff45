-- ===== src/Minting/Keytabs.antt =====
-- `mint_keytab` of src/krb5_token_service/minting.py: a fresh keytab by CERN's `cern-get-keytab`.
pub mod Footprint
pub mod Issued
pub mod Secrets
pub mod Spawned
use krb5_token_service.Prelude.{
  ℕ, Bool, true, false, Option, none, some, List, [], ◌∷◌, ◌++◌, if◌then◌else◌, Text, codes,
  is_empty,
}
use krb5_token_service.Prelude.Dict.{Dict}
use krb5_token_service.Python.Utf8.{Bytes}
use krb5_token_service.Errors.{Failure, minting, os_error, bad_password}
use krb5_token_service.World.{World, Call, noted, Outside}
use krb5_token_service.Exec.{Exec, pure, raise, catch, finally, ◌>>=◌, ◌>>◌}
use krb5_token_service.Settings.{Settings}
use krb5_token_service.System.{
  emit, read_buffer, new_buffer, extend_buffer, zero_buffer, join_path, make_root, with_tmpdir,
  read_file, CompletedProcess,
}
use krb5_token_service.Minting.Classify.{classify_cern_get_keytab_stderr}
use krb5_token_service.Minting.Child.{
  has_failed, show_code, stderr_text, failure_line, classified_field, run_subprocess, child_env,
}

abbrev is_bad_password : Failure → Bool
is_bad_password (bad_password _) = true
is_bad_password _ = false

keytab_line : Text → CompletedProcess → Dict Text → Exec (Unit {0})
keytab_line username result more =
    emit
      (failure_line (codes "cern_get_keytab_failed") result ((codes "username", username) ∷ more))

keytab_failure : {A : Type 0} → Text → CompletedProcess → Option Failure → Exec A
keytab_failure username result (some classified) = do
  if is_bad_password classified
      then pure tt
      else keytab_line username result (classified_field classified)
  raise classified
keytab_failure username result none = do
  keytab_line username result []
  raise (minting (codes "cern-get-keytab exited " ++ show_code result.returncode))

pub check_keytab : Text → CompletedProcess → Exec (Unit {0})
check_keytab username result =
    if has_failed result.returncode
    then keytab_failure username result (classify_cern_get_keytab_stderr (stderr_text result))
    else pure tt

pub no_keytab : {A : Type 0} → Text → Failure → Exec A
no_keytab username (os_error why) = do
  emit (noted (codes "cern_get_keytab_no_output") ((codes "username", username) ∷ []))
  raise (minting (codes "cern-get-keytab produced no keytab file"))
no_keytab username other = raise other

pub empty_keytab : {A : Type 0} → Text → Exec A
empty_keytab username = do
  emit (noted (codes "cern_get_keytab_empty_output") ((codes "username", username) ∷ []))
  raise (minting (codes "cern-get-keytab produced an empty keytab file"))

-- The `finally` block.
zero_password : ℕ → ℕ → World → World
zero_password stdin password w = zero_buffer (some password) (zero_buffer (some stdin) w)

abbrev pub keytab_argv : Outside → Settings → Text → Text → List Text
keytab_argv env settings tmpdir username =
    env.python
    ∷ settings.cern_get_keytab_bin
    ∷ codes "-u"
    ∷ codes "-v"
    ∷ codes "-l"
    ∷ username
    ∷ codes "--keytab"
    ∷ join_path tmpdir (codes "keytab")
    ∷ []

module _ (env : Outside) (settings : Settings) (username : Text) where
  pub keytab_call : Text → Bytes → Call
  keytab_call tmpdir stdin = record {
    argv = keytab_argv env settings tmpdir username;
    stdin = some stdin;
    timeout_seconds = settings.cern_get_keytab_timeout_seconds;
    environ = child_env env settings;
  }

  -- The run of cern-get-keytab, and what follows it.
  run_cern_get_keytab : Text → Bytes → Exec Bytes
  run_cern_get_keytab tmpdir stdin = do
    result ←
        run_subprocess env tmpdir (keytab_call tmpdir stdin) settings.cern_get_keytab_bin username
    check_keytab username result
    keytab_bytes ← catch (read_file env tmpdir (codes "keytab")) (no_keytab username)
    if is_empty keytab_bytes then empty_keytab username else pure tt
    pure keytab_bytes

  -- The body of the `with` statement.
  keytab_in : ℕ → Text → Exec Bytes
  keytab_in stdin_payload tmpdir = do
    stdin ← read_buffer stdin_payload
    run_cern_get_keytab tmpdir stdin

  -- `mint_keytab`; the password is a buffer.
  unfoldable pub mint_keytab : ℕ → Exec Bytes
  unfolding keytab_in run_cern_get_keytab keytab_call zero_password empty_keytab no_keytab
      check_keytab keytab_failure keytab_line
  mint_keytab password = do
    make_root env
    content ← read_buffer password
    stdin_payload ← new_buffer content
    extend_buffer stdin_payload (10 ∷ [])
    finally (with_tmpdir env settings.ccache_tmp_root (keytab_in stdin_payload))
        (zero_password stdin_payload password)
