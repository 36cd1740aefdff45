-- ===== src/Minting/Tickets.antt =====
-- `mint_ticket` of src/krb5_token_service/minting.py: a fresh ticket by a password or a keytab.
pub mod Footprint
pub mod Issued
pub mod Quiet
pub mod Raises
pub mod Rooms
pub mod Secrets
pub mod Spawned
use krb5_token_service.Prelude.{
  ℕ, Bool, true, false, not, Option, none, some, List, [], ◌∷◌, ◌++◌, if◌then◌else◌, Text, codes,
  is_empty,
}
use krb5_token_service.Prelude.Dict.{Dict}
use krb5_token_service.Python.Utf8.{Bytes}
use krb5_token_service.Errors.{Failure, minting, os_error, value_error, bad_password, bad_keytab}
use krb5_token_service.World.{World, Call, noted, Outside}
use krb5_token_service.Exec.{Exec, pure, raise, catch, finally, ◌>>=◌, ◌>>◌}
use krb5_token_service.Settings.{Settings}
use krb5_token_service.Ccache.{CcacheInfo}
use krb5_token_service.System.{
  emit, read_buffer, new_buffer, extend_buffer, zero_buffer, join_path, make_root, with_tmpdir,
  write_file, chmod_file, read_file, CompletedProcess,
}
use krb5_token_service.Minting.Classify.{classify_password_stderr, classify_keytab_stderr}
use krb5_token_service.Minting.Child.{
  has_failed, show_code, stderr_text, failure_line, classified_field, run_subprocess, child_env,
  read_ccache,
}

pub record MintedTicket : Type 0 where
  pub ccache : Bytes
  pub principal : Text
  pub realm : Text
  pub expires_at : ℕ
  pub renew_until : Option ℕ

abbrev pub minted_ticket : Bytes → CcacheInfo → MintedTicket
minted_ticket ccache info = record {
  ccache = ccache;
  principal = info.principal;
  realm = info.realm;
  expires_at = info.expires_at;
  renew_until = info.renew_until;
}

abbrev pub is_none {ℓ} : {A : Type ℓ} → Option A → Bool
is_none none = true
is_none (some a) = false

-- `f"{username}@{settings.default_realm}"`
abbrev pub principal_of : Text → Settings → Text
principal_of username settings = username ++ (b'@' ∷ settings.default_realm)

-- `-k -t <path>` where a keytab is given.
abbrev pub keytab_options : Bool → Text → List Text
keytab_options false tmpdir = []
keytab_options true tmpdir = codes "-k" ∷ codes "-t" ∷ join_path tmpdir (codes "keytab") ∷ []

abbrev pub kinit_argv : Settings → Text → Bool → Text → Text → Text → List Text
kinit_argv settings tmpdir by_keytab lifetime renewable_lifetime username =
    settings.kinit_bin
    ∷ codes "-c"
    ∷ (codes "FILE:" ++ join_path tmpdir (codes "ccache"))
    ∷ (keytab_options by_keytab tmpdir
        ++ codes "-l"
          ∷ lifetime
          ∷ codes "-r"
          ∷ renewable_lifetime
          ∷ principal_of username settings
          ∷ [])

-- Whether a classified failure is the expected outcome of a wrong credential.
abbrev is_bad_credential : Failure → Bool
is_bad_credential (bad_password _) = true
is_bad_credential (bad_keytab _) = true
is_bad_credential _ = false

kinit_line : Text → CompletedProcess → Dict Text → Exec (Unit {0})
kinit_line username result more =
    emit (failure_line (codes "kinit_failed") result ((codes "username", username) ∷ more))

-- The `raise` after a return code that is not 0.
kinit_failure : {A : Type 0} → Text → CompletedProcess → Option Failure → Exec A
kinit_failure username result (some classified) = do
  if is_bad_credential classified
      then pure tt
      else kinit_line username result (classified_field classified)
  raise classified
kinit_failure username result none = do
  kinit_line username result []
  raise (minting (codes "kinit exited " ++ show_code result.returncode))

classify_for : Bool → Text → Option Failure
classify_for by_keytab stderr =
    if by_keytab then classify_keytab_stderr stderr else classify_password_stderr stderr

pub check_kinit : Bool → Text → CompletedProcess → Exec (Unit {0})
check_kinit by_keytab username result =
    if has_failed result.returncode
    then kinit_failure username result (classify_for by_keytab (stderr_text result))
    else pure tt

pub no_output : {A : Type 0} → Text → Failure → Exec A
no_output username (os_error why) = do
  emit (noted (codes "kinit_no_output") ((codes "username", username) ∷ []))
  raise (minting (codes "kinit produced no ccache file"))
no_output username other = raise other

pub empty_output : {A : Type 0} → Text → Exec A
empty_output username = do
  emit (noted (codes "kinit_empty_output") ((codes "username", username) ∷ []))
  raise (minting (codes "kinit produced an empty ccache file"))

-- `bytearray(password)` with a newline, where there is a password.
prepare_stdin : Option ℕ → Exec (Option ℕ)
prepare_stdin none = pure none
prepare_stdin (some password) = do
  content ← read_buffer password
  stdin ← new_buffer content
  extend_buffer stdin (10 ∷ [])
  pure (some stdin)

pub read_stdin : Option ℕ → Exec (Option Bytes)
read_stdin none = pure none
read_stdin (some stdin) = do content ← read_buffer stdin; pure (some content)

-- The `finally` block.
pub zero_secrets : Option ℕ → Option ℕ → Option ℕ → World → World
zero_secrets stdin password keytab w =
    zero_buffer keytab (zero_buffer password (zero_buffer stdin w))

module _ (env : Outside) where
  pub write_keytab : Text → Option ℕ → Exec (Unit {0})
  write_keytab tmpdir none = pure tt
  write_keytab tmpdir (some keytab) = do
    content ← read_buffer keytab
    write_file env tmpdir (codes "keytab") content
    chmod_file env tmpdir (codes "keytab") 0o600

  module _ (settings : Settings) (username lifetime renewable_lifetime : Text) where
    pub kinit_call : Bool → Text → Option Bytes → Call
    kinit_call by_keytab tmpdir stdin = record {
      argv = kinit_argv settings tmpdir by_keytab lifetime renewable_lifetime username;
      stdin = stdin;
      timeout_seconds = settings.kinit_timeout_seconds;
      environ = child_env env settings;
    }

    -- The run of kinit, and what follows it.
    run_kinit : Bool → Text → Option Bytes → Exec MintedTicket
    run_kinit by_keytab tmpdir stdin = do
      result ←
          run_subprocess env tmpdir (kinit_call by_keytab tmpdir stdin) settings.kinit_bin username
      check_kinit by_keytab username result
      ccache_bytes ← catch (read_file env tmpdir (codes "ccache")) (no_output username)
      if is_empty ccache_bytes then empty_output username else pure tt
      info ← read_ccache env tmpdir (codes "ccache")
      pure (minted_ticket ccache_bytes info)

    -- The body of the `with` statement.
    pub mint_in : Option ℕ → Option ℕ → Text → Exec MintedTicket
    mint_in keytab stdin_payload tmpdir = do
      write_keytab tmpdir keytab
      stdin ← read_stdin stdin_payload
      run_kinit (not (is_none keytab)) tmpdir stdin

    mint_checked : Option ℕ → Option ℕ → Exec MintedTicket
    mint_checked password keytab = do
      make_root env
      stdin_payload ← prepare_stdin password
      finally (with_tmpdir env settings.ccache_tmp_root (mint_in keytab stdin_payload))
          (zero_secrets stdin_payload password keytab)

    -- `mint_ticket`; the password and the keytab are buffers.
    unfoldable pub mint_ticket : Option ℕ → Option ℕ → Exec MintedTicket
    unfolding mint_checked mint_in run_kinit kinit_call write_keytab zero_secrets read_stdin
        prepare_stdin empty_output no_output check_kinit classify_for kinit_failure kinit_line
    mint_ticket password keytab =
        if is_none password
        then (if is_none keytab
            then raise
                (value_error (codes "mint_ticket requires exactly one of password or keytab"))
            else mint_checked password keytab)
        else if is_none keytab
        then mint_checked password keytab
        else raise (value_error (codes "mint_ticket requires exactly one of password or keytab"))
