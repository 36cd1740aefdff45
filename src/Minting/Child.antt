-- ===== src/Minting/Child.antt =====
-- `_run_subprocess` of src/krb5_token_service/minting.py, and what its three callers share.
pub mod Footprint
pub mod Returns
pub mod Rooms
use krb5_token_service.Prelude.{ℕ, Bool, Option, none, some, [], ◌∷◌, ◌++◌, Text, codes}
use krb5_token_service.Prelude.Dict
use krb5_token_service.Prelude.Dict.{Dict}
use krb5_token_service.Python.Utf8.{Bytes, decode_replace, strip}
use krb5_token_service.Python.Decimal.{show}
use krb5_token_service.Errors.{Failure, class_name, minting, os_error, timeout_expired}
use krb5_token_service.World.{Call, Event, noted, ReturnCode, exited, killed, Outside}
use krb5_token_service.Exec.{Exec, raise, lift, gets, catch, ◌>>=◌, ◌>>◌}
use krb5_token_service.Settings.{Settings}
use krb5_token_service.Ccache.{CcacheInfo, parse_ccache}
use krb5_token_service.World.{File}
use krb5_token_service.System.{emit, run_child, find_file, CompletedProcess}

-- `f"{returncode}"`
unfoldable pub show_code : ReturnCode → Text
unfolding show
show_code (exited n) = show n
show_code (killed n) = b'-' ∷ show n

-- `result.returncode != 0`
abbrev pub has_failed : ReturnCode → Bool
has_failed (exited ℕ.zero) = Bool.false
has_failed _ = Bool.true

-- `result.stderr.decode(errors="replace").strip()`
unfoldable pub stderr_text : CompletedProcess → Text
unfolding decode_replace strip
stderr_text result = strip (decode_replace result.stderr)

-- A log line about a child that has failed.
abbrev pub failure_line : Text → CompletedProcess → Dict Text → Event
failure_line event result more = noted event (
    (codes "returncode", show_code result.returncode) ∷ (codes "stderr", stderr_text result) ∷ more)

-- `classified=type(classified).__name__`
abbrev pub classified_field : Failure → Dict Text
classified_field classified = (codes "classified", class_name classified) ∷ []

translate : {A : Type 0} → Call → Text → Text → Failure → Exec A
translate call binary context (os_error why) = do
  emit (
      noted (codes "subprocess_spawn_failed")
        ((codes "binary", binary) ∷ (codes "error", why) ∷ []))
  raise (minting (codes "failed to invoke " ++ binary))
translate call binary context timeout_expired = do
  emit (
      noted (codes "subprocess_timed_out") (
        (codes "binary", binary)
        ∷ (codes "context", context)
        ∷ (codes "timeout", show call.timeout_seconds)
        ∷ []))
  raise (minting (binary ++ codes " timed out"))
translate call binary context other = raise other

module _ (env : Outside) where
  unfoldable pub run_subprocess : Text → Call → Text → Text → Exec CompletedProcess
  unfolding translate
  run_subprocess dir call binary context =
      catch (run_child env dir call) (translate call binary context)

  -- `{**os.environ, "KRB5_CONFIG": settings.krb5_config}`
  abbrev pub child_env : Settings → Dict Text
  child_env settings = Dict.insert (codes "KRB5_CONFIG") settings.krb5_config env.environ

  abbrev content_if : Option File → Option Bytes
  content_if none = none
  content_if (some file) = some file.content

  -- `read_ccache(dir / name)`
  unfoldable pub read_ccache : Text → Text → Exec CcacheInfo
  unfolding find_file
  read_ccache dir name = do
    file ← gets (find_file env dir name)
    lift (parse_ccache (env.krb5 (content_if file)))
