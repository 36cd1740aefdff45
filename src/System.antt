-- ===== src/System.antt =====
-- What the program asks of the system: the clock, buffers, the temporary directories and child
-- processes, as actions. `subprocess.run`, `tempfile.TemporaryDirectory` and `pathlib.Path` belong
-- to Python; the modelled calls are those of src/krb5_token_service/minting.py and app.py.
pub mod Footprint
pub mod Zeroed
pub mod Returns
pub mod Rooms
pub mod Childless
use krb5_token_service.Prelude.{
  ℕ, zero, suc, Bool, true, false, Option, none, some, List, [], ◌∷◌, ◌++◌, if◌then◌else◌, Text,
  codes, length,
}
use krb5_token_service.Prelude.Dict
use krb5_token_service.Python.Utf8.{Bytes}
use krb5_token_service.Errors.{Failure, os_error, timeout_expired, Result, ok, raised}
use krb5_token_service.World.{
  World, Event, File, Files, Call, Spawned, Ran, not_started, timed_out, completed, ReturnCode,
  Outside,
}
use krb5_token_service.Exec.{Exec, pure, raise, lift, gets, catch, finally, modify, ◌>>=◌, ◌>>◌}
use krb5_token_service.Minting.Buffers.{set, zero_bytearray}

-- The number of the next question to the outside.
unfoldable pub next_tick : Exec ℕ
next_tick w = (ok w.ticks, record w { ticks = suc w.ticks })

unfoldable pub emit : Event → Exec (Unit {0})
emit e = modify (λ w. record w { log = e ∷ w.log })

pub get_buffer : ℕ → List Bytes → Bytes
get_buffer i [] = []
get_buffer zero (b ∷ bs) = b
get_buffer (suc i) (b ∷ bs) = get_buffer i bs

-- `bytes(buf)`
unfoldable pub read_buffer : ℕ → Exec Bytes
unfolding get_buffer
read_buffer i = gets (λ w. get_buffer i w.buffers)

-- A new `bytearray`.
unfoldable pub new_buffer : Bytes → Exec ℕ
new_buffer bs w = (ok (length w.buffers), record w { buffers = w.buffers ++ bs ∷ [] })

-- `buf.extend(bs)`
unfoldable pub extend_buffer : ℕ → Bytes → Exec (Unit {0})
unfolding get_buffer
extend_buffer i bs =
    modify (λ w. record w { buffers = set w.buffers i (get_buffer i w.buffers ++ bs) })

-- `_zero_bytearray(buf)`, unless there is no buffer.
unfoldable pub zero_buffer : Option ℕ → World → World
unfolding get_buffer
zero_buffer none w = w
zero_buffer (some i) w = record w {
  buffers = set w.buffers i (zero_bytearray (get_buffer i w.buffers));
}

-- `dir / name`
abbrev pub join_path : Text → Text → Text
join_path dir name = dir ++ (b'/' ∷ name)

abbrev files_of : Option Files → Files
files_of none = []
files_of (some fs) = fs

-- What `subprocess.run` is read for: the return code and the standard error output.
pub record CompletedProcess : Type 0 where
  pub returncode : ReturnCode
  pub stderr : Bytes

abbrev started : Call → Files → World → World
started call found w = record w { spawned = record { call = call; found = found } ∷ w.spawned }

module _ (env : Outside) where
  unfoldable pub monotonic : Exec ℕ
  monotonic = do n ← next_tick; pure (env.monotonic n)

  -- An operation on the file system, which may fail.
  unfoldable pub disk_access : Exec (Unit {0})
  disk_access = do
    n ← next_tick
    if env.disk_fails n then raise (os_error (codes "disk")) else pure tt

  -- `root.mkdir(mode=0o700, parents=True, exist_ok=True)`; only temporary directories are kept in the
  -- state.
  unfoldable pub make_root : Exec (Unit {0})
  make_root = disk_access

  remove_dir : Text → World → World
  remove_dir path w = record w { dirs = Dict.erase path w.dirs }

  -- `with TemporaryDirectory(dir=root) as path: body`. The directory is new and private, and goes
  -- however the body ends.
  unfoldable pub with_tmpdir : {A : Type 0} → Text → (Text → Exec A) → Exec A
  unfolding remove_dir
  with_tmpdir root body = do
    disk_access
    n ← next_tick
    let path = join_path root (env.temp_name n)
    modify (λ w. record w { dirs = Dict.insert path [] w.dirs })
    finally (body path) (remove_dir path)

  put_file : Text → Text → Bytes → World → World
  put_file dir name content w =
      let file : File = record { content = content; mode = env.created_mode } in
      let files = Dict.insert name file (files_of (Dict.lookup dir w.dirs)) in
      record w { dirs = Dict.insert dir files w.dirs }

  -- `path.write_bytes(content)` of a file that is new
  unfoldable pub write_file : Text → Text → Bytes → Exec (Unit {0})
  unfolding put_file
  write_file dir name content = do disk_access; modify (put_file dir name content)

  change_mode : Text → Text → ℕ → Option File → World → World
  change_mode dir name mode none w = w
  change_mode dir name mode (some file) w =
      let changed : File = record file { mode = mode } in
      let files = Dict.insert name changed (files_of (Dict.lookup dir w.dirs)) in
      record w { dirs = Dict.insert dir files w.dirs }

  unfoldable pub find_file : Text → Text → World → Option File
  find_file dir name w = Dict.lookup name (files_of (Dict.lookup dir w.dirs))

  -- `path.chmod(mode)` of a file that is there
  unfoldable pub chmod_file : Text → Text → ℕ → Exec (Unit {0})
  unfolding change_mode find_file
  chmod_file dir name mode = modify (λ w. change_mode dir name mode (find_file dir name w) w)

  unfoldable pub content_of : Option File → Exec Bytes
  content_of none = raise (os_error (codes "No such file or directory"))
  content_of (some file) = pure file.content

  -- `path.read_bytes()`
  unfoldable pub read_file : Text → Text → Exec Bytes
  unfolding find_file content_of
  read_file dir name = do file ← gets (find_file dir name); content_of file

  ran : Text → Call → Files → Ran → Exec CompletedProcess
  ran dir call found (not_started why) = raise (os_error why)
  ran dir call found timed_out = do modify (started call found); raise timeout_expired
  ran dir call found (completed code stderr files) = do
    modify (started call found)
    modify (λ w. record w { dirs = Dict.insert dir files w.dirs })
    pure (record { returncode = code; stderr = stderr })

  -- `subprocess.run(argv, input=…, capture_output=True, check=False, timeout=…, env=…)` of a child that
  -- works in the private directory.
  unfoldable pub run_child : Text → Call → Exec CompletedProcess
  unfolding ran
  run_child dir call = do
    n ← next_tick
    found ← gets (λ w. files_of (Dict.lookup dir w.dirs))
    ran dir call found (env.child n call found)
