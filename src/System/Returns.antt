-- ===== src/System/Returns.antt =====
-- A child that has run, and a file that has been read.
use krb5_token_service.Prelude.{
  ◌≡◌, refl, ap, ◌∙◌, ℕ, Option, none, some, List, ◌∷◌, Text, text_eq_refl,
}
use krb5_token_service.Prelude.Dict
use krb5_token_service.Prelude.Dict.{lookup-insert}
use krb5_token_service.Python.Utf8.{Bytes}
use krb5_token_service.Errors.{ok}
use krb5_token_service.World.{
  World, Call, Files, File, Spawned, Ran, not_started, timed_out, completed, Outside,
}
use krb5_token_service.Exec.{pure, raise, gets, modify, ◌>>=◌}
use krb5_token_service.System.{
  CompletedProcess, next_tick, run_child, ran, find_file, content_of, read_file, files_of,
}

abbrev pub child_of : Call → Files → Spawned
child_of call found = record { call = call; found = found }

module _ (env : Outside) where
  -- A child ran to its end, after these others, and left the directory with these files.
  pub record HasRun (dir : Text) (call : Call) (result : CompletedProcess) (before : List Spawned)
      (w : World) : Type 0 where
    pub question : ℕ
    pub found : Files
    pub files : Files
    pub answered : env.child question call found ≡ completed result.returncode result.stderr files
    pub left : Dict.lookup dir w.dirs ≡ some files
    pub children : w.spawned ≡ child_of call found ∷ before

  ran-ok :
      (dir : Text) (call : Call) (found : Files) (n : ℕ) (r : Ran) (w : World)
      (result : CompletedProcess)
      → env.child n call found ≡ r
      → (ran env dir call found r w).0 ≡ ok result
      → HasRun dir call result w.spawned (ran env dir call found r w).1
  unfolding ran modify raise pure ◌>>=◌
  ran-ok dir call found n (not_started why) w result h e = cc
  ran-ok dir call found n timed_out w result h e = cc
  ran-ok dir call found n (completed code stderr files) w result h e = record {
    question = n;
    found = found;
    files = files;
    answered =
        let same : record { returncode = code; stderr = stderr } ≡ result = cc in
        h
        ∙ ap (λ x. completed (CompletedProcess.returncode x) (CompletedProcess.stderr x) files)
            same;
    left = lookup-insert dir dir files w.dirs ∙ rw (text_eq_refl dir) refl;
    children = refl;
  }

  pub run_child-ok :
      (dir : Text) (call : Call) (w : World) (result : CompletedProcess)
      → (run_child env dir call w).0 ≡ ok result
      → HasRun dir call result w.spawned (run_child env dir call w).1
  unfolding run_child next_tick gets ◌>>=◌
  run_child-ok dir call w result e = ran-ok dir call _ w.ticks _ _ result refl e

  content_of-ok :
      (o : Option File) (w : World) (bs : Bytes)
      → (content_of env o w).0 ≡ ok bs
      → (file : File) × (o ≡ some file) × (file.content ≡ bs) × ((content_of env o w).1 ≡ w)
  unfolding content_of raise pure
  content_of-ok none w bs e = cc
  content_of-ok (some file) w bs e = (file, refl, cc, refl)

  pub read_file-ok :
      (dir name : Text) (w : World) (bs : Bytes)
      → (read_file env dir name w).0 ≡ ok bs
      → (file : File) × (find_file env dir name w ≡ some file)
        × (file.content ≡ bs)
        × ((read_file env dir name w).1 ≡ w)
  unfolding read_file gets ◌>>=◌
  read_file-ok dir name w bs e = content_of-ok (find_file env dir name w) w bs e

  pub HasRun-find_file :
      (dir name : Text) (call : Call) (result : CompletedProcess) (before : List Spawned)
      (w : World) (run : HasRun dir call result before w)
      → find_file env dir name w ≡ Dict.lookup name run.files
  unfolding find_file
  HasRun-find_file dir name call result before w run =
      ap (λ o. Dict.lookup name (files_of o)) run.left
