-- ===== src/System/Rooms/Steps.antt =====
-- The steps around a private directory.
use krb5_token_service.Prelude.{ℕ, ◌≡◌, refl, ap, ◌∙◌, inl, inr, some, [], ◌∷◌, Text}
use krb5_token_service.Prelude.Dict
use krb5_token_service.Prelude.Dict.{Dict, lookup-insert, lookup-erase}
use krb5_token_service.Python.Utf8.{Bytes}
use krb5_token_service.World.{
  Call, Files, File, Spawned, Ran, not_started, timed_out, completed, Outside,
}
use krb5_token_service.Exec.{Exec}
use krb5_token_service.Exec.Triples.{
  Leads, Leads-pure, Leads-raise, Leads-Keeps, Leads-weaken, Leads-bind, Leads-finally,
  Leads-modify, Leads-gets, Leads-known,
}
use krb5_token_service.System.{
  with_tmpdir, remove_dir, write_file, put_file, chmod_file, change_mode, find_file, run_child, ran,
  files_of, join_path,
}
use krb5_token_service.System.Rooms.{
  Visible, visible, IsQuiet, IsQuiet-next_tick, IsQuiet-disk_access, Room, Done, Left, Room-insert,
  Room-fresh, Left-here, Left-Done,
}

module _ (env : Outside) (Is : Spawned → Type 0) (v : Visible) where
  -- A body that is run in a new directory.
  pub Leads-with_tmpdir :
      {A : Type 0} (root : Text) (body : Text → Exec A)
      → ((dir : Text)
          → Leads visible (Room v v.spawned dir []) (body dir) (λ a. Done Is v dir) (Done Is v dir))
      → Leads visible (λ v'. v' ≡ v) (with_tmpdir env root body) (λ a. Left Is v) (Left Is v)
  unfolding with_tmpdir remove_dir
  Leads-with_tmpdir root body k =
      Leads-bind _ _
        (Leads-weaken _ (λ b p. p) (λ a b p. p) (Left-here Is v)
          (Leads-Keeps _ (IsQuiet-disk_access env)))
        (λ _.
          Leads-bind _ _
            (Leads-weaken _ (λ b p. p) (λ a b p. p) (Left-here Is v)
              (Leads-Keeps _ IsQuiet-next_tick))
            (λ n.
              Leads-bind _ _
                (Leads-modify _ (λ w. Room-fresh v (visible w) (join_path root (env.temp_name n))))
                (λ _.
                  Leads-finally _ _ (k _) (λ a w. Left-Done Is v _ _) (λ w. Left-Done Is v _ _))))

  module _ (dir : Text) where
    -- A step in the directory that starts no child.
    pub Leads-quiet :
        {A : Type 0} {files : Files} (m : Exec A)
        → IsQuiet m
        → Leads visible
            (Room v v.spawned dir files)
            m
            (λ a. Room v v.spawned dir files)
            (Done Is v dir)
    Leads-quiet {files = files} m k =
        Leads-weaken _ (λ b p. p) (λ a b p. p) (λ b p. (v.spawned, files, inl refl, p))
          (Leads-Keeps m k)

    -- A step once the child has run.
    pub Leads-after :
        {A : Type 0} (m : Exec A)
        → IsQuiet m
        → Leads visible (Done Is v dir) m (λ a. Done Is v dir) (Done Is v dir)
    Leads-after m k = Leads-Keeps m k

    pub Leads-write_file :
        (files : Files) (name : Text) (content : Bytes)
        → Leads visible
            (Room v v.spawned dir files)
            (write_file env dir name content)
            (λ _.
              Room v v.spawned dir
                (Dict.insert name (record { content = content; mode = env.created_mode }) files))
            (Done Is v dir)
    unfolding write_file put_file
    Leads-write_file files name content =
        Leads-bind _ _ (Leads-quiet _ (IsQuiet-disk_access env)) (λ _.
          Leads-modify _ (λ w k. rw k.here (Room-insert v (visible w) v.spawned dir files _ k)))

    pub Leads-chmod_file :
        (files : Files) (name : Text) (mode : ℕ) (file : File)
        → Dict.lookup name files ≡ some file
        → Leads visible
            (Room v v.spawned dir files)
            (chmod_file env dir name mode)
            (λ _. Room v v.spawned dir (Dict.insert name (record file { mode = mode }) files))
            (Done Is v dir)
    unfolding chmod_file change_mode find_file
    Leads-chmod_file files name mode file e =
        Leads-modify _
          (λ w k. rw (k.here, e) (rw k.here (Room-insert v (visible w) v.spawned dir files _ k)))

    Done-started :
        (call : Call) (found : Files) (v' : Visible)
        → Is (record { call = call; found = found })
        → Room v v.spawned dir found v'
        → Done Is v dir (record v' { spawned = record { call = call; found = found } ∷ v'.spawned })
    Done-started call found v' i k =
        let s : Spawned = record { call = call; found = found } in
        (
          s ∷ v.spawned,
          found,
          inr (s, i, refl),
          record {
            children = ap (λ l. s ∷ l) k.children;
            buffers = k.buffers;
            here = k.here;
            elsewhere = k.elsewhere;
          },
        )

    Done-insert :
        (v' : Visible) (files : Files)
        → Done Is v dir v'
        → Done Is v dir (record v' { dirs = Dict.insert dir files v'.dirs })
    Done-insert v' files (spawned, old, s, k) =
        (spawned, files, s, Room-insert v v' spawned dir old files k)

    Leads-ran :
        (call : Call) (found : Files) (r : Ran)
        → Is (record { call = call; found = found })
        → Leads visible
            (Room v v.spawned dir found)
            (ran env dir call found r)
            (λ _. Done Is v dir)
            (Done Is v dir)
    unfolding ran
    Leads-ran call found (not_started why) i =
        Leads-raise _ (λ b p. (v.spawned, found, inl refl, p))
    Leads-ran call found timed_out i =
        Leads-bind _ _ (Leads-modify _ (λ w k. Done-started call found (visible w) i k))
          (λ _. Leads-raise _ (λ b p. p))
    Leads-ran call found (completed code stderr files) i =
        Leads-bind {Q = λ _. Done Is v dir} _ _
          (Leads-modify _ (λ w k. Done-started call found (visible w) i k))
          (λ _.
            Leads-bind {Q = λ _. Done Is v dir} _ _
              (Leads-modify _ (λ w k. Done-insert (visible w) files k))
              (λ _. Leads-pure _ (λ b p. p)))

    pub Leads-run_child :
        (call : Call) (found : Files)
        → Is (record { call = call; found = found })
        → Leads visible
            (Room v v.spawned dir found)
            (run_child env dir call)
            (λ _. Done Is v dir)
            (Done Is v dir)
    unfolding run_child
    Leads-run_child call found i = Leads-bind _ _ (Leads-quiet _ IsQuiet-next_tick) (λ n.
        Leads-bind _ _ (Leads-gets _ (λ b. files_of (Dict.lookup dir b.dirs)) (λ w. refl)) (λ seen.
          Leads-weaken _ (λ b (k, e). (k, e ∙ rw k.here refl)) (λ a b p. p) (λ b p. p)
            (Leads-known (λ fs. ran env dir call fs (env.child n call fs)) seen found
              (Leads-ran call found (env.child n call found) i))))
