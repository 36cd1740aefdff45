-- ===== src/System/Rooms.antt =====
-- What a child finds: the children that have started, the buffers and the directories, as the steps
-- around a private directory change them.
pub mod Steps
use krb5_token_service.Prelude.{
  ℕ, ◌≡◌, ◌≢◌, refl, sym, ap, ◌∙◌, ◌⊎◌, inl, inr, Bool, true, false, Option, none, some, List, [],
  ◌∷◌, ◌++◌, length, Text, codes, text_eq, text_eq_iff, text_eq_refl, text_ne, Bool-cases,
  if◌then◌else◌,
}
use krb5_token_service.Prelude.Dict
use krb5_token_service.Prelude.Dict.{Dict, lookup-insert, lookup-erase}
use krb5_token_service.Python.Utf8.{Bytes}
use krb5_token_service.Errors.{Failure, os_error}
use krb5_token_service.World.{
  World, Event, Call, Files, File, Spawned, Ran, not_started, timed_out, completed, Outside,
}
use krb5_token_service.Exec.{Exec, pure, raise, gets, modify, finally, ◌>>=◌, ◌>>◌}
use krb5_token_service.Exec.Keeps.{
  Keeps, Keeps-pure, Keeps-raise, Keeps-gets, Keeps-if, Keeps-bind, Keeps-modify,
}
use krb5_token_service.Exec.Triples.{
  Leads, Leads-pure, Leads-raise, Leads-Keeps, Leads-weaken, Leads-bind, Leads-finally,
  Leads-modify, Leads-gets, Leads-known,
}
use krb5_token_service.Minting.Buffers.{set}
use krb5_token_service.System.{
  zero_buffer, get_buffer, next_tick, emit, read_buffer, disk_access, with_tmpdir, remove_dir,
  write_file, put_file, chmod_file, change_mode, find_file, content_of, read_file, run_child, ran,
  files_of, started, join_path, CompletedProcess,
}

-- The last buffer.
pub get_buffer-last : (bs : List Bytes) (x : Bytes) → get_buffer (length bs) (bs ++ x ∷ []) ≡ x
unfolding get_buffer
get_buffer-last [] x = refl
get_buffer-last (b ∷ bs) x = get_buffer-last bs x

pub set-last :
    (bs : List Bytes) (x y : Bytes)
    → set (bs ++ x ∷ []) (length bs) (get_buffer (length bs) (bs ++ x ∷ []) ++ y)
      ≡ bs ++ (x ++ y) ∷ []
unfolding get_buffer set
set-last [] x y = refl
set-last (b ∷ bs) x y = ap (λ l. b ∷ l) (set-last bs x y)

pub record Visible : Type 0 where
  pub spawned : List Spawned
  pub buffers : List Bytes
  pub dirs : Dict Files

abbrev pub visible : World → Visible
visible w = record { spawned = w.spawned; buffers = w.buffers; dirs = w.dirs }

-- Any failure.
abbrev pub Any : Failure → Type 0
Any f = Unit

abbrev pub IsQuiet : {A : Type 0} → Exec A → Type 0
IsQuiet m = Keeps visible Any m

pub IsQuiet-next_tick : IsQuiet next_tick
unfolding next_tick
IsQuiet-next_tick = record { same = λ w. refl; fails = λ w. tt }

pub IsQuiet-emit : (e : Event) → IsQuiet (emit e)
unfolding emit
IsQuiet-emit e = Keeps-modify _ (λ w. refl)

module _ (env : Outside) where
  pub IsQuiet-disk_access : IsQuiet (disk_access env)
  unfolding disk_access
  IsQuiet-disk_access =
      Keeps-bind _ _ IsQuiet-next_tick
        (λ n. Keeps-if (env.disk_fails n) _ _ (Keeps-raise _ tt) (Keeps-pure tt))

  IsQuiet-content_of : (file : Option File) → IsQuiet (content_of env file)
  unfolding content_of
  IsQuiet-content_of none = Keeps-raise _ tt
  IsQuiet-content_of (some file) = Keeps-pure _

  pub IsQuiet-read_file : (dir name : Text) → IsQuiet (read_file env dir name)
  unfolding read_file
  IsQuiet-read_file dir name = Keeps-bind _ _ (Keeps-gets _) IsQuiet-content_of

-- From `v`: these children have started, and of the directories at most `dir` is another, with these
-- files.
pub record Room (v : Visible) (spawned : List Spawned) (dir : Text) (files : Files) (v' : Visible)
    : Type 0 where
  pub children : v'.spawned ≡ spawned
  pub buffers : v'.buffers ≡ v.buffers
  pub here : Dict.lookup dir v'.dirs ≡ some files
  pub elsewhere : (p : Text) → dir ≢ p → Dict.lookup p v'.dirs ≡ Dict.lookup p v.dirs

-- At most one child has started, and it is of this kind.
abbrev pub Started : (Spawned → Type 0) → List Spawned → List Spawned → Type 0
Started Is before after = (after ≡ before) ⊎ ((s : Spawned) × Is s × (after ≡ s ∷ before))

-- The same with the directory there.
abbrev pub Done : (Spawned → Type 0) → Visible → Text → Visible → Type 0
Done Is v dir v' =
    (spawned : List Spawned) × (files : Files) × Started Is v.spawned spawned
    × Room v spawned dir files v'

-- The same with the directory gone: no directory is there that was not there before.
pub record Left (Is : Spawned → Type 0) (v v' : Visible) : Type 0 where
  pub children : Started Is v.spawned v'.spawned
  pub old :
      (p : Text) (files : Files)
      → Dict.lookup p v'.dirs ≡ some files
      → Dict.lookup p v.dirs ≡ some files

pub Room-insert :
    (v v' : Visible) (spawned : List Spawned) (dir : Text) (old new : Files)
    → Room v spawned dir old v'
    → Room v spawned dir new (record v' { dirs = Dict.insert dir new v'.dirs })
Room-insert v v' spawned dir old new k = record {
  children = k.children;
  buffers = k.buffers;
  here = lookup-insert dir dir new v'.dirs ∙ rw (text_eq_refl dir) refl;
  elsewhere = λ p h. lookup-insert dir p new v'.dirs ∙ rw (text_ne dir p h) (k.elsewhere p h);
}

pub Room-fresh :
    (v v' : Visible) (dir : Text)
    → v' ≡ v
    → Room v v.spawned dir [] (record v' { dirs = Dict.insert dir [] v'.dirs })
Room-fresh v v' dir e = record {
  children = ap Visible.spawned e;
  buffers = ap Visible.buffers e;
  here = lookup-insert dir dir [] v'.dirs ∙ rw (text_eq_refl dir) refl;
  elsewhere = λ p h.
      lookup-insert dir p [] v'.dirs
      ∙ rw (text_ne dir p h) (ap (λ x. Dict.lookup p (Visible.dirs x)) e);
}

module _ (Is : Spawned → Type 0) (v : Visible) where
  pub Left-here : (v' : Visible) → v' ≡ v → Left Is v v'
  Left-here v' e = rw e (record { children = inl refl; old = λ p files h. h })

  pub Left-Done :
      (dir : Text) (v' : Visible)
      → Done Is v dir v'
      → Left Is v (record v' { dirs = Dict.erase dir v'.dirs })
  Left-Done dir v' (spawned, files, s, k) = record {
    children = rw k.children s;
    old = λ p fs h. elim (Bool-cases (text_eq dir p)) [
      | inl same ↦ cc (h, lookup-erase dir p v'.dirs, same)
      | inr other ↦
          sym (k.elsewhere p (λ e. cc ((text_eq_iff dir p).1 e)))
          ∙ (sym (rw other refl) ∙ (sym (lookup-erase dir p v'.dirs) ∙ h))
    ];
  }

pub Left-zero_buffer :
    (Is : Spawned → Type 0) (v : Visible) (i : Option ℕ) (w : World)
    → Left Is v (visible w)
    → Left Is v (visible (zero_buffer i w))
unfolding zero_buffer
Left-zero_buffer Is v none w k = k
Left-zero_buffer Is v (some i) w k = record { children = k.children; old = k.old }
