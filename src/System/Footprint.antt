-- ===== src/System/Footprint.antt =====
-- What the system actions leave alone: the limiter, the cached keys and the audit lines.
use krb5_token_service.Prelude.{ℕ, ◌≡◌, refl, Option, none, some, List, [], ◌∷◌, Text}
use krb5_token_service.Prelude.Dict.{Dict}
use krb5_token_service.Python.Utf8.{Bytes}
use krb5_token_service.Errors.{Failure, os_error, timeout_expired}
use krb5_token_service.RateLimit.{RateLimiter}
use krb5_token_service.World.{
  World, JwksEntry, AuditLine, Event, audited, noted, Outside, Call, Files, File, Ran, not_started,
  timed_out, completed,
}
use krb5_token_service.Exec.{Exec}
use krb5_token_service.Exec.Keeps.{
  Keeps, Keeps-pure, Keeps-raise, Keeps-gets, Keeps-if, Keeps-bind, Keeps-modify, Keeps-finally,
}
use krb5_token_service.System.{
  next_tick, emit, read_buffer, new_buffer, extend_buffer, zero_buffer, monotonic, disk_access,
  make_root, with_tmpdir, write_file, chmod_file, content_of, read_file, ran, run_child,
  change_mode,
}

abbrev pub audits : List Event → List AuditLine
audits [] = []
audits (audited line ∷ es) = line ∷ audits es
audits (noted name fields ∷ es) = audits es

pub record Ledger : Type 0 where
  pub limiter : RateLimiter
  pub jwks_cache : Dict JwksEntry
  pub audit_log : List AuditLine

-- What the minting functions must not touch.
abbrev pub ledger : World → Ledger
ledger w = record { limiter = w.limiter; jwks_cache = w.jwks_cache; audit_log = audits w.log }

abbrev pub IsOsError : Failure → Type 0
IsOsError (os_error why) = Unit
IsOsError _ = ⊥

-- What `subprocess.run` raises.
abbrev pub IsChildError : Failure → Type 0
IsChildError (os_error why) = Unit
IsChildError timeout_expired = Unit
IsChildError _ = ⊥

module _ {E : Failure → Type 0} where
  pub Keeps-next_tick : Keeps ledger E next_tick
  unfolding next_tick
  Keeps-next_tick = record { same = λ w. refl; fails = λ w. tt }

  pub Keeps-emit : (name : Text) (fields : Dict Text) → Keeps ledger E (emit (noted name fields))
  unfolding emit
  Keeps-emit name fields = Keeps-modify _ (λ w. refl)

  pub Keeps-read_buffer : (i : ℕ) → Keeps ledger E (read_buffer i)
  unfolding read_buffer
  Keeps-read_buffer i = Keeps-gets _

  pub Keeps-new_buffer : (bs : Bytes) → Keeps ledger E (new_buffer bs)
  unfolding new_buffer
  Keeps-new_buffer bs = record { same = λ w. refl; fails = λ w. tt }

  pub Keeps-extend_buffer : (i : ℕ) (bs : Bytes) → Keeps ledger E (extend_buffer i bs)
  unfolding extend_buffer
  Keeps-extend_buffer i bs = Keeps-modify _ (λ w. refl)

  pub Keeps-monotonic : (env : Outside) → Keeps ledger E (monotonic env)
  unfolding monotonic
  Keeps-monotonic env = Keeps-bind _ _ Keeps-next_tick (λ n. Keeps-pure _)

pub ledger-zero_buffer : (i : Option ℕ) (w : World) → ledger (zero_buffer i w) ≡ ledger w
unfolding zero_buffer
ledger-zero_buffer none w = refl
ledger-zero_buffer (some i) w = refl

ledger-change_mode :
    (env : Outside) (dir name : Text) (mode : ℕ) (file : Option File) (w : World)
    → ledger (change_mode env dir name mode file w) ≡ ledger w
unfolding change_mode
ledger-change_mode env dir name mode none w = refl
ledger-change_mode env dir name mode (some file) w = refl

module _ (env : Outside) {E : Failure → Type 0} (allowed : (why : Text) → E (os_error why)) where
  pub Keeps-disk_access : Keeps ledger E (disk_access env)
  unfolding disk_access
  Keeps-disk_access =
      Keeps-bind _ _ Keeps-next_tick
        (λ n. Keeps-if (env.disk_fails n) _ _ (Keeps-raise _ (allowed _)) (Keeps-pure tt))

  pub Keeps-make_root : Keeps ledger E (make_root env)
  unfolding make_root
  Keeps-make_root = Keeps-disk_access

  pub Keeps-with_tmpdir :
      {A : Type 0} (root : Text) (body : Text → Exec A)
      → ((path : Text) → Keeps ledger E (body path))
      → Keeps ledger E (with_tmpdir env root body)
  unfolding with_tmpdir
  Keeps-with_tmpdir root body k = Keeps-bind _ _ Keeps-disk_access (λ _.
      Keeps-bind _ _ Keeps-next_tick (λ n.
        Keeps-bind _ _ (Keeps-modify _ (λ w. refl)) (λ _. Keeps-finally _ _ (k _) (λ w. refl))))

  pub Keeps-write_file :
      (dir name : Text) (content : Bytes) → Keeps ledger E (write_file env dir name content)
  unfolding write_file
  Keeps-write_file dir name content =
      Keeps-bind _ _ Keeps-disk_access (λ _. Keeps-modify _ (λ w. refl))

  pub Keeps-chmod_file :
      (dir name : Text) (mode : ℕ) → Keeps ledger E (chmod_file env dir name mode)
  unfolding chmod_file
  Keeps-chmod_file dir name mode = Keeps-modify _ (λ w. ledger-change_mode env dir name mode _ w)

  pub Keeps-content_of : (file : Option File) → Keeps ledger E (content_of env file)
  unfolding content_of
  Keeps-content_of none = Keeps-raise _ (allowed _)
  Keeps-content_of (some file) = Keeps-pure _

  pub Keeps-read_file : (dir name : Text) → Keeps ledger E (read_file env dir name)
  unfolding read_file
  Keeps-read_file dir name = Keeps-bind _ _ (Keeps-gets _) Keeps-content_of

Keeps-ran :
    (env : Outside) (dir : Text) (call : Call) (found : Files) (r : Ran)
    → Keeps ledger IsChildError (ran env dir call found r)
unfolding ran
Keeps-ran env dir call found (not_started why) = Keeps-raise _ tt
Keeps-ran env dir call found timed_out =
    Keeps-bind _ _ (Keeps-modify _ (λ w. refl)) (λ _. Keeps-raise _ tt)
Keeps-ran env dir call found (completed code stderr files) =
    Keeps-bind _ _ (Keeps-modify _ (λ w. refl))
      (λ _. Keeps-bind _ _ (Keeps-modify _ (λ w. refl)) (λ _. Keeps-pure _))

pub Keeps-run_child :
    (env : Outside) (dir : Text) (call : Call) → Keeps ledger IsChildError (run_child env dir call)
unfolding run_child
Keeps-run_child env dir call =
    Keeps-bind _ _ Keeps-next_tick
      (λ n. Keeps-bind _ _ (Keeps-gets _) (λ found. Keeps-ran env dir call found _))
