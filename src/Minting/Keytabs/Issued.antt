-- ===== src/Minting/Keytabs/Issued.antt =====
-- A keytab that is given out is what cern-get-keytab wrote.
use krb5_token_service.Prelude.{
  refl, sym, subst, List, [], ◌∷◌, ◌++◌, ◌∙◌, ◌≡◌, ap, Option, none, some, ℕ, Text, codes, is_empty,
}
use krb5_token_service.Python.Utf8.{Bytes}
use krb5_token_service.Errors.{Failure, os_error, ok}
use krb5_token_service.World.{World, Files, Spawned, exited, Outside}
use krb5_token_service.Settings.{Settings}
use krb5_token_service.Exec.{pure}
use krb5_token_service.Exec.Returns.{
  AlwaysRaises, AlwaysRaises-bind, bind-ok, bind-runs, catch-ok, if-ok,
}
use krb5_token_service.System.{CompletedProcess, read_file, read_buffer, get_buffer, make_root}
use krb5_token_service.System.Returns.{child_of}
use krb5_token_service.System.Rooms.{Visible, visible, IsQuiet-disk_access}
use krb5_token_service.System.Childless.{
  children, IsChildless-IsQuiet, IsChildless-new_buffer, IsChildless-extend_buffer,
  children-zero_buffer, Started-only, Leads-childless, Leads-in_tmpdir,
}
use krb5_token_service.Exec.Keeps.{Keeps-gets}
use krb5_token_service.Exec.Triples.{Leads, Leads-bind, Leads-finally, Leads-returns, returns-Leads}
use krb5_token_service.Minting.Keytabs.Spawned.{IsQuiet-keytab_output, mint_keytab-IsSpawned}
use krb5_token_service.Minting.Child.{has_failed, stderr_text}
use krb5_token_service.Minting.Child.Returns.{
  AlwaysRaises-raise, run_subprocess-ok, has_failed-exited, ok-injective,
}
use krb5_token_service.Minting.Classify.{classify_cern_get_keytab_stderr}
use krb5_token_service.Minting.Written.{IsLeft, IsLeft-read, IsLeft-at}
use krb5_token_service.Minting.Keytabs.{
  mint_keytab, keytab_in, run_cern_get_keytab, keytab_call, check_keytab, keytab_failure, no_keytab,
  empty_keytab, zero_password,
}

AlwaysRaises-keytab_failure :
    {A : Type 0} (username : Text) (result : CompletedProcess) (classified : Option Failure)
    → AlwaysRaises (keytab_failure {A = A} username result classified)
unfolding keytab_failure
AlwaysRaises-keytab_failure username result (some f) =
    AlwaysRaises-bind _ _ (λ _. AlwaysRaises-raise f)
AlwaysRaises-keytab_failure username result none = AlwaysRaises-bind _ _ (λ _. AlwaysRaises-raise _)

AlwaysRaises-no_keytab :
    {A : Type 0} (username : Text) (f : Failure) → AlwaysRaises (no_keytab {A = A} username f)
unfolding no_keytab
AlwaysRaises-no_keytab username (os_error why) = AlwaysRaises-bind _ _ (λ _. AlwaysRaises-raise _)
AlwaysRaises-no_keytab username _ = AlwaysRaises-raise _

AlwaysRaises-empty_keytab :
    {A : Type 0} (username : Text) → AlwaysRaises (empty_keytab {A = A} username)
unfolding empty_keytab
AlwaysRaises-empty_keytab username = AlwaysRaises-bind _ _ (λ _. AlwaysRaises-raise _)

check_keytab-ok :
    (username : Text) (result : CompletedProcess) (w : World)
    → (check_keytab username result w).0 ≡ ok tt
    → (result.returncode ≡ exited 0) × ((check_keytab username result w).1 ≡ w)
unfolding check_keytab pure
check_keytab-ok username result w h =
    let (succeeded, same) =
      if-ok (has_failed result.returncode) _ (pure tt) w tt
        (AlwaysRaises-keytab_failure username result
          (classify_cern_get_keytab_stderr (stderr_text result)))
        h in
    (has_failed-exited result.returncode succeeded, ap (λ x. x.1) same)

children-zero_password :
    (stdin password : ℕ) (w : World) → children (zero_password stdin password w) ≡ children w
unfolding zero_password
children-zero_password stdin password w =
    children-zero_buffer (some password) _ ∙ children-zero_buffer (some stdin) w

module _ (env : Outside) (settings : Settings) (username : Text) where
  -- The keytab is what cern-get-keytab has left in a private directory, which was empty, with the
  -- password's buffer and a newline as its input.
  abbrev pub IsBootstrapped : ℕ → Visible → Bytes → Type 0
  IsBootstrapped password v keytab =
      (tmpdir : Text) × IsLeft env
        (keytab_call env settings username tmpdir (get_buffer password v.buffers ++ 10 ∷ [])) []
        (codes "keytab") keytab

  -- The keytab is what the only child that has started since has left.
  abbrev OfChild : List Spawned → Bytes → List Spawned → Type 0
  OfChild before keytab after =
      (tmpdir : Text) × (stdin : Bytes) × (found : Files) × IsLeft env
        (keytab_call env settings username tmpdir stdin) found (codes "keytab") keytab
      × (after ≡ child_of (keytab_call env settings username tmpdir stdin) found ∷ before)

  run_cern_get_keytab-ok :
      (tmpdir : Text) (stdin : Bytes) (w : World) (keytab : Bytes)
      → (run_cern_get_keytab env settings username tmpdir stdin w).0 ≡ ok keytab
      → OfChild w.spawned keytab
          (run_cern_get_keytab env settings username tmpdir stdin w).1.spawned
  unfolding run_cern_get_keytab pure
  run_cern_get_keytab-ok tmpdir stdin w keytab h =
      let (result, has_run, runs) = bind-runs _ _ w keytab h in
      let h1 = sym (ap (λ x. x.0) runs) ∙ h in
      let (_, checked, h2) = bind-ok _ _ _ keytab h1 in
      let (bytes, has_read, h3) = bind-ok _ _ _ keytab h2 in
      let (_, filled, h4) = bind-ok _ _ _ keytab h3 in
      let run = run_subprocess-ok env tmpdir _ _ _ w result has_run in
      let (code, same) = check_keytab-ok username result _ checked in
      let (read, _) =
        catch-ok (read_file env tmpdir (codes "keytab")) _ _ bytes (AlwaysRaises-no_keytab username)
          has_read in
      let (full, _) =
        if-ok (is_empty bytes) _ (pure tt) _ tt (AlwaysRaises-empty_keytab username) filled in
      let given : bytes ≡ keytab = ok-injective h4 in
      (
        tmpdir,
        stdin,
        run.found,
        rw given at (
            IsLeft-read env _ tmpdir result w.spawned _ _ bytes run code same full (codes "keytab")
              read),
        ap (λ x. x.1.spawned) runs
            ∙ (ap Visible.spawned ((IsQuiet-keytab_output env username tmpdir result).same _)
                ∙ run.children),
      )

  Leads-keytab_child :
      (sid : ℕ) (before : List Spawned) (tmpdir : Text)
      → Leads children
          (λ b. b ≡ before)
          (keytab_in env settings username sid tmpdir)
          (OfChild before)
          (λ b. Unit)
  unfolding keytab_in read_buffer
  Leads-keytab_child sid before tmpdir =
      Leads-bind _ _ (Leads-childless before _ (Keeps-gets _)) (λ stdin.
        Leads-returns _ (λ w keytab p h.
          subst
            (λ b.
              OfChild b keytab (run_cern_get_keytab env settings username tmpdir stdin w).1.spawned)
            p (run_cern_get_keytab-ok tmpdir stdin w keytab h)))

  Leads-keytab_once :
      (password : ℕ) (before : List Spawned)
      → Leads children
          (λ b. b ≡ before)
          (mint_keytab env settings username password)
          (OfChild before)
          (λ b. Unit)
  unfolding mint_keytab make_root read_buffer
  Leads-keytab_once password before =
      Leads-bind _ _ (Leads-childless before _ (IsChildless-IsQuiet _ (IsQuiet-disk_access env)))
        (λ _. Leads-bind _ _ (Leads-childless before _ (Keeps-gets _)) (λ content.
          Leads-bind _ _ (Leads-childless before _ (IsChildless-new_buffer content)) (λ sid.
            Leads-bind _ _ (Leads-childless before _ (IsChildless-extend_buffer sid _)) (λ _.
              Leads-finally _ _
                (Leads-in_tmpdir before env _ _ (λ dir. Leads-keytab_child sid before dir))
                (λ keytab w q.
                  subst (OfChild before keytab) (sym (children-zero_password sid password w)) q)
                (λ w q. q)))))

  pub mint_keytab-IsBootstrapped :
      (password : ℕ) (w : World) (keytab : Bytes)
      → (mint_keytab env settings username password w).0 ≡ ok keytab
      → IsBootstrapped password (visible w) keytab
  mint_keytab-IsBootstrapped password w keytab h =
      let (_, _, found, left, only) =
        returns-Leads _ (Leads-keytab_once password w.spawned) w keytab refl h in
      let k = mint_keytab-IsSpawned env settings username password w in
      let (dir, same_call, same_found) = Started-only _ _ _ _ k.children only in
      (dir, IsLeft-at env same_call same_found _ keytab left)
