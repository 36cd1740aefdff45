-- ===== src/Minting/Renewals/Issued.antt =====
-- A renewal that succeeds gives out what kinit -R wrote.
use krb5_token_service.Prelude.{
  refl, sym, codes, if◌then◌else◌, List, ◌∷◌, ◌∙◌, ◌≡◌, ap, Option, none, some, Text, is_empty,
}
use krb5_token_service.Python.Utf8.{Bytes}
use krb5_token_service.Errors.{Failure, ok}
use krb5_token_service.World.{World, Files, Spawned, exited, Outside}
use krb5_token_service.Settings.{Settings}
use krb5_token_service.Exec.{pure, ◌>>=◌, ◌>>◌}
use krb5_token_service.Exec.Returns.{AlwaysRaises, AlwaysRaises-bind, bind-ok, bind-runs, if-ok}
use krb5_token_service.System.{CompletedProcess, read_file, make_root}
use krb5_token_service.System.Returns.{child_of}
use krb5_token_service.System.Rooms.{Visible, IsQuiet-disk_access}
use krb5_token_service.System.Childless.{
  children, IsChildless-IsQuiet, IsChildless-write_file, IsChildless-chmod_file, Started-only,
  Leads-childless, Leads-in_tmpdir,
}
use krb5_token_service.Exec.Triples.{Leads, Leads-bind, Leads-returns, returns-Leads}
use krb5_token_service.Minting.Child.{run_subprocess, read_ccache}
use krb5_token_service.Minting.Child.Rooms.{IsQuiet-read_ccache}
use krb5_token_service.Minting.Renewals.Spawned.{
  ccache_file, IsQuiet-renewal_output, renew_ticket-IsSpawned,
}
use krb5_token_service.Minting.Child.{has_failed, stderr_text}
use krb5_token_service.Minting.Child.Returns.{
  AlwaysRaises-raise, run_subprocess-ok, has_failed-exited, ok-injective,
}
use krb5_token_service.Minting.Classify.{classify_renew_stderr}
use krb5_token_service.Minting.Tickets.{MintedTicket, minted_ticket}
use krb5_token_service.Minting.Written.{IsWritten, IsWritten-read, IsWritten-at}
use krb5_token_service.Minting.Renewals.{
  renew_ticket, renew_in, renew_call, check_renewal, renew_failure, empty_renewal,
}

AlwaysRaises-renew_failure :
    {A : Type 0} (result : CompletedProcess) (classified : Option Failure)
    → AlwaysRaises (renew_failure {A = A} result classified)
unfolding renew_failure
AlwaysRaises-renew_failure result (some f) = AlwaysRaises-raise f
AlwaysRaises-renew_failure result none = AlwaysRaises-bind _ _ (λ _. AlwaysRaises-raise _)

AlwaysRaises-empty_renewal : {A : Type 0} → AlwaysRaises (empty_renewal {A = A})
unfolding empty_renewal
AlwaysRaises-empty_renewal = AlwaysRaises-bind _ _ (λ _. AlwaysRaises-raise _)

check_renewal-ok :
    (result : CompletedProcess) (w : World)
    → (check_renewal result w).0 ≡ ok tt
    → (result.returncode ≡ exited 0) × ((check_renewal result w).1 ≡ w)
unfolding check_renewal pure
check_renewal-ok result w h =
    let (succeeded, same) =
      if-ok (has_failed result.returncode) _ (pure tt) w tt
        (AlwaysRaises-renew_failure result (classify_renew_stderr (stderr_text result))) h in
    (has_failed-exited result.returncode succeeded, ap (λ x. x.1) same)

module _ (env : Outside) (settings : Settings) where
  -- The ticket is what kinit -R has written in a private directory that held nothing but the ccache.
  abbrev pub IsRenewed : Bytes → MintedTicket → Type 0
  IsRenewed ccache minted =
      (tmpdir : Text) × IsWritten env (renew_call env settings tmpdir) (ccache_file ccache) minted

  -- The ticket is what the only child that has started since has written.
  abbrev OfChild : List Spawned → MintedTicket → List Spawned → Type 0
  OfChild before minted after =
      (tmpdir : Text) × (found : Files) × IsWritten env (renew_call env settings tmpdir) found
        minted
      × (after ≡ child_of (renew_call env settings tmpdir) found ∷ before)

  renewal-ok :
      (tmpdir binary context : Text) (before : List Spawned) (w : World) (minted : MintedTicket)
      → children w ≡ before
      → let m = (do
        result ← run_subprocess env tmpdir (renew_call env settings tmpdir) binary context
        check_renewal result
        renewed_bytes ← read_file env tmpdir (codes "ccache")
        if is_empty renewed_bytes then empty_renewal else pure tt
        info ← read_ccache env tmpdir (codes "ccache")
        pure (minted_ticket renewed_bytes info)) in
        (m w).0 ≡ ok minted → OfChild before minted (m w).1.spawned
  unfolding pure
  renewal-ok tmpdir binary context before w minted p h =
      let (result, has_run, runs) = bind-runs _ _ w minted h in
      let h1 = sym (ap (λ x. x.0) runs) ∙ h in
      let (_, checked, h2) = bind-ok _ _ _ minted h1 in
      let (bytes, has_read, h3) = bind-ok _ _ _ minted h2 in
      let (_, filled, h4) = bind-ok _ _ _ minted h3 in
      let (info, parsed, h5) = bind-ok _ _ _ minted h4 in
      let run = run_subprocess-ok env tmpdir _ _ _ w result has_run in
      let (code, same) = check_renewal-ok result _ checked in
      let (full, quiet) =
        if-ok (is_empty bytes) _ (pure tt) _ tt AlwaysRaises-empty_renewal filled in
      (
        tmpdir,
        run.found,
        IsWritten-read env _ tmpdir result w.spawned _ _ bytes run code same full _ info minted
            has_read (ap (λ x. x.1) quiet) parsed (ok-injective h5),
        ap (λ x. x.1.spawned) runs
            ∙ (ap Visible.spawned ((IsQuiet-renewal_output env tmpdir result).same _)
                ∙ run.children
                ∙ ap (λ b. child_of (renew_call env settings tmpdir) run.found ∷ b) p),
      )

  Leads-renew_child :
      (ccache : Bytes) (before : List Spawned) (tmpdir : Text)
      → Leads children
          (λ b. b ≡ before)
          (renew_in env settings ccache tmpdir)
          (OfChild before)
          (λ b. Unit)
  unfolding renew_in
  Leads-renew_child ccache before tmpdir =
      Leads-bind _ _ (Leads-childless before _ (IsChildless-write_file env tmpdir _ ccache)) (λ _.
        Leads-bind _ _ (Leads-childless before _ (IsChildless-chmod_file env tmpdir _ _)) (λ _.
          Leads-bind _ _
            (Leads-childless before _ (IsChildless-IsQuiet _ (IsQuiet-read_ccache env tmpdir _)))
            (λ _. Leads-returns _ (λ w minted p h. renewal-ok tmpdir _ _ before w minted p h))))

  Leads-renew_once :
      (ccache : Bytes) (before : List Spawned)
      → Leads children
          (λ b. b ≡ before)
          (renew_ticket env settings ccache)
          (OfChild before)
          (λ b. Unit)
  unfolding renew_ticket make_root
  Leads-renew_once ccache before =
      Leads-bind _ _ (Leads-childless before _ (IsChildless-IsQuiet _ (IsQuiet-disk_access env)))
        (λ _. Leads-in_tmpdir before env _ _ (λ dir. Leads-renew_child ccache before dir))

  pub renew_ticket-IsRenewed :
      (ccache : Bytes) (w : World) (minted : MintedTicket)
      → (renew_ticket env settings ccache w).0 ≡ ok minted
      → IsRenewed ccache minted
  renew_ticket-IsRenewed ccache w minted h =
      let (tmpdir, found, written, only) =
        returns-Leads _ (Leads-renew_once ccache w.spawned) w minted refl h in
      let k = renew_ticket-IsSpawned env settings ccache w in
      let (dir, same_call, same_found) = Started-only _ _ _ _ k.children only in
      (dir, IsWritten-at env same_call same_found minted written)
