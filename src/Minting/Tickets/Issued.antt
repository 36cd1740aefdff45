-- ===== src/Minting/Tickets/Issued.antt =====
-- A mint that succeeds gives out what kinit wrote.
use krb5_token_service.Prelude.{
  refl, sym, subst, List, ◌∷◌, ◌≡◌, ap, ◌∙◌, Bool, not, Option, none, some, ℕ, Text, codes,
  is_empty,
}
use krb5_token_service.Python.Utf8.{Bytes}
use krb5_token_service.Errors.{ok}
use krb5_token_service.World.{World, Files, Spawned, Outside}
use krb5_token_service.Settings.{Settings}
use krb5_token_service.Exec.{raise, pure}
use krb5_token_service.Exec.Returns.{bind-ok, bind-runs, catch-ok, if-ok}
use krb5_token_service.System.{read_file, read_buffer, make_root}
use krb5_token_service.System.Returns.{child_of}
use krb5_token_service.System.Rooms.{Visible, visible, IsQuiet-disk_access}
use krb5_token_service.System.Childless.{
  children, IsChildless, IsChildless-IsQuiet, IsChildless-new_buffer, IsChildless-extend_buffer,
  children-zero_buffer, IsChildless-write_file, IsChildless-chmod_file, Started-only,
  Leads-childless, Leads-in_tmpdir,
}
use krb5_token_service.Exec.Keeps.{Keeps-pure, Keeps-gets, Keeps-bind}
use krb5_token_service.Exec.Triples.{Leads, Leads-bind, Leads-finally, Leads-returns, returns-Leads}
use krb5_token_service.Minting.Tickets.Quiet.{IsQuiet-kinit_output}
use krb5_token_service.Minting.Tickets.Spawned.{
  input_of, found_of, IsSpawned, mint_ticket-IsSpawned,
}
use krb5_token_service.Minting.Child.Returns.{run_subprocess-ok, ok-injective}
use krb5_token_service.Minting.Tickets.Raises.{
  AlwaysRaises-no_output, AlwaysRaises-empty_output, check_kinit-ok,
}
use krb5_token_service.Minting.Written.{IsWritten, IsWritten-read, IsWritten-at}
use krb5_token_service.Minting.Tickets.{
  MintedTicket, mint_ticket, mint_checked, mint_in, run_kinit, kinit_call, is_none, write_keytab,
  zero_secrets, read_stdin, prepare_stdin,
}

IsChildless-read_stdin : (stdin : Option ℕ) → IsChildless (read_stdin stdin)
unfolding read_stdin read_buffer
IsChildless-read_stdin none = Keeps-pure none
IsChildless-read_stdin (some i) = Keeps-bind _ _ (Keeps-gets _) (λ c. Keeps-pure _)

IsChildless-prepare_stdin : (password : Option ℕ) → IsChildless (prepare_stdin password)
unfolding prepare_stdin read_buffer
IsChildless-prepare_stdin none = Keeps-pure none
IsChildless-prepare_stdin (some p) = Keeps-bind _ _ (Keeps-gets _) (λ c.
    Keeps-bind _ _ (IsChildless-new_buffer c)
      (λ i. Keeps-bind _ _ (IsChildless-extend_buffer i _) (λ _. Keeps-pure _)))

children-zero_secrets :
    (stdin password keytab : Option ℕ) (w : World)
    → children (zero_secrets stdin password keytab w) ≡ children w
unfolding zero_secrets
children-zero_secrets stdin password keytab w =
    children-zero_buffer keytab _ ∙ children-zero_buffer password _ ∙ children-zero_buffer stdin w

IsChildless-write_keytab :
    (env : Outside) (dir : Text) (keytab : Option ℕ) → IsChildless (write_keytab env dir keytab)
unfolding write_keytab read_buffer
IsChildless-write_keytab env dir none = Keeps-pure tt
IsChildless-write_keytab env dir (some k) = Keeps-bind _ _ (Keeps-gets _) (λ c.
    Keeps-bind _ _ (IsChildless-write_file env dir _ c) (λ _. IsChildless-chmod_file env dir _ _))

module _ (env : Outside) (settings : Settings) (username lifetime renewable : Text) where
  -- The ticket is what kinit has written in a private directory: with the password's buffer and a
  -- newline as its input where there is a password, and with the keytab's buffer as its only file where
  -- there is a keytab.
  abbrev pub IsIssued : Option ℕ → Option ℕ → Visible → MintedTicket → Type 0
  IsIssued password keytab v minted =
      (tmpdir : Text) × IsWritten env
        (kinit_call env settings username lifetime renewable (not (is_none keytab)) tmpdir
          (input_of password v))
        (found_of keytab v) minted

  -- The ticket is what the only child that has started since has written.
  abbrev OfChild : Bool → List Spawned → MintedTicket → List Spawned → Type 0
  OfChild by_keytab before minted after =
      (tmpdir : Text) × (stdin : Option Bytes) × (found : Files) × IsWritten env
        (kinit_call env settings username lifetime renewable by_keytab tmpdir stdin) found minted
      × (after
          ≡ child_of (kinit_call env settings username lifetime renewable by_keytab tmpdir stdin)
              found
            ∷ before)

  run_kinit-ok :
      (by_keytab : Bool) (tmpdir : Text) (stdin : Option Bytes) (w : World) (minted : MintedTicket)
      → (run_kinit env settings username lifetime renewable by_keytab tmpdir stdin w).0 ≡ ok minted
      → OfChild by_keytab w.spawned minted
          (run_kinit env settings username lifetime renewable by_keytab tmpdir stdin w).1.spawned
  unfolding run_kinit pure
  run_kinit-ok by_keytab tmpdir stdin w minted h =
      let (result, has_run, runs) = bind-runs _ _ w minted h in
      let h1 = sym (ap (λ x. x.0) runs) ∙ h in
      let (_, checked, h2) = bind-ok _ _ _ minted h1 in
      let (bytes, has_read, h3) = bind-ok _ _ _ minted h2 in
      let (_, filled, h4) = bind-ok _ _ _ minted h3 in
      let (info, parsed, h5) = bind-ok _ _ _ minted h4 in
      let run = run_subprocess-ok env tmpdir _ _ _ w result has_run in
      let (code, same) = check_kinit-ok by_keytab username result _ checked in
      let (read, same_read) =
        catch-ok (read_file env tmpdir (codes "ccache")) _ _ bytes (AlwaysRaises-no_output username)
          has_read in
      let (full, quiet) =
        if-ok (is_empty bytes) _ (pure tt) _ tt (AlwaysRaises-empty_output username) filled in
      (
        tmpdir,
        stdin,
        run.found,
        IsWritten-read env _ tmpdir result w.spawned _ _ bytes run code same full _ info minted read
            (ap (λ x. x.1) quiet ∙ same_read) parsed (ok-injective h5),
        ap (λ x. x.1.spawned) runs
            ∙ (ap Visible.spawned
                  ((IsQuiet-kinit_output env username by_keytab tmpdir result).same _)
                ∙ run.children),
      )

  Leads-mint_child :
      (keytab sid : Option ℕ) (before : List Spawned) (tmpdir : Text)
      → Leads children
          (λ b. b ≡ before)
          (mint_in env settings username lifetime renewable keytab sid tmpdir)
          (OfChild (not (is_none keytab)) before)
          (λ b. Unit)
  unfolding mint_in
  Leads-mint_child keytab sid before tmpdir =
      let by_keytab = not (is_none keytab) in
      Leads-bind _ _ (Leads-childless before _ (IsChildless-write_keytab env tmpdir keytab)) (λ _.
        Leads-bind _ _ (Leads-childless before _ (IsChildless-read_stdin sid)) (λ stdin.
          Leads-returns _ (λ w minted p h.
            subst
              (λ b.
                OfChild by_keytab b minted
                  (run_kinit env settings username lifetime renewable by_keytab tmpdir stdin
                    w).1.spawned)
              p (run_kinit-ok by_keytab tmpdir stdin w minted h))))

  Leads-mint_once :
      (password keytab : Option ℕ) (before : List Spawned)
      → Leads children
          (λ b. b ≡ before)
          (mint_checked env settings username lifetime renewable password keytab)
          (OfChild (not (is_none keytab)) before)
          (λ b. Unit)
  unfolding mint_checked make_root
  Leads-mint_once password keytab before =
      Leads-bind _ _ (Leads-childless before _ (IsChildless-IsQuiet _ (IsQuiet-disk_access env)))
        (λ _. Leads-bind _ _ (Leads-childless before _ (IsChildless-prepare_stdin password)) (λ sid.
          Leads-finally _ _
            (Leads-in_tmpdir before env _ _ (λ dir. Leads-mint_child keytab sid before dir))
            (λ minted w q.
              subst (OfChild (not (is_none keytab)) before minted)
                (sym (children-zero_secrets sid password keytab w)) q)
            (λ w q. q)))

  mint_once-IsIssued :
      (password keytab : Option ℕ) (w : World) (minted : MintedTicket)
      → (mint_checked env settings username lifetime renewable password keytab w).0 ≡ ok minted
      → IsSpawned env settings username lifetime renewable password keytab
          (visible w)
          (visible (mint_checked env settings username lifetime renewable password keytab w).1)
      → IsIssued password keytab (visible w) minted
  mint_once-IsIssued password keytab w minted h k =
      let (_, _, found, written, only) =
        returns-Leads _ (Leads-mint_once password keytab w.spawned) w minted refl h in
      let (dir, same_call, same_found) = Started-only _ _ _ _ k.children only in
      (dir, IsWritten-at env same_call same_found minted written)

  -- A mint that succeeds gives out what kinit wrote: kinit was run on the arguments for the request,
  -- with the password and a newline as its input where there is a password and no input otherwise, and
  -- in a directory that held nothing but the keytab, where there is one; it ended with return code 0
  -- and left a file `ccache` that is not empty, and the ticket is the content of that file with the
  -- principal, the realm and the times that are read from it.
  pub mint_ticket-IsIssued :
      (password keytab : Option ℕ) (w : World) (minted : MintedTicket)
      → (mint_ticket env settings username lifetime renewable password keytab w).0 ≡ ok minted
      → IsIssued password keytab (visible w) minted
  unfolding mint_ticket raise
  mint_ticket-IsIssued none none w minted h = cc
  mint_ticket-IsIssued none (some k) w minted h =
      mint_once-IsIssued none (some k) w minted h
        (mint_ticket-IsSpawned env settings username lifetime renewable none (some k) w)
  mint_ticket-IsIssued (some p) none w minted h =
      mint_once-IsIssued (some p) none w minted h
        (mint_ticket-IsSpawned env settings username lifetime renewable (some p) none w)
  mint_ticket-IsIssued (some p) (some k) w minted h = cc
