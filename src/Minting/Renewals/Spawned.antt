-- ===== src/Minting/Renewals/Spawned.antt =====
-- The child that a renewal starts, and what is left of its private directory.
use krb5_token_service.Prelude.{
  ◌≡◌, refl, Option, none, some, [], ◌∷◌, Text, codes, text_eq, is_empty, if◌then◌else◌,
}
use krb5_token_service.Prelude.Dict
use krb5_token_service.Python.Utf8.{Bytes}
use krb5_token_service.Errors.{Failure}
use krb5_token_service.World.{World, Files, Spawned, Outside}
use krb5_token_service.Settings.{Settings}
use krb5_token_service.Exec.{pure, ◌>>=◌, ◌>>◌}
use krb5_token_service.Minting.Child.{read_ccache}
use krb5_token_service.Minting.Tickets.{minted_ticket}
use krb5_token_service.Exec.Keeps.{Keeps-pure, Keeps-raise, Keeps-bind, Keeps-if}
use krb5_token_service.Exec.Triples.{Leads, Leads-Keeps, Leads-weaken, Leads-bind, Leads-both}
use krb5_token_service.System.{CompletedProcess, make_root, read_file}
use krb5_token_service.System.Rooms.{
  Visible, visible, IsQuiet, IsQuiet-emit, IsQuiet-disk_access, IsQuiet-read_file, Room, Done, Left,
  Left-here,
}
use krb5_token_service.System.Rooms.Steps.{
  Leads-with_tmpdir, Leads-quiet, Leads-after, Leads-write_file, Leads-chmod_file,
}
use krb5_token_service.Minting.Child.Rooms.{IsQuiet-read_ccache, Leads-run_subprocess}
use krb5_token_service.Minting.Renewals.{
  renew_ticket, renew_in, renew_call, check_renewal, renew_failure, empty_renewal,
}

IsQuiet-renew_failure :
    {A : Type 0} (result : CompletedProcess) (classified : Option Failure)
    → IsQuiet (renew_failure {A = A} result classified)
unfolding renew_failure
IsQuiet-renew_failure result (some f) = Keeps-raise _ tt
IsQuiet-renew_failure result none = Keeps-bind _ _ (IsQuiet-emit _) (λ _. Keeps-raise _ tt)

IsQuiet-check_renewal : (result : CompletedProcess) → IsQuiet (check_renewal result)
unfolding check_renewal
IsQuiet-check_renewal result = Keeps-if _ _ _ (IsQuiet-renew_failure result _) (Keeps-pure tt)

IsQuiet-empty_renewal : {A : Type 0} → IsQuiet (empty_renewal {A = A})
unfolding empty_renewal
IsQuiet-empty_renewal = Keeps-bind _ _ (IsQuiet-emit _) (λ _. Keeps-raise _ tt)

-- All that follows the run of kinit -R.
pub IsQuiet-renewal_output :
    (env : Outside) (tmpdir : Text) (result : CompletedProcess)
    → IsQuiet (do
      check_renewal result
      renewed_bytes ← read_file env tmpdir (codes "ccache")
      if is_empty renewed_bytes then empty_renewal else pure tt
      info ← read_ccache env tmpdir (codes "ccache")
      pure (minted_ticket renewed_bytes info))
IsQuiet-renewal_output env tmpdir result = Keeps-bind _ _ (IsQuiet-check_renewal result) (λ _.
    Keeps-bind _ _ (IsQuiet-read_file env _ _) (λ bytes.
      Keeps-bind _ _ (Keeps-if _ _ _ IsQuiet-empty_renewal (Keeps-pure tt))
        (λ _. Keeps-bind _ _ (IsQuiet-read_ccache env _ _) (λ _. Keeps-pure _))))

-- The ccache in the directory, for its owner only.
abbrev pub ccache_file : Bytes → Files
ccache_file content = (codes "ccache", record { content = content; mode = 0o600 }) ∷ []

module _ (env : Outside) (settings : Settings) (ccache : Bytes) where
  -- kinit -R, without input, on a directory with nothing but the ccache.
  abbrev pub IsRenewal : Spawned → Type 0
  IsRenewal s =
      (dir : Text) × (s.call ≡ renew_call env settings dir) × (s.found ≡ ccache_file ccache)

  Leads-renew_in :
      (v : Visible) (dir : Text)
      → Leads visible
          (Room v v.spawned dir [])
          (renew_in env settings ccache dir)
          (λ _. Done IsRenewal v dir)
          (Done IsRenewal v dir)
  unfolding renew_in Dict.insert Dict.lookup text_eq
  Leads-renew_in v dir =
      Leads-bind _ _ (Leads-write_file env IsRenewal v dir [] (codes "ccache") ccache) (λ _.
        Leads-bind _ _ (Leads-chmod_file env IsRenewal v dir _ (codes "ccache") 0o600 _ refl) (λ _.
          Leads-bind _ _ (Leads-quiet env IsRenewal v dir _ (IsQuiet-read_ccache env _ _)) (λ _.
            Leads-bind {Q = λ _. Done IsRenewal v dir} _ _
              (Leads-run_subprocess env IsRenewal v dir _ _ _ (ccache_file ccache)
                (dir, refl, refl))
              (λ result.
                Leads-after env IsRenewal v dir _ (IsQuiet-renewal_output env dir result)))))

  Leads-renew_ticket :
      (v : Visible)
      → Leads visible
          (λ b. b ≡ v)
          (renew_ticket env settings ccache)
          (λ _. Left IsRenewal v)
          (Left IsRenewal v)
  unfolding renew_ticket make_root
  Leads-renew_ticket v =
      Leads-bind _ _
        (Leads-weaken _ (λ b p. p) (λ a b p. p) (Left-here IsRenewal v)
          (Leads-Keeps _ (IsQuiet-disk_access env)))
        (λ _. Leads-with_tmpdir env IsRenewal v _ _ (λ dir. Leads-renew_in v dir))

  -- However `renew_ticket` ends: it has started at most one child, and that is kinit -R with no input,
  -- in a directory that held nothing but the given ccache, with a mode of 0600. And no temporary
  -- directory is there that was not there before, nor has any other content.
  pub renew_ticket-IsSpawned :
      (w : World) → Left IsRenewal (visible w) (visible (renew_ticket env settings ccache w).1)
  renew_ticket-IsSpawned w = Leads-both _ (Leads-renew_ticket (visible w)) w refl
