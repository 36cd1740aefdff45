-- ===== src/Minting/Tickets/Rooms.antt =====
-- The run of kinit in its private directory: what it is given and what it finds there.
use krb5_token_service.Prelude.{
  ℕ, ◌≡◌, refl, ap, ◌∙◌, Bool, not, Option, none, some, [], ◌∷◌, Text, codes, text_eq,
}
use krb5_token_service.Prelude.Dict
use krb5_token_service.Python.Utf8.{Bytes}
use krb5_token_service.World.{World, Files, Spawned, Outside}
use krb5_token_service.Exec.{finally, ◌>>◌}
use krb5_token_service.Exec.Triples.{
  Leads, Leads-pure, Leads-weaken, Leads-bind, Leads-finally, Leads-gets, Leads-known,
}
use krb5_token_service.Settings.{Settings}
use krb5_token_service.System.{write_file, chmod_file, read_buffer, get_buffer, with_tmpdir}
use krb5_token_service.System.Rooms.Steps.{
  Leads-with_tmpdir, Leads-after, Leads-write_file, Leads-chmod_file,
}
use krb5_token_service.System.Rooms.{Left-zero_buffer}
use krb5_token_service.System.Rooms.{Visible, visible, Room, Done, Left}
use krb5_token_service.Minting.Tickets.Quiet.{IsQuiet-kinit_output}
use krb5_token_service.Minting.Child.Rooms.{Leads-run_subprocess}
use krb5_token_service.Minting.Tickets.{
  mint_in, run_kinit, write_keytab, zero_secrets, read_stdin, kinit_call, is_none,
}

-- The keytab in the directory, for its owner only.
abbrev pub keytab_file : Bytes → Files
keytab_file content = (codes "keytab", record { content = content; mode = 0o600 }) ∷ []

module _ (env : Outside) (settings : Settings) (username lifetime renewable : Text) where
  -- kinit, on the arguments for the request, with this input and these files in its directory.
  abbrev pub IsKinit : Bool → Option Bytes → Files → Spawned → Type 0
  IsKinit by_keytab stdin found s =
      (dir : Text) × (s.call
        ≡ kinit_call env settings username lifetime renewable by_keytab dir stdin)
      × (s.found ≡ found)

  Leads-mint_in :
      (keytab sid : Option ℕ) (stdin : Option Bytes) (found : Files) (v : Visible) (dir : Text)
      → let Is = IsKinit (not (is_none keytab)) stdin found in
        Leads visible
          (Room v v.spawned dir [])
          (write_keytab env dir keytab)
          (λ _. Room v v.spawned dir found)
          (Done Is v dir)
        → Leads visible
            (Room v v.spawned dir found)
            (read_stdin sid)
            (λ o b. Room v v.spawned dir found b × (o ≡ stdin))
            (Done Is v dir)
        → Leads visible
            (Room v v.spawned dir [])
            (mint_in env settings username lifetime renewable keytab sid dir)
            (λ _. Done Is v dir)
            (Done Is v dir)
  unfolding mint_in run_kinit
  Leads-mint_in keytab sid stdin found v dir writes reads =
      let Is = IsKinit (not (is_none keytab)) stdin found in
      Leads-bind _ _ writes (λ _. Leads-bind _ _ reads (λ o.
        Leads-known (run_kinit env settings username lifetime renewable (not (is_none keytab)) dir)
          o stdin
          (Leads-bind {Q = λ _. Done Is v dir} _ _
            (Leads-run_subprocess env Is v dir _ _ _ found (dir, refl, refl))
            (λ result.
              Leads-after env Is v dir _
                (IsQuiet-kinit_output env username (not (is_none keytab)) dir result)))))

  module _ (Is : Spawned → Type 0) (v : Visible) (dir : Text) where
    pub Leads-no_keytab :
        Leads visible
          (Room v v.spawned dir [])
          (write_keytab env dir none)
          (λ _. Room v v.spawned dir [])
          (Done Is v dir)
    unfolding write_keytab
    Leads-no_keytab = Leads-pure _ (λ b p. p)

    pub Leads-write_keytab :
        (keytab : ℕ)
        → Leads visible
            (Room v v.spawned dir [])
            (write_keytab env dir (some keytab))
            (λ _. Room v v.spawned dir (keytab_file (get_buffer keytab v.buffers)))
            (Done Is v dir)
    unfolding write_keytab read_buffer Dict.insert Dict.lookup text_eq
    Leads-write_keytab keytab =
        Leads-bind _ _ (Leads-gets _ (λ b. get_buffer keytab b.buffers) (λ w. refl)) (λ content.
          Leads-weaken _ (λ b (k, e). (k, e ∙ rw k.buffers refl)) (λ a b p. p) (λ b p. p)
            (Leads-known
              (λ c.
                write_file env dir (codes "keytab") c >> chmod_file env dir (codes "keytab") 0o600)
              content (get_buffer keytab v.buffers)
              (Leads-bind _ _
                (Leads-write_file env Is v dir [] (codes "keytab") (get_buffer keytab v.buffers))
                (λ _. Leads-chmod_file env Is v dir _ (codes "keytab") 0o600 _ refl))))

    pub Leads-read_stdin :
        (sid : ℕ) (found : Files)
        → Leads visible
            (Room v v.spawned dir found)
            (read_stdin (some sid))
            (λ o b. Room v v.spawned dir found b × (o ≡ some (get_buffer sid v.buffers)))
            (Done Is v dir)
    unfolding read_stdin read_buffer
    Leads-read_stdin sid found =
        Leads-bind _ _ (Leads-gets _ (λ b. get_buffer sid b.buffers) (λ w. refl))
          (λ content. Leads-pure _ (λ b (k, e). (k, ap some (e ∙ rw k.buffers refl))))

    pub Leads-no_stdin :
        (found : Files)
        → Leads visible
            (Room v v.spawned dir found)
            (read_stdin none)
            (λ o b. Room v v.spawned dir found b × (o ≡ none))
            (Done Is v dir)
    unfolding read_stdin
    Leads-no_stdin found = Leads-pure _ (λ b k. (k, refl))

  Left-zero_secrets :
      (Is : Spawned → Type 0) (v : Visible) (stdin password keytab : Option ℕ) (w : World)
      → Left Is v (visible w)
      → Left Is v (visible (zero_secrets stdin password keytab w))
  unfolding zero_secrets
  Left-zero_secrets Is v stdin password keytab w k =
      Left-zero_buffer Is v keytab _
        (Left-zero_buffer Is v password _ (Left-zero_buffer Is v stdin w k))

  pub Leads-mint_for :
      (password keytab sid : Option ℕ) (stdin : Option Bytes) (found : Files) (v : Visible)
      → let Is = IsKinit (not (is_none keytab)) stdin found in
        ((dir : Text)
          → Leads visible
              (Room v v.spawned dir [])
              (write_keytab env dir keytab)
              (λ _. Room v v.spawned dir found)
              (Done Is v dir))
        → ((dir : Text)
            → Leads visible
                (Room v v.spawned dir found)
                (read_stdin sid)
                (λ o b. Room v v.spawned dir found b × (o ≡ stdin))
                (Done Is v dir))
        → Leads visible
            (λ b. b ≡ v)
            (finally
              (with_tmpdir env settings.ccache_tmp_root
                (mint_in env settings username lifetime renewable keytab sid))
              (zero_secrets sid password keytab))
            (λ _. Left Is v)
            (Left Is v)
  Leads-mint_for password keytab sid stdin found v writes reads =
      let Is = IsKinit (not (is_none keytab)) stdin found in
      Leads-finally _ _
        (Leads-with_tmpdir env Is v _ _
          (λ dir. Leads-mint_in keytab sid stdin found v dir (writes dir) (reads dir)))
        (λ a w. Left-zero_secrets Is v sid password keytab w)
        (λ w. Left-zero_secrets Is v sid password keytab w)
