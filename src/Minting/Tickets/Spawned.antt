-- ===== src/Minting/Tickets/Spawned.antt =====
-- The child that a mint starts, and what is left of its private directory.
use krb5_token_service.Prelude.{
  ℕ, ◌≡◌, refl, ap, ◌∙◌, true, false, not, Option, none, some, [], ◌∷◌, ◌++◌, Text, length,
}
use krb5_token_service.Python.Utf8.{Bytes}
use krb5_token_service.World.{World, Files, Spawned, Outside}
use krb5_token_service.Exec.{pure, raise, gets, modify, finally, ◌>>=◌}
use krb5_token_service.Exec.Triples.{
  Leads, Leads-pure, Leads-Keeps, Leads-weaken, Leads-bind, Leads-known, Leads-both,
}
use krb5_token_service.Settings.{Settings}
use krb5_token_service.System.{
  read_buffer, new_buffer, extend_buffer, get_buffer, make_root, with_tmpdir,
}
use krb5_token_service.System.Rooms.{
  Visible, visible, IsQuiet-disk_access, Room, Done, Left, Left-here, get_buffer-last, set-last,
}
use krb5_token_service.Minting.Tickets.{
  mint_ticket, mint_checked, mint_in, write_keytab, zero_secrets, read_stdin, prepare_stdin,
  is_none,
}
use krb5_token_service.Minting.Tickets.Rooms.{
  keytab_file, IsKinit, Leads-mint_for, Leads-no_keytab, Leads-write_keytab, Leads-read_stdin,
  Leads-no_stdin,
}

-- The input of the child, and the files in its directory.
abbrev pub input_of : Option ℕ → Visible → Option Bytes
input_of none v = none
input_of (some password) v = some (get_buffer password v.buffers ++ 10 ∷ [])

abbrev pub found_of : Option ℕ → Visible → Files
found_of none v = []
found_of (some keytab) v = keytab_file (get_buffer keytab v.buffers)

module _ (env : Outside) (settings : Settings) (username lifetime renewable : Text) where
  abbrev pub IsSpawned : Option ℕ → Option ℕ → Visible → Visible → Type 0
  IsSpawned password keytab v =
      Left
        (IsKinit env settings username lifetime renewable (not (is_none keytab))
          (input_of password v) (found_of keytab v))
        v

  Leads-mint_checked :
      (password keytab sid : Option ℕ) (stdin : Option Bytes) (found : Files) (v prepared : Visible)
      → let Is =
          IsKinit env settings username lifetime renewable (not (is_none keytab)) stdin found in
        Leads visible
          (λ b. b ≡ v)
          (prepare_stdin password)
          (λ o b. (b ≡ prepared) × (o ≡ sid))
          (Left Is v)
        → ((dir : Text)
            → Leads visible
                (Room prepared prepared.spawned dir [])
                (write_keytab env dir keytab)
                (λ _. Room prepared prepared.spawned dir found)
                (Done Is prepared dir))
        → ((dir : Text)
            → Leads visible
                (Room prepared prepared.spawned dir found)
                (read_stdin sid)
                (λ o b. Room prepared prepared.spawned dir found b × (o ≡ stdin))
                (Done Is prepared dir))
        → ((b : Visible) → Left Is prepared b → Left Is v b)
        → Leads visible
            (λ b. b ≡ v)
            (mint_checked env settings username lifetime renewable password keytab)
            (λ _. Left Is v)
            (Left Is v)
  unfolding mint_checked make_root
  Leads-mint_checked password keytab sid stdin found v prepared prepares writes reads back =
      let Is =
        IsKinit env settings username lifetime renewable (not (is_none keytab)) stdin found in
      Leads-bind _ _
        (Leads-weaken _ (λ b p. p) (λ a b p. p) (Left-here Is v)
          (Leads-Keeps _ (IsQuiet-disk_access env)))
        (λ _. Leads-bind _ _ prepares (λ o.
          Leads-known
            (λ x.
              finally
                (with_tmpdir env settings.ccache_tmp_root
                  (mint_in env settings username lifetime renewable keytab x))
                (zero_secrets x password keytab))
            o sid
            (Leads-weaken _ (λ b p. p) (λ a. back) back
              (Leads-mint_for env settings username lifetime renewable password keytab sid stdin
                found prepared writes reads))))

  -- The state with a buffer for the password and a newline.
  abbrev with_payload : Visible → ℕ → Visible
  with_payload v password = record v {
    buffers = v.buffers ++ (get_buffer password v.buffers ++ 10 ∷ []) ∷ [];
  }

  Leads-prepare_stdin :
      (Is : Spawned → Type 0) (password : ℕ) (v : Visible)
      → Leads visible
          (λ b. b ≡ v)
          (prepare_stdin (some password))
          (λ o b. (b ≡ with_payload v password) × (o ≡ some (length v.buffers)))
          (Left Is v)
  unfolding prepare_stdin read_buffer new_buffer extend_buffer modify gets ◌>>=◌ pure
  Leads-prepare_stdin Is password v = record {
    at = λ w e. (
      ap (λ bs. record (visible w) { buffers = bs })
            (set-last w.buffers (get_buffer password w.buffers) (10 ∷ []))
          ∙ ap (λ u. with_payload u password) e,
      ap (λ u. some (length (Visible.buffers u))) e,
    );
  }

  Leads-mint_by_keytab :
      (keytab : ℕ) (v : Visible)
      → Leads visible
          (λ b. b ≡ v)
          (mint_checked env settings username lifetime renewable none (some keytab))
          (λ _. IsSpawned none (some keytab) v)
          (IsSpawned none (some keytab) v)
  unfolding prepare_stdin
  Leads-mint_by_keytab keytab v =
      let Is =
        IsKinit env settings username lifetime renewable true none (found_of (some keytab) v) in
      Leads-mint_checked none (some keytab) none none (found_of (some keytab) v) v v
        (Leads-pure _ (λ b p. (p, refl)))
        (λ dir. Leads-write_keytab env settings username lifetime renewable Is v dir keytab)
        (λ dir. Leads-no_stdin env settings username lifetime renewable Is v dir _) (λ b k. k)

  Leads-mint_by_password :
      (password : ℕ) (v : Visible)
      → Leads visible
          (λ b. b ≡ v)
          (mint_checked env settings username lifetime renewable (some password) none)
          (λ _. IsSpawned (some password) none v)
          (IsSpawned (some password) none v)
  Leads-mint_by_password password v =
      let Is =
        IsKinit env settings username lifetime renewable false (input_of (some password) v) [] in
      let v' = with_payload v password in
      Leads-mint_checked (some password) none (some (length v.buffers)) (input_of (some password) v)
        [] v v' (Leads-prepare_stdin Is password v)
        (λ dir. Leads-no_keytab env settings username lifetime renewable Is v' dir)
        (λ dir.
          Leads-weaken _ (λ b p. p) (λ o b (k, e). (k, e ∙ ap some (get_buffer-last v.buffers _)))
            (λ b p. p)
            (Leads-read_stdin env settings username lifetime renewable Is v' dir (length v.buffers)
              []))
        (λ b k. record { children = k.children; old = k.old })

  -- However a mint ends: it has started at most one child, and that is kinit on the arguments for the
  -- request, with the password and a newline as its input where there is a password, and with no input
  -- otherwise; the directory that the child found held nothing but the keytab, where there is one, with
  -- a mode of 0600. And no temporary directory is there that was not there before, nor has any other
  -- content.
  pub mint_ticket-IsSpawned :
      (password keytab : Option ℕ) (w : World)
      → IsSpawned password keytab
          (visible w)
          (visible (mint_ticket env settings username lifetime renewable password keytab w).1)
  unfolding mint_ticket raise
  mint_ticket-IsSpawned none none w = Left-here _ _ _ refl
  mint_ticket-IsSpawned none (some keytab) w =
      Leads-both _ (Leads-mint_by_keytab keytab (visible w)) w refl
  mint_ticket-IsSpawned (some password) none w =
      Leads-both _ (Leads-mint_by_password password (visible w)) w refl
  mint_ticket-IsSpawned (some password) (some keytab) w = Left-here _ _ _ refl
