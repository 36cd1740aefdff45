-- ===== src/Minting/Tickets/Secrets.antt =====
-- `mint_ticket` overwrites the secrets that it is given, and its copy of the password.
use krb5_token_service.Prelude.{ℕ, ◌≡◌, ◌≢◌, refl, false, Option, none, some, length, Text}
use krb5_token_service.World.{World, Outside}
use krb5_token_service.Settings.{Settings}
use krb5_token_service.Exec.{pure, finally, ◌>>=◌}
use krb5_token_service.System.{
  disk_access, next_tick, make_root, read_buffer, new_buffer, extend_buffer,
}
use krb5_token_service.Exec.{modify, gets}
use krb5_token_service.System.Zeroed.{Zeroed, Zeroed-zero_buffer, Zeroed-zero_other}
use krb5_token_service.Minting.Tickets.{
  mint_ticket, mint_checked, prepare_stdin, zero_secrets, is_none,
}

Zeroed-zero_secrets :
    (stdin password keytab : Option ℕ) (w : World)
    → let w' = zero_secrets stdin password keytab w in
      Zeroed stdin w' × Zeroed password w' × Zeroed keytab w'
unfolding zero_secrets
Zeroed-zero_secrets stdin password keytab w = (
  Zeroed-zero_other stdin keytab _
      (Zeroed-zero_other stdin password _ (Zeroed-zero_buffer stdin w)),
  Zeroed-zero_other password keytab _ (Zeroed-zero_buffer password _),
  Zeroed-zero_buffer keytab _,
)

-- The copy of the password, the newest buffer, where a password is given.
abbrev pub stdin_of : Option ℕ → World → Option ℕ
stdin_of none w = none
stdin_of (some i) w = some (length w.buffers)

module _ (env : Outside) (settings : Settings) (username lifetime renewable : Text) where
  Zeroed-mint_checked :
      (password keytab : Option ℕ) (w : World)
      → env.disk_fails w.ticks ≡ false
      → let w' = (mint_checked env settings username lifetime renewable password keytab w).1 in
        Zeroed (stdin_of password w) w' × Zeroed password w' × Zeroed keytab w'
  unfolding mint_checked prepare_stdin make_root disk_access next_tick ◌>>=◌ pure finally
      read_buffer new_buffer extend_buffer modify gets
  Zeroed-mint_checked none keytab w h = rw h (Zeroed-zero_secrets none none keytab _)
  Zeroed-mint_checked (some p) keytab w h =
      rw h (Zeroed-zero_secrets (some (length w.buffers)) (some p) keytab _)

  -- With exactly one of a password and a keytab, and where the directory for the ccaches can be made:
  -- whatever else happens, and whether the mint succeeds or raises, every byte of the password's
  -- buffer, of the copy that is made of it for kinit, and of the keytab's buffer is 0 at the end.
  pub Zeroed-mint_ticket :
      (password keytab : Option ℕ) (w : World)
      → is_none password ≢ is_none keytab
      → env.disk_fails w.ticks ≡ false
      → let w' = (mint_ticket env settings username lifetime renewable password keytab w).1 in
        Zeroed (stdin_of password w) w' × Zeroed password w' × Zeroed keytab w'
  unfolding mint_ticket
  Zeroed-mint_ticket none none w h k = absurd (h refl)
  Zeroed-mint_ticket none (some t) w h k = Zeroed-mint_checked none (some t) w k
  Zeroed-mint_ticket (some p) none w h k = Zeroed-mint_checked (some p) none w k
  Zeroed-mint_ticket (some p) (some t) w h k = absurd (h refl)
