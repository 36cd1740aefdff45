-- ===== src/Minting/Keytabs/Secrets.antt =====
-- `mint_keytab` overwrites the password that it is given, and its copy of it.
use krb5_token_service.Prelude.{ℕ, ◌≡◌, false, some, length, Text}
use krb5_token_service.World.{World, Outside}
use krb5_token_service.Settings.{Settings}
use krb5_token_service.Exec.{pure, finally, gets, modify, ◌>>=◌}
use krb5_token_service.System.{
  disk_access, next_tick, make_root, read_buffer, new_buffer, extend_buffer,
}
use krb5_token_service.System.Zeroed.{Zeroed, Zeroed-zero_buffer, Zeroed-zero_other}
use krb5_token_service.Minting.Keytabs.{mint_keytab, zero_password}

Zeroed-zero_password :
    (stdin password : ℕ) (w : World)
    → let w' = zero_password stdin password w in Zeroed (some stdin) w' × Zeroed (some password) w'
unfolding zero_password
Zeroed-zero_password stdin password w = (
  Zeroed-zero_other (some stdin) (some password) _ (Zeroed-zero_buffer (some stdin) w),
  Zeroed-zero_buffer (some password) _,
)

-- Where the directory for the ccaches can be made: whatever else happens, and whether `mint_keytab`
-- succeeds or raises, every byte of the password's buffer and of the copy that is made of it for
-- cern-get-keytab is 0 at the end.
pub Zeroed-mint_keytab :
    (env : Outside) (settings : Settings) (username : Text) (password : ℕ) (w : World)
    → env.disk_fails w.ticks ≡ false
    → let w' = (mint_keytab env settings username password w).1 in
      Zeroed (some (length w.buffers)) w' × Zeroed (some password) w'
unfolding mint_keytab make_root disk_access next_tick ◌>>=◌ pure finally read_buffer new_buffer
    extend_buffer modify gets
Zeroed-mint_keytab env settings username password w h =
    rw h (Zeroed-zero_password (length w.buffers) password _)
