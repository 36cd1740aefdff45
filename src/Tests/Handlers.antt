-- ===== src/Tests/Handlers.antt =====
-- Runs of the handlers.
use krb5_token_service.Prelude.{none, replicate, ℕ, ◌≡◌, refl, some, [], ◌∷◌, codes}
use krb5_token_service.Errors.{Result, ok, raised, http}
use krb5_token_service.World.{World}
use krb5_token_service.Settings.{default_settings}
use krb5_token_service.Minting.Tickets.{MintedTicket}
use krb5_token_service.System.Rooms.{visible}
use krb5_token_service.Minting.Tickets.Issued.{IsIssued, mint_ticket-IsIssued}
use krb5_token_service.App.Mint.{mint}
use krb5_token_service.App.Renew.{renew}
use krb5_token_service.App.Keytab.{keytab}
use krb5_token_service.App.Health.{create_app, readyz}
use krb5_token_service.Tests.Sample.{outside, request, by_password, by_keytab, for_keytab}
use krb5_token_service.Tests.Running.{running}

abbrev status_of : {A : Type 0} → Result A → ℕ
status_of (ok a) = 200
status_of (raised (http e)) = e.status
status_of (raised _) = 500

abbrev ready : World
ready = create_app default_settings

good_run :
    status_of (mint outside default_settings (by_password (codes "secret")) request ready).0 ≡ 200
unfolding running
good_run = refl

bad_run :
    status_of (mint outside default_settings (by_password (codes "wrong")) request ready).0 ≡ 400
unfolding running
bad_run = refl

-- After the run the password and its copy are zeros, the directory is gone, and one line is written.
good_run_buffers :
    (mint outside default_settings (by_password (codes "secret")) request ready).1.buffers
    ≡ replicate 6 0 ∷ replicate 7 0 ∷ []
unfolding running
good_run_buffers = refl

good_run_dirs :
    (mint outside default_settings (by_password (codes "secret")) request ready).1.dirs ≡ []
unfolding running
good_run_dirs = refl

by_keytab_run : status_of (mint outside default_settings by_keytab request ready).0 ≡ 200
unfolding running
by_keytab_run = refl

bad_token_run :
    status_of
      (mint outside default_settings by_keytab
        (record request { token = some (codes "forged") })
        ready).0
    ≡ 401
unfolding running
bad_token_run = refl

keytab_run : status_of (keytab outside default_settings for_keytab request ready).0 ≡ 502
unfolding running
keytab_run = refl

renew_run :
    status_of
      (renew outside default_settings (record { ccache_b64 = codes "Q0M=" }) request ready).0
    ≡ 200
unfolding running
renew_run = refl

readyz_run : status_of (readyz outside default_settings ready).0 ≡ 200
unfolding running
readyz_run = refl

-- The ticket that the sample KDC gives out.
abbrev minted : MintedTicket
minted = record {
  ccache = codes "CC";
  principal = codes "gstark@CERN.CH";
  realm = codes "CERN.CH";
  expires_at = 1709210096;
  renew_until = some 1709814896;
}

mint_ticket-IsIssued_example :
    IsIssued outside default_settings
      (codes "gstark")
      (codes "24h")
      (codes "7d")
      (some 0)
      none
      (visible (record ready { buffers = codes "secret" ∷ [] }))
      minted
unfolding running
mint_ticket-IsIssued_example =
    mint_ticket-IsIssued outside default_settings (codes "gstark") (codes "24h") (codes "7d")
      (some 0) none (record ready { buffers = codes "secret" ∷ [] }) minted refl
