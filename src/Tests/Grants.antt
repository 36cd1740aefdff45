-- ===== src/Tests/Grants.antt =====
-- What is known of the answers of the handlers, at concrete requests.
use krb5_token_service.Prelude.{Text, refl, some, none, [], ◌∷◌, ◌++◌, codes}
use krb5_token_service.World.{World, Claims, Outside, completed, exited}
use krb5_token_service.Settings.{default_settings}
use krb5_token_service.Exec.Keeps.{Fails}
use krb5_token_service.System.Rooms.{visible}
use krb5_token_service.Identity.Accepted.{IsVerified, verify_broker_token-IsVerified}
use krb5_token_service.Minting.Tickets.{mint_ticket}
use krb5_token_service.Minting.Tickets.Spawned.{IsSpawned, mint_ticket-IsSpawned}
use krb5_token_service.System.{get_buffer}
use krb5_token_service.System.Rooms.{Left}
use krb5_token_service.Minting.Classify.{
  classify_password_stderr, classify_keytab_stderr, classify_renew_stderr,
  classify_cern_get_keytab_stderr,
}
use krb5_token_service.Minting.Classify.Ordered.{
  Classified, password_table, keytab_table, renew_table, cern_get_keytab_table, classify-Classified,
}
use krb5_token_service.Minting.Keytabs.{mint_keytab}
use krb5_token_service.Minting.Keytabs.Spawned.{IsCernGetKeytab, mint_keytab-IsSpawned}
use krb5_token_service.Minting.Renewals.{renew_ticket}
use krb5_token_service.Minting.Renewals.Spawned.{IsRenewal, renew_ticket-IsSpawned}
use krb5_token_service.App.Renew.Granted as Renewal
use krb5_token_service.App.Renew.Granted.{renew-IsGranted}
use krb5_token_service.App.Keytab.Granted as Bootstrap
use krb5_token_service.App.Keytab.Granted.{keytab-IsGranted}
use krb5_token_service.App.Requests.{MintResponse, KeytabResponse}
use krb5_token_service.App.Common.Replies.{IsReply}
use krb5_token_service.App.Mint.{mint}
use krb5_token_service.App.Mint.Granted.{IsGranted, mint-IsGranted}
use krb5_token_service.App.Mint.Replies.{IsMintReply}
use krb5_token_service.App.Renew.{renew}
use krb5_token_service.App.Renew.Replies.{IsRenewReply}
use krb5_token_service.App.Keytab.{keytab}
use krb5_token_service.App.Keytab.Replies.{IsKeytabReply}
use krb5_token_service.App.Refusals.{refusals-IsReply}
use krb5_token_service.App.Health.{create_app}
use krb5_token_service.Tests.Running.{running}
use krb5_token_service.Tests.Sample.{outside, request, by_password, for_keytab, file}

abbrev ready : World
ready = create_app default_settings

abbrev claims : Claims
claims = record { sub = codes "user"; jti = some (codes "j1") }

verify_broker_token-IsVerified_example :
    IsVerified outside default_settings ready (codes "good") claims
unfolding running
verify_broker_token-IsVerified_example =
    verify_broker_token-IsVerified outside default_settings (codes "good") ready claims refl

-- The answer to the sample request.
abbrev granted : MintResponse
granted = record {
  ccache_b64 = codes "Q0M=";
  principal = codes "gstark@CERN.CH";
  realm = codes "CERN.CH";
  expires_at = codes "2024-02-29T12:34:56+00:00";
  renew_until = some (codes "2024-03-07T12:34:56+00:00");
}

mint-IsGranted_example :
    IsGranted outside default_settings (by_password (codes "secret")) ready request granted
unfolding running
mint-IsGranted_example =
    mint-IsGranted outside default_settings (by_password (codes "secret")) request ready granted
      refl

refusals-IsReply_example :
    Fails
      (IsReply (IsMintReply outside default_settings))
      (mint outside default_settings (by_password (codes "wrong")) request ready).0
    × Fails
        (IsReply (IsRenewReply outside default_settings))
        (renew outside default_settings (record { ccache_b64 = codes "?" }) request ready).0
    × Fails
        (IsReply (IsKeytabReply outside default_settings))
        (keytab outside default_settings for_keytab request ready).0
refusals-IsReply_example =
    refusals-IsReply outside default_settings (by_password (codes "wrong"))
      (record { ccache_b64 = codes "?" }) for_keytab request ready

mint_ticket-IsSpawned_example :
    let w = record ready { buffers = codes "secret" ∷ [] } in
    IsSpawned outside default_settings
      (codes "gstark")
      (codes "24h")
      (codes "7d")
      (some 0)
      none
      (visible w)
      (visible
        (mint_ticket outside default_settings
          (codes "gstark")
          (codes "24h")
          (codes "7d")
          (some 0)
          none
          w).1)
mint_ticket-IsSpawned_example =
    mint_ticket-IsSpawned outside default_settings (codes "gstark") (codes "24h") (codes "7d")
      (some 0) none (record ready { buffers = codes "secret" ∷ [] })

abbrev stderr : Text
stderr = codes "kinit: Password incorrect while getting initial credentials"

classify-Classified_example :
    Classified stderr (classify_password_stderr stderr) password_table
    × Classified stderr (classify_keytab_stderr stderr) keytab_table
    × Classified stderr (classify_renew_stderr stderr) renew_table
    × Classified stderr (classify_cern_get_keytab_stderr stderr) cern_get_keytab_table
classify-Classified_example = classify-Classified stderr

mint_keytab-IsSpawned_example :
    let w = record ready { buffers = codes "secret" ∷ [] } in
    Left
      (IsCernGetKeytab outside default_settings
        (codes "gstark")
        (get_buffer 0 w.buffers ++ 10 ∷ []))
      (visible w)
      (visible (mint_keytab outside default_settings (codes "gstark") 0 w).1)
mint_keytab-IsSpawned_example =
    mint_keytab-IsSpawned outside default_settings (codes "gstark") 0
      (record ready { buffers = codes "secret" ∷ [] })

renew_ticket-IsSpawned_example :
    Left
      (IsRenewal outside default_settings (codes "CC"))
      (visible ready)
      (visible (renew_ticket outside default_settings (codes "CC") ready).1)
renew_ticket-IsSpawned_example = renew_ticket-IsSpawned outside default_settings (codes "CC") ready

renew-IsGranted_example :
    Renewal.IsGranted outside default_settings
      (record { ccache_b64 = codes "Q0M=" })
      ready
      request
      granted
unfolding running
renew-IsGranted_example =
    renew-IsGranted outside default_settings (record { ccache_b64 = codes "Q0M=" }) request ready
      granted refl

-- An outside where cern-get-keytab writes a keytab.
abbrev with_keytab : Outside
with_keytab = record outside {
  child = λ n call found. completed (exited 0) [] ((codes "keytab", file (codes "KT")) ∷ []);
}

abbrev bootstrapped : KeytabResponse
bootstrapped = record { keytab_b64 = codes "S1Q="; principal = codes "gstark@CERN.CH" }

keytab-IsGranted_example :
    Bootstrap.IsGranted with_keytab default_settings for_keytab ready request bootstrapped
unfolding running
keytab-IsGranted_example =
    keytab-IsGranted with_keytab default_settings for_keytab request ready bootstrapped refl
