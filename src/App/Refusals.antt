-- ===== src/App/Refusals.antt =====
-- The refusals of the three handlers.
use krb5_token_service.World.{World, Outside}
use krb5_token_service.Settings.{Settings}
use krb5_token_service.Exec.Keeps.{Fails}
use krb5_token_service.App.Requests.{Request, MintRequest, RenewRequest, KeytabRequest}
use krb5_token_service.App.Common.Replies.{IsReply}
use krb5_token_service.App.Mint.{mint}
use krb5_token_service.App.Mint.Replies.{IsMintReply, mint-IsReply}
use krb5_token_service.App.Renew.{renew}
use krb5_token_service.App.Renew.Replies.{IsRenewReply, renew-IsReply}
use krb5_token_service.App.Keytab.{keytab}
use krb5_token_service.App.Keytab.Replies.{IsKeytabReply, keytab-IsReply}

-- Whatever a child writes to its standard error and whatever stands in a ccache or a token: an
-- `HTTPException` that a handler raises is one of those that the settings fix, twelve for a mint, seven
-- for a renewal and six for a bootstrap, or, for a mint or a bootstrap, the limiter's, which has the
-- seconds to wait.
pub refusals-IsReply :
    (env : Outside) (settings : Settings) (to_mint : MintRequest) (to_renew : RenewRequest)
    (to_bootstrap : KeytabRequest) (request : Request) (w : World)
    → Fails (IsReply (IsMintReply env settings)) (mint env settings to_mint request w).0
      × Fails (IsReply (IsRenewReply env settings)) (renew env settings to_renew request w).0
      × Fails (IsReply (IsKeytabReply env settings)) (keytab env settings to_bootstrap request w).0
refusals-IsReply env settings to_mint to_renew to_bootstrap request w = (
  mint-IsReply env settings to_mint request w,
  renew-IsReply env settings to_renew request w,
  keytab-IsReply env settings to_bootstrap request w,
)
