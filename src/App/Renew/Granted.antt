-- ===== src/App/Renew/Granted.antt =====
-- A renewal that is answered with a ticket.
use krb5_token_service.Prelude.{◌≡◌, Option, none, some}
use krb5_token_service.Python.Utf8.{Bytes}
use krb5_token_service.Python.Base64.{b64decode}
use krb5_token_service.Errors.{Failure, minting, ccache_parse, ticket_expired, ok}
use krb5_token_service.World.{World, Outside}
use krb5_token_service.Settings.{Settings}
use krb5_token_service.Exec.{pure}
use krb5_token_service.Exec.Returns.{AlwaysRaises, AlwaysRaises-not_ok, bind-ok, catch-ok}
use krb5_token_service.Minting.Child.Returns.{AlwaysRaises-raise}
use krb5_token_service.Minting.Tickets.{MintedTicket}
use krb5_token_service.Minting.Renewals.Issued.{IsRenewed, renew_ticket-IsRenewed}
use krb5_token_service.App.Requests.{Request, RenewRequest, MintResponse, mint_response}
use krb5_token_service.App.Common.{Caller}
use krb5_token_service.App.Common.Granted.{AlwaysRaises-refuse, IsCaller, authenticate-ok}
use krb5_token_service.App.Renew.{renew, renew_for, renew_failed, take_ccache}

AlwaysRaises-renew_failed : (caller : Caller) (f : Failure) → AlwaysRaises (renew_failed caller f)
unfolding renew_failed
AlwaysRaises-renew_failed caller (ccache_parse why) = AlwaysRaises-refuse _ _
AlwaysRaises-renew_failed caller (ticket_expired why) = AlwaysRaises-refuse _ _
AlwaysRaises-renew_failed caller (minting why) = AlwaysRaises-refuse _ _
AlwaysRaises-renew_failed caller _ = AlwaysRaises-raise _

take_ccache-ok :
    (caller : Caller) (decoded : Option Bytes) (w : World) (ccache : Bytes)
    → (take_ccache caller decoded w).0 ≡ ok ccache
    → decoded ≡ some ccache
unfolding take_ccache pure
take_ccache-ok caller none w ccache h =
    absurd (AlwaysRaises-not_ok _ w ccache (AlwaysRaises-refuse _ _) h)
take_ccache-ok caller (some bs) w ccache h = cc

module _ (env : Outside) (settings : Settings) (body : RenewRequest) where
  -- The caller is known by a verified token, the ccache is well-formed base64, and the answer is the
  -- ticket that kinit -R wrote.
  pub record IsGranted (w : World) (request : Request) (response : MintResponse) : Type 0 where
    pub caller : Caller
    pub ccache : Bytes
    pub minted : MintedTicket
    pub identified : IsCaller env settings w request caller
    pub decoded : b64decode body.ccache_b64 ≡ some ccache
    pub renewed : IsRenewed env settings ccache minted
    pub answered : response ≡ mint_response minted

  -- A renewal answers with a ticket only if the request's token has been verified against the keys that
  -- `get_jwks` gives for it and its ccache is
  -- base64; and the ticket is the one that kinit -R wrote in a directory that held nothing but
  -- that ccache: it ended with return code 0 and left a file
  -- `ccache` that is not empty, whose content, principal, realm and times are the answer's.
  pub renew-IsGranted :
      (request : Request) (w : World) (response : MintResponse)
      → (renew env settings body request w).0 ≡ ok response
      → IsGranted w request response
  unfolding renew renew_for pure
  renew-IsGranted request w response h =
      let (caller, known, h1) = bind-ok _ _ w response h in
      let (ccache, taken, h2) = bind-ok _ _ _ response h1 in
      let (minted, caught, h3) = bind-ok _ _ _ response h2 in
      let (_, _, h4) = bind-ok _ _ _ response h3 in
      let (returned, _) = catch-ok _ _ _ minted (AlwaysRaises-renew_failed caller) caught in
      record {
        caller = caller;
        ccache = ccache;
        minted = minted;
        identified = authenticate-ok env settings request none w caller known;
        decoded = take_ccache-ok caller _ _ ccache taken;
        renewed = renew_ticket-IsRenewed env settings ccache _ minted returned;
        answered = cc;
      }
