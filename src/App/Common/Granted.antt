-- ===== src/App/Common/Granted.antt =====
-- What is known of a request that is answered with a success: its token has been verified.
use krb5_token_service.Prelude.{◌≡◌, refl, sym, subst, Option, none, some, Text}
use krb5_token_service.Errors.{Failure, http, HttpError, invalid_username, ok}
use krb5_token_service.World.{World, AuditLine, Claims, Outside}
use krb5_token_service.Settings.{Settings}
use krb5_token_service.Exec.{pure, lift}
use krb5_token_service.Exec.Returns.{
  AlwaysRaises, AlwaysRaises-bind, AlwaysRaises-not_ok, bind-ok, catch-ok,
}
use krb5_token_service.Minting.Child.Returns.{AlwaysRaises-raise}
use krb5_token_service.Minting.Names.{validate_username}
use krb5_token_service.App.Requests.{Request}
use krb5_token_service.App.Common.{
  Caller, refuse, authenticate, authenticate_token, verified, reject_token, check_name, choose_id,
  reject_name,
}
use krb5_token_service.Identity.Accepted.{IsVerified, verify_broker_token-IsVerified}

pub AlwaysRaises-refuse :
    {A : Type 0} (line : AuditLine) (e : HttpError) → AlwaysRaises (refuse {A = A} line e)
unfolding refuse
AlwaysRaises-refuse line e = AlwaysRaises-bind _ _ (λ _. AlwaysRaises-raise _)

module _ (env : Outside) (settings : Settings) where
  -- In the state that `w` becomes with the choice of the request's id, the request carries a verified
  -- token, and the caller is the one that it names.
  pub record IsCaller (w : World) (request : Request) (caller : Caller) : Type 0 where
    pub token : Text
    pub claims : Claims
    pub presented : request.token ≡ some token
    pub verified_token : IsVerified env settings (choose_id env request.request_id w).1 token claims
    pub subject : caller.subject ≡ claims.sub
    pub jti : caller.jti ≡ claims.jti

  AlwaysRaises-reject_token :
      {A : Type 0} (token : Text) (username : Option Text) (id : Text) (f : Failure)
      → AlwaysRaises (reject_token env {A = A} token username id f)
  unfolding reject_token
  AlwaysRaises-reject_token token username id (http e) = AlwaysRaises-refuse _ e
  AlwaysRaises-reject_token token username id _ = AlwaysRaises-raise _

  authenticate_token-ok :
      (request : Request) (token username : Option Text) (id : Text) (w : World) (caller : Caller)
      → request.token ≡ token
      → (w' : World) → (choose_id env request.request_id w').1 ≡ w
      → (authenticate_token env settings token username id w).0 ≡ ok caller
      → IsCaller w' request caller
  unfolding authenticate_token verified pure
  authenticate_token-ok request none username id w caller e w' at h =
      absurd (AlwaysRaises-not_ok _ w caller (AlwaysRaises-refuse _ _) h)
  authenticate_token-ok request (some token) username id w caller e w' at h =
      let (claims, caught, h1) = bind-ok _ _ w caller h in
      let (checked, _) =
        catch-ok _ _ w claims (AlwaysRaises-reject_token token username id) caught in
      record {
        token = token;
        claims = claims;
        presented = e;
        verified_token =
            subst (λ x. IsVerified env settings x token claims) (sym at)
              (verify_broker_token-IsVerified env settings token w claims checked);
        subject = cc;
        jti = cc;
      }

  pub authenticate-ok :
      (request : Request) (username : Option Text) (w : World) (caller : Caller)
      → (authenticate env settings request username w).0 ≡ ok caller
      → IsCaller w request caller
  unfolding authenticate
  authenticate-ok request username w caller h =
      let (id, _, h1) = bind-ok _ _ w caller h in
      authenticate_token-ok request request.token username id _ caller refl w refl h1

  AlwaysRaises-reject_name :
      (caller : Caller) (f : Failure) → AlwaysRaises (reject_name env caller f)
  unfolding reject_name
  AlwaysRaises-reject_name caller (invalid_username u) = AlwaysRaises-refuse _ _
  AlwaysRaises-reject_name caller _ = AlwaysRaises-raise _

  pub check_name-ok :
      (caller : Caller) (username : Text) (w : World)
      → (check_name env caller username w).0 ≡ ok tt
      → validate_username username ≡ ok tt
  unfolding check_name lift
  check_name-ok caller username w h = (catch-ok _ _ w tt (AlwaysRaises-reject_name caller) h).0
