-- ===== src/App/Common/Questions.antt =====
-- How many questions the outside is asked before the check of the limiter.
use krb5_token_service.Prelude.{arith, Option, none, some, Text}
use krb5_token_service.Errors.{Failure, http, HttpError, invalid_username}
use krb5_token_service.World.{AuditLine, Outside}
use krb5_token_service.Settings.{Settings}
use krb5_token_service.Exec.Takes.{
  Takes, Takes-pure, Takes-raise, Takes-lift, Takes-if, Takes-catch, Takes-bind, Takes-weaken,
}
use krb5_token_service.Identity.Questions.{Takes-next_tick, Takes-emit, Takes-verify_broker_token}
use krb5_token_service.App.Requests.{Request}
use krb5_token_service.App.Common.{
  Caller, audit, refuse, authenticate, choose_id, authenticate_token, verified, reject_token,
  check_name, reject_name,
}

pub Takes-refuse : {A : Type 0} (line : AuditLine) (e : HttpError) → Takes 0 (refuse {A = A} line e)
unfolding refuse audit
Takes-refuse line e = Takes-bind 0 0 _ _ (Takes-emit _) (λ _. Takes-raise _)

module _ (env : Outside) where
  Takes-choose_id : (id : Option Text) → Takes 1 (choose_id env id)
  unfolding choose_id
  Takes-choose_id none = Takes-bind 1 0 _ _ Takes-next_tick (λ n. Takes-pure _)
  Takes-choose_id (some t) =
      Takes-if _ _ _ (Takes-bind 1 0 _ _ Takes-next_tick (λ n. Takes-pure _)) (Takes-pure t)

  Takes-reject_token :
      {A : Type 0} (token : Text) (username : Option Text) (id : Text) (f : Failure)
      → Takes 0 (reject_token env {A = A} token username id f)
  unfolding reject_token
  Takes-reject_token token username id (http e) = Takes-refuse _ e
  Takes-reject_token token username id _ = Takes-raise _

  Takes-authenticate_token :
      (settings : Settings) (token username : Option Text) (id : Text)
      → Takes 4 (authenticate_token env settings token username id)
  unfolding authenticate_token verified
  Takes-authenticate_token settings none username id =
      Takes-weaken _ (omega arith) (Takes-refuse _ _)
  Takes-authenticate_token settings (some token) username id =
      Takes-bind 4 0 _ _
        (Takes-catch 4 0 _ _ (Takes-verify_broker_token env token settings)
          (Takes-reject_token token username id))
        (λ claims. Takes-pure _)

  pub Takes-authenticate :
      (settings : Settings) (request : Request) (username : Option Text)
      → Takes 5 (authenticate env settings request username)
  unfolding authenticate
  Takes-authenticate settings request username =
      Takes-bind 1 4 _ _ (Takes-choose_id _) (λ id. Takes-authenticate_token settings _ username id)

  Takes-reject_name : (caller : Caller) (f : Failure) → Takes 0 (reject_name env caller f)
  unfolding reject_name
  Takes-reject_name caller (invalid_username u) = Takes-refuse _ _
  Takes-reject_name caller _ = Takes-raise _

  pub Takes-check_name : (caller : Caller) (u : Text) → Takes 0 (check_name env caller u)
  unfolding check_name
  Takes-check_name caller u = Takes-catch 0 0 _ _ (Takes-lift _) (Takes-reject_name caller)
