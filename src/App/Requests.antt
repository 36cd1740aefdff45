-- ===== src/App/Requests.antt =====
-- The bodies of requests and responses, and the check of a mint request.
pub mod Encoded
use krb5_token_service.Prelude.{ℕ, Option, none, some, Text, codes, if◌then◌else◌}
use krb5_token_service.Errors.{Result, ok, raised, value_error}
use krb5_token_service.Python.Base64.{b64encode}
use krb5_token_service.Python.Iso.{isoformat}
use krb5_token_service.Minting.Tickets.{MintedTicket, is_none}

-- The `x-request-id` header and the bearer token, where the request has them.
pub record Request : Type 0 where
  pub request_id : Option Text
  pub token : Option Text

pub record MintRequest : Type 0 where
  pub username : Text
  pub password : Option Text
  pub keytab_b64 : Option Text
  pub lifetime : Option Text
  pub renewable_lifetime : Option Text

pub record RenewRequest : Type 0 where
  pub ccache_b64 : Text

pub record KeytabRequest : Type 0 where
  pub username : Text
  pub password : Text

pub record MintResponse : Type 0 where
  pub ccache_b64 : Text
  pub principal : Text
  pub realm : Text
  pub expires_at : Text
  pub renew_until : Option Text

pub record KeytabResponse : Type 0 where
  pub keytab_b64 : Text
  pub principal : Text

-- `_exactly_one_credential`; FastAPI answers its `ValueError` with a 422 before the handler runs.
unfoldable pub exactly_one_credential : MintRequest → Result MintRequest
exactly_one_credential body =
    if is_none body.password
    then (if is_none body.keytab_b64
        then raised (value_error (codes "exactly one of password or keytab_b64 is required"))
        else ok body)
    else if is_none body.keytab_b64
    then ok body
    else raised (value_error (codes "exactly one of password or keytab_b64 is required"))

iso_if : Option ℕ → Option Text
iso_if none = none
iso_if (some t) = some (isoformat t)

-- `_mint_response`
unfoldable pub mint_response : MintedTicket → MintResponse
unfolding iso_if
mint_response minted = record {
  ccache_b64 = b64encode minted.ccache;
  principal = minted.principal;
  realm = minted.realm;
  expires_at = isoformat minted.expires_at;
  renew_until = iso_if minted.renew_until;
}
