-- ===== src/Minting/Classify.antt =====
-- The stderr markers of src/krb5_token_service/minting.py and the functions that map a failed
-- child's stderr to an exception.
pub mod Ordered
use krb5_token_service.Prelude.{
  Bool, Option, none, some, List, [], ◌∷◌, ◌++◌, if◌then◌else◌, Text, codes, any, occurs,
}
use krb5_token_service.Errors.{
  Failure, bad_password, bad_keytab, unknown_principal, account_unusable, ticket_expired,
}

abbrev pub bad_password_markers : List Text
bad_password_markers = codes "Password incorrect" ∷ []

abbrev pub unknown_principal_markers : List Text
unknown_principal_markers = codes "not found in Kerberos database" ∷ []

abbrev pub revoked_markers : List Text
revoked_markers = codes "credentials have been revoked" ∷ []

abbrev pub password_expired_markers : List Text
password_expired_markers = codes "Password has expired" ∷ []

abbrev pub bad_key_markers : List Text
bad_key_markers = codes "Preauthentication failed" ∷ codes "Decrypt integrity check failed" ∷ []

abbrev pub ticket_expired_markers : List Text
ticket_expired_markers = codes "Ticket expired" ∷ []

abbrev pub no_credentials_markers : List Text
no_credentials_markers = codes "Could not find any credentials to authenticate with" ∷ []

abbrev pub account_revoked_detail : Text
account_revoked_detail =
    codes "This CERN account's credentials have been revoked. Contact CERN account support."

abbrev pub password_expired_detail : Text
password_expired_detail =
    codes
      "This CERN account's password has expired and must be changed before a ticket can be minted."

-- `any(marker in stderr for marker in markers)`
unfoldable pub mentions : Text → List Text → Bool
mentions stderr markers = any (λ marker. occurs marker stderr) markers

unfoldable pub classify_password_stderr : Text → Option Failure
classify_password_stderr stderr =
    if mentions stderr bad_password_markers
    then some (bad_password (codes "bad password"))
    else if mentions stderr unknown_principal_markers
    then some (unknown_principal (codes "unknown principal"))
    else if mentions stderr revoked_markers
    then some (account_unusable account_revoked_detail)
    else if mentions stderr password_expired_markers
    then some (account_unusable password_expired_detail)
    else none

unfoldable pub classify_keytab_stderr : Text → Option Failure
classify_keytab_stderr stderr =
    if mentions stderr bad_key_markers
    then some (bad_keytab (codes "bad keytab"))
    else if mentions stderr unknown_principal_markers
    then some (unknown_principal (codes "unknown principal"))
    else if mentions stderr revoked_markers
    then some (account_unusable account_revoked_detail)
    else none

unfoldable pub classify_renew_stderr : Text → Option Failure
classify_renew_stderr stderr =
    if mentions stderr ticket_expired_markers
    then some (ticket_expired (codes "ticket no longer renewable"))
    else none

unfoldable pub classify_cern_get_keytab_stderr : Text → Option Failure
classify_cern_get_keytab_stderr stderr =
    if mentions stderr (bad_key_markers ++ no_credentials_markers)
    then some (bad_password (codes "bad password"))
    else none
