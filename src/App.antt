-- ===== src/App.antt =====
-- src/krb5_token_service/app.py: the handlers of the service.
pub mod Requests
pub mod Common
pub mod Mint
pub mod Renew
pub mod Keytab
pub mod Health
pub mod Refusals
pub mod Audits
pub mod Attempts
pub mod Blocked
