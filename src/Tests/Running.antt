-- ===== src/Tests/Running.antt =====
-- The definitions that a run of a handler computes with.
use krb5_token_service.Prelude.{occurs, text_eq}
use krb5_token_service.Prelude.Dict
use krb5_token_service.Python.Utf8.{encode, decode, decode_replace, strip}
use krb5_token_service.Python.Base64.{b64encode, b64decode}
use krb5_token_service.Python.Decimal.{show}
use krb5_token_service.Python.Iso.{isoformat}
use krb5_token_service.Exec.{◌>>=◌, catch, finally, modify, pure, raise, lift, gets}
use krb5_token_service.RateLimit.{check, record_failure, reset, new_limiter}
use krb5_token_service.System.{
  next_tick, emit, read_buffer, new_buffer, extend_buffer, zero_buffer, with_tmpdir, write_file,
  chmod_file, read_file, run_child, monotonic, disk_access, make_root,
}
use krb5_token_service.Minting.Buffers.{zero_bytearray}
use krb5_token_service.Minting.Names.{validate_username, validate_lifetime}
use krb5_token_service.Minting.Classify.{
  mentions, classify_password_stderr, classify_keytab_stderr, classify_renew_stderr,
  classify_cern_get_keytab_stderr,
}
use krb5_token_service.Minting.Child.{run_subprocess, read_ccache, show_code, stderr_text}
use krb5_token_service.Minting.Tickets.{mint_ticket}
use krb5_token_service.Minting.Renewals.{renew_ticket}
use krb5_token_service.Minting.Keytabs.{mint_keytab}
use krb5_token_service.Ccache.{parse_ccache}
use krb5_token_service.Identity.{get_jwks, fetch_jwks, verify_broker_token, select_jwk, peek_sub}
use krb5_token_service.App.Requests.{mint_response}
use krb5_token_service.App.Common.{
  authenticate, audit, refuse, check_name, check_limit, limiter_check, limiter_failure,
  limiter_reset, limited_detail,
}
use krb5_token_service.App.Mint.{mint}
use krb5_token_service.App.Renew.{renew}
use krb5_token_service.App.Keytab.{keytab}
use krb5_token_service.App.Health.{create_app, readyz, app_limiter}

unfoldable pub running : Unit {0}
unfolding mint renew keytab create_app readyz authenticate audit refuse check_name check_limit
    limiter_check limiter_failure limiter_reset limited_detail mint_response parse_ccache get_jwks
    fetch_jwks verify_broker_token select_jwk peek_sub mint_ticket renew_ticket mint_keytab
    run_subprocess read_ccache show_code stderr_text mentions classify_password_stderr
    classify_keytab_stderr classify_renew_stderr classify_cern_get_keytab_stderr validate_username
    validate_lifetime zero_bytearray next_tick emit read_buffer new_buffer extend_buffer zero_buffer
    with_tmpdir write_file chmod_file read_file run_child monotonic disk_access make_root check
    record_failure reset new_limiter app_limiter ◌>>=◌ catch finally modify pure gets lift raise
    Dict.lookup Dict.insert Dict.erase encode decode decode_replace strip b64encode b64decode show
    isoformat occurs text_eq
running = tt
