-- ===== src/Ccache.antt =====
-- src/krb5_token_service/ccache.py. `Outside.krb5` stands for pykrb5; a `datetime` in UTC is its
-- count of seconds since 1970.
pub mod Failures
pub mod Tickets
use krb5_token_service.Prelude.{
  ℕ, Option, none, some, List, ◌∷◌, ◌++◌, if◌then◌else◌, Text, codes, text_eq, ◌==◌,
}
use krb5_token_service.Python.Utf8.{Bytes, decode}
use krb5_token_service.Errors.{Result, ok, raised, ccache_parse, value_error}
use krb5_token_service.World.{
  Principal, Credential, Credentials, finished, broken, next, Reading, unreadable, readable,
}

abbrev pub config_entry_realm : Bytes
config_entry_realm = codes "X-CACHECONF:"

pub record CcacheInfo : Type 0 where
  pub principal : Text
  pub realm : Text
  pub expires_at : ℕ
  pub renew_until : Option ℕ

-- `f"krbtgt/{realm}@{realm}"`
abbrev pub tgt_server : Text → Text
tgt_server realm = codes "krbtgt/" ++ (realm ++ (b'@' ∷ realm))

ticket_info : Text → Principal → Credential → CcacheInfo
ticket_info realm principal cred = record {
  principal = principal.display;
  realm = realm;
  expires_at = cred.endtime;
  renew_until = if cred.renew_till == 0 then none else some cred.renew_till;
}

-- The loop over the credentials.
find_tgt : Text → Principal → Credentials → Result CcacheInfo
find_tgt realm principal finished =
    raised (
      ccache_parse
        (codes "no " ++ (tgt_server realm ++ codes " credential found in minted ccache")))
find_tgt realm principal (broken why) =
    raised (ccache_parse (codes "not a readable ccache: " ++ why))
find_tgt realm principal (next cred rest) =
    let later = find_tgt realm principal rest in
    if text_eq cred.server.realm config_entry_realm
    then later
    else if text_eq cred.server.display (tgt_server realm)
    then ok (ticket_info realm principal cred)
    else later

with_realm : Option Text → Principal → Credentials → Result CcacheInfo
with_realm none principal creds = raised (value_error (codes "invalid utf-8"))
with_realm (some realm) principal creds = find_tgt realm principal creds

-- `read_ccache`, on what pykrb5 makes of the file.
unfoldable pub parse_ccache : Reading → Result CcacheInfo
unfolding find_tgt with_realm ticket_info
parse_ccache (unreadable why) = raised (ccache_parse (codes "not a readable ccache: " ++ why))
parse_ccache (readable principal creds) = with_realm (decode principal.realm) principal creds
