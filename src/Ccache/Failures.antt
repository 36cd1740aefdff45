-- ===== src/Ccache/Failures.antt =====
-- What reading a ccache can raise.
use krb5_token_service.Prelude.{Option, none, some, arith, Text}
use krb5_token_service.Python.Utf8.{decode}
use krb5_token_service.Errors.{Failure, ccache_parse, value_error}
use krb5_token_service.World.{
  Principal, Credentials, finished, broken, next, Reading, unreadable, readable,
}
use krb5_token_service.Exec.Keeps.{Fails}
use krb5_token_service.Ccache.{find_tgt, with_realm, parse_ccache}

abbrev pub IsCcacheFailure : Failure → Type 0
IsCcacheFailure (ccache_parse why) = Unit
IsCcacheFailure (value_error why) = Unit
IsCcacheFailure _ = ⊥

find_tgt-kind :
    (realm : Text) (p : Principal) (cs : Credentials) → Fails IsCcacheFailure (find_tgt realm p cs)
unfolding find_tgt
find_tgt-kind realm p finished = tt
find_tgt-kind realm p (broken why) = tt
find_tgt-kind realm p (next cred rest) = ground (arith, find_tgt-kind realm p rest)

pub parse_ccache-kind : (r : Reading) → Fails IsCcacheFailure (parse_ccache r)
unfolding parse_ccache
parse_ccache-kind (unreadable why) = tt
parse_ccache-kind (readable p cs) = on_realm (decode p.realm)
  where
    on_realm : (o : Option Text) → Fails IsCcacheFailure (with_realm o p cs)
    on_realm none = tt
    on_realm (some realm) = find_tgt-kind realm p cs
