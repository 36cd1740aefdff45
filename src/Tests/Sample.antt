-- ===== src/Tests/Sample.antt =====
-- An outside to run the service in: a KDC that knows one account, a broker with one key.
use krb5_token_service.Prelude.{
  ℕ, ◌*◌, Bool, true, false, Option, none, some, [], ◌∷◌, ◌++◌, if◌then◌else◌, Text, codes, text_eq,
}
use krb5_token_service.Python.Utf8.{Bytes}
use krb5_token_service.World.{
  File, Files, Call, Ran, completed, exited, Jwk, Principal, Credential, Credentials, finished,
  next, Reading, unreadable, readable, valid, invalid, Outside, ticks_per_second,
}
use krb5_token_service.App.Requests.{Request, MintRequest, KeytabRequest}

abbrev pub key : Jwk
key = record { kid = some (codes "k1"); body = codes "rsa" }

abbrev pub file : Bytes → File
file content = record { content = content; mode = 0o600 }

abbrev answer_password : Bool → Ran
answer_password true = completed (exited 0) [] ((codes "ccache", file (codes "CC")) ∷ [])
answer_password false =
    completed (exited 1) (codes "kinit: Password incorrect while getting initial credentials\n") []

-- kinit and cern-get-keytab: a call without input is a keytab or a renewal, and succeeds.
abbrev pub kdc : Call → Files → Ran
kdc call found = elim call.stdin [
  | none ↦ answer_password true
  | some bs ↦ answer_password (text_eq bs (codes "secret\n"))
]

abbrev pub principal : Text → Principal
principal display = record { realm = codes "CERN.CH"; display = display }

abbrev cred : Text → Text → ℕ → ℕ → Credential
cred realm server endtime renew_till = record {
  server = record { realm = realm; display = server };
  endtime = endtime;
  renew_till = renew_till;
}

abbrev pub cache : Credentials
cache =
    next (cred (codes "X-CACHECONF:") (codes "krb5_ccache_conf_data/pa_type@X-CACHECONF:") 0 0) (
      next (cred (codes "CERN.CH") (codes "krbtgt/CERN.CH@CERN.CH") 1709210096 1709814896) finished)

abbrev pub krb5 : Option Bytes → Reading
krb5 none = unreadable (codes "No credentials cache found")
krb5 (some bs) =
    if text_eq bs (codes "CC")
    then readable (principal (codes "gstark@CERN.CH")) cache
    else unreadable (codes "Bad version number")

-- The clock stands at the number of the question, in seconds.
abbrev pub outside : Outside
outside = record {
  monotonic = λ n. n * ticks_per_second;
  disk_fails = λ n. false;
  temp_name = λ n. codes "tmp" ++ n ∷ [];
  created_mode = 0o644;
  environ = (codes "PATH", codes "/bin") ∷ [];
  python = codes "/usr/bin/python3";
  child = λ n call found. kdc call found;
  fetch = λ n url. some (key ∷ []);
  uuid4 = λ n. codes "uuid";
  has_executable = λ n name. true;
  can_read = λ n path. true;
  krb5 = krb5;
  unverified_kid = λ token. valid (some (codes "k1"));
  decode_token = λ n token k audience issuer.
      if text_eq token (codes "good")
      then valid (record { sub = codes "user"; jti = some (codes "j1") })
      else invalid (codes "Signature verification failed");
  unverified_sub = λ token. valid (some (codes "user"));
}

abbrev pub request : Request
request = record { request_id = some (codes "r1"); token = some (codes "good") }

abbrev pub by_password : Text → MintRequest
by_password password = record {
  username = codes "gstark";
  password = some password;
  keytab_b64 = none;
  lifetime = none;
  renewable_lifetime = none;
}

abbrev pub by_keytab : MintRequest
by_keytab = record {
  username = codes "gstark";
  password = none;
  keytab_b64 = some (codes "S1Q=");
  lifetime = some (codes "8h30s");
  renewable_lifetime = none;
}

abbrev pub for_keytab : KeytabRequest
for_keytab = record { username = codes "gstark"; password = codes "secret" }
