-- ===== src/App/Keytab/Granted.antt =====
-- A keytab bootstrap that is answered with a keytab.
use krb5_token_service.Prelude.{◌≡◌, refl, subst, ℕ, Option, none, some, [], ◌∷◌, ◌++◌, codes, Text}
use krb5_token_service.Python.Utf8.{Bytes, encode}
use krb5_token_service.Python.Base64.{b64encode}
use krb5_token_service.Errors.{Failure, minting, bad_password, ok}
use krb5_token_service.World.{World, Outside}
use krb5_token_service.Settings.{Settings}
use krb5_token_service.Exec.{pure}
use krb5_token_service.Exec.Returns.{
  AlwaysRaises, AlwaysRaises-bind, AlwaysRaises-not_ok, bind-ok, catch-ok,
}
use krb5_token_service.Minting.Child.Returns.{AlwaysRaises-raise, ok-injective}
use krb5_token_service.Minting.Names.{validate_username}
use krb5_token_service.Minting.Tickets.{principal_of}
use krb5_token_service.Minting.Keytabs.Issued.{IsBootstrapped, mint_keytab-IsBootstrapped}
use krb5_token_service.App.Requests.{Request, KeytabRequest, KeytabResponse}
use krb5_token_service.App.Common.{Caller}
use krb5_token_service.App.Common.Granted.{
  AlwaysRaises-refuse, IsCaller, authenticate-ok, check_name-ok,
}
use krb5_token_service.App.Keytab.{keytab, keytab_for, keytab_with, keytab_failed, take_password}
use krb5_token_service.Minting.Written.{IsLeft}
use krb5_token_service.Minting.Keytabs.{keytab_call}
use krb5_token_service.System.{new_buffer, get_buffer}
use krb5_token_service.System.Rooms.{visible, get_buffer-last}

AlwaysRaises-keytab_failed :
    (env : Outside) (caller : Caller) (u : Text) (f : Failure)
    → AlwaysRaises (keytab_failed env caller u f)
unfolding keytab_failed
AlwaysRaises-keytab_failed env caller u (bad_password why) =
    AlwaysRaises-bind _ _ (λ _. AlwaysRaises-refuse _ _)
AlwaysRaises-keytab_failed env caller u (minting why) = AlwaysRaises-refuse _ _
AlwaysRaises-keytab_failed env caller u _ = AlwaysRaises-raise _

take_password-ok :
    (bs : Option Bytes) (w : World) (password : ℕ)
    → (take_password bs w).0 ≡ ok password
    → (bytes : Bytes) × (bs ≡ some bytes)
      × (get_buffer password (take_password bs w).1.buffers ≡ bytes)
unfolding take_password new_buffer
take_password-ok none w password h =
    absurd (AlwaysRaises-not_ok _ w password (AlwaysRaises-raise _) h)
take_password-ok (some bs) w password h = (
  bs,
  refl,
  subst (λ i. get_buffer i (w.buffers ++ bs ∷ []) ≡ bs) (ok-injective h)
      (get_buffer-last w.buffers bs),
)

module _ (env : Outside) (settings : Settings) (body : KeytabRequest) where
  -- The caller is known by a verified token, the username is well-formed, and the answer is the keytab
  -- that cern-get-keytab wrote for it from the password of the request, in base64.
  pub record IsGranted (w : World) (request : Request) (response : KeytabResponse) : Type 0 where
    pub caller : Caller
    pub content : Bytes
    pub identified : IsCaller env settings w request caller
    pub named : validate_username body.username ≡ ok tt
    pub tmpdir : Text
    pub password : Bytes
    pub encoded_password : encode body.password ≡ some password
    pub bootstrapped :
        IsLeft env
          (keytab_call env settings body.username tmpdir (password ++ 10 ∷ []))
          []
          (codes "keytab")
          content
    pub encoded : response.keytab_b64 ≡ b64encode content
    pub of_realm : response.principal ≡ principal_of body.username settings

  keytab_with-ok :
      (caller : Caller) (password : ℕ) (w : World) (response : KeytabResponse)
      → (keytab_with env settings body caller password w).0 ≡ ok response
      → (content : Bytes) × IsBootstrapped env settings body.username password (visible w) content
        × (response.keytab_b64 ≡ b64encode content)
        × (response.principal ≡ principal_of body.username settings)
  unfolding keytab_with pure
  keytab_with-ok caller password w response h =
      let (content, caught, h1) = bind-ok _ _ w response h in
      let (_, _, h2) = bind-ok _ _ _ response h1 in
      let (_, _, h3) = bind-ok _ _ _ response h2 in
      let (returned, _) =
        catch-ok _ _ w content (AlwaysRaises-keytab_failed env caller body.username) caught in
      (
        content,
        mint_keytab-IsBootstrapped env settings body.username password w content returned,
        cc,
        cc,
      )

  -- A keytab bootstrap answers with a keytab only if the request's token has been verified against the keys that
  -- `get_jwks` gives for it and its
  -- username is well-formed; and the keytab is the content of the file, which is not empty, that
  -- cern-get-keytab left for that username when it ended with return code 0, with the whole of
  -- the request's password and a newline as its input.
  pub keytab-IsGranted :
      (request : Request) (w : World) (response : KeytabResponse)
      → (keytab env settings body request w).0 ≡ ok response
      → IsGranted w request response
  unfolding keytab keytab_for
  keytab-IsGranted request w response h =
      let (caller, known, h1) = bind-ok _ _ w response h in
      let (_, well_named, h2) = bind-ok _ _ _ response h1 in
      let (_, _, h3) = bind-ok _ _ _ response h2 in
      let (password, taken, h4) = bind-ok _ _ _ response h3 in
      let (bytes, as_bytes, held) = take_password-ok _ _ password taken in
      let (content, (tmpdir, wrote), encoded, of_realm) =
        keytab_with-ok caller password _ response h4 in
      record {
        caller = caller;
        content = content;
        identified = authenticate-ok env settings request (some body.username) w caller known;
        named = check_name-ok env settings caller body.username _ well_named;
        tmpdir = tmpdir;
        password = bytes;
        encoded_password = as_bytes;
        bootstrapped = rw held at wrote;
        encoded = encoded;
        of_realm = of_realm;
      }
