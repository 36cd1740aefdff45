-- ===== src/App/Mint/Granted.antt =====
-- A mint that is answered with a ticket.
use krb5_token_service.Prelude.{◌≡◌, refl, ap, subst, [], ◌∷◌, ◌++◌, not, Option, none, some, Text}
use krb5_token_service.Python.Utf8.{Bytes, encode}
use krb5_token_service.Python.Base64.{b64decode}
use krb5_token_service.Errors.{
  Failure, invalid_lifetime, minting, bad_password, bad_keytab, unknown_principal, account_unusable,
  ok,
}
use krb5_token_service.World.{World, Files, Outside}
use krb5_token_service.Settings.{Settings}
use krb5_token_service.Exec.{pure, lift, ◌>>=◌}
use krb5_token_service.Exec.Returns.{
  AlwaysRaises, AlwaysRaises-bind, AlwaysRaises-not_ok, bind-ok, catch-ok,
}
use krb5_token_service.Minting.Child.Returns.{AlwaysRaises-raise, ok-injective}
use krb5_token_service.Minting.Names.{validate_username, validate_lifetime}
use krb5_token_service.Minting.Tickets.{MintedTicket, is_none, kinit_call}
use krb5_token_service.Minting.Tickets.Rooms.{keytab_file}
use krb5_token_service.Minting.Tickets.Spawned.{input_of, found_of}
use krb5_token_service.Minting.Written.{IsWritten}
use krb5_token_service.System.{new_buffer}
use krb5_token_service.System.Rooms.{Visible, visible, get_buffer-last}
use krb5_token_service.Minting.Tickets.Issued.{IsIssued, mint_ticket-IsIssued}
use krb5_token_service.App.Requests.{Request, MintRequest, MintResponse, mint_response}
use krb5_token_service.App.Common.{Caller}
use krb5_token_service.App.Common.Granted.{
  AlwaysRaises-refuse, IsCaller, authenticate-ok, check_name-ok,
}
use krb5_token_service.App.Mint.{
  mint, mint_for, mint_with, mint_failed, take_secret, take_keytab, keytab_secret, password_secret,
  check_lifetimes, reject_lifetime, Secrets, or_default,
}

AlwaysRaises-reject_lifetime :
    (caller : Caller) (u : Text) (f : Failure) → AlwaysRaises (reject_lifetime caller u f)
unfolding reject_lifetime
AlwaysRaises-reject_lifetime caller u (invalid_lifetime v) = AlwaysRaises-refuse _ _
AlwaysRaises-reject_lifetime caller u _ = AlwaysRaises-raise _

check_lifetimes-ok :
    (caller : Caller) (u lifetime renewable : Text) (w : World)
    → (check_lifetimes caller u lifetime renewable w).0 ≡ ok tt
    → (validate_lifetime lifetime ≡ ok tt) × (validate_lifetime renewable ≡ ok tt)
unfolding check_lifetimes lift
check_lifetimes-ok caller u lifetime renewable w h =
    let (both, _) = catch-ok _ _ w tt (AlwaysRaises-reject_lifetime caller u) h in
    let (_, first, second) = bind-ok _ _ w tt both in (first, second)

AlwaysRaises-mint_failed :
    (env : Outside) (caller : Caller) (u : Text) (f : Failure)
    → AlwaysRaises (mint_failed env caller u f)
unfolding mint_failed
AlwaysRaises-mint_failed env caller u (bad_password why) =
    AlwaysRaises-bind _ _ (λ _. AlwaysRaises-refuse _ _)
AlwaysRaises-mint_failed env caller u (bad_keytab why) = AlwaysRaises-refuse _ _
AlwaysRaises-mint_failed env caller u (unknown_principal why) = AlwaysRaises-refuse _ _
AlwaysRaises-mint_failed env caller u (account_unusable why) = AlwaysRaises-refuse _ _
AlwaysRaises-mint_failed env caller u (minting why) = AlwaysRaises-refuse _ _
AlwaysRaises-mint_failed env caller u _ = AlwaysRaises-raise _

-- The input of kinit and the only file of its directory, by the request: the bytes of the password and a
-- newline, or else the bytes of the keytab, for the service only.
abbrev pub IsInput : Option Text → Option Text → Option Bytes → Files → Type 0
IsInput (some password) keytab_b64 stdin found =
    (bytes : Bytes) × (encode password ≡ some bytes)
    × (stdin ≡ some (bytes ++ 10 ∷ []))
    × (found ≡ [])
IsInput none (some keytab_b64) stdin found =
    (bytes : Bytes) × (b64decode keytab_b64 ≡ some bytes)
    × (stdin ≡ none)
    × (found ≡ keytab_file bytes)
IsInput none none stdin found = ⊥

-- The buffers of the secrets hold the password of the request, or else its keytab.
abbrev AreTaken : Option Text → Option Text → Secrets → Visible → Type 0
AreTaken password keytab_b64 secrets v =
    IsInput password keytab_b64 (input_of secrets.0 v) (found_of secrets.1 v)
    × (not (is_none secrets.1) ≡ is_none password)

AreTaken-password :
    (password : Text) (keytab_b64 : Option Text) (bs : Option Bytes) (w : World) (secrets : Secrets)
    → encode password ≡ bs
    → (password_secret bs w).0 ≡ ok secrets
    → AreTaken (some password) keytab_b64 secrets (visible (password_secret bs w).1)
unfolding password_secret new_buffer ◌>>=◌ pure
AreTaken-password password keytab_b64 none w secrets e h =
    absurd (AlwaysRaises-not_ok _ w secrets (AlwaysRaises-raise _) h)
AreTaken-password password keytab_b64 (some bs) w secrets e h =
    subst (λ s. AreTaken (some password) keytab_b64 s (visible (password_secret (some bs) w).1))
      (ok-injective h)
      ((bs, e, ap (λ c. some (c ++ 10 ∷ [])) (get_buffer-last w.buffers bs), refl), refl)

AreTaken-keytab :
    (caller : Caller) (u keytab_b64 : Text) (bs : Option Bytes) (w : World) (secrets : Secrets)
    → b64decode keytab_b64 ≡ bs
    → (keytab_secret caller u bs w).0 ≡ ok secrets
    → AreTaken none (some keytab_b64) secrets (visible (keytab_secret caller u bs w).1)
unfolding keytab_secret new_buffer ◌>>=◌ pure
AreTaken-keytab caller u keytab_b64 none w secrets e h =
    absurd (AlwaysRaises-not_ok _ w secrets (AlwaysRaises-refuse _ _) h)
AreTaken-keytab caller u keytab_b64 (some bs) w secrets e h =
    subst (λ s. AreTaken none (some keytab_b64) s (visible (keytab_secret caller u (some bs) w).1))
      (ok-injective h) ((bs, e, refl, ap keytab_file (get_buffer-last w.buffers bs)), refl)

take_secret-ok :
    (caller : Caller) (u : Text) (password keytab_b64 : Option Text) (w : World) (secrets : Secrets)
    → (take_secret caller u password keytab_b64 w).0 ≡ ok secrets
    → AreTaken password keytab_b64 secrets (visible (take_secret caller u password keytab_b64 w).1)
unfolding take_secret take_keytab
take_secret-ok caller u (some password) keytab_b64 w secrets h =
    AreTaken-password password keytab_b64 (encode password) w secrets refl h
take_secret-ok caller u none (some keytab_b64) w secrets h =
    AreTaken-keytab caller u keytab_b64 (b64decode keytab_b64) w secrets refl h
take_secret-ok caller u none none w secrets h =
    absurd (AlwaysRaises-not_ok _ w secrets (AlwaysRaises-raise _) h)

module _ (env : Outside) (settings : Settings) (body : MintRequest) where
  abbrev pub lifetime_asked : Text
  lifetime_asked = or_default body.lifetime settings.default_lifetime

  abbrev pub renewable_lifetime_asked : Text
  renewable_lifetime_asked = or_default body.renewable_lifetime settings.default_renewable_lifetime

  -- The caller is known by a verified token, the username and the lifetimes are well-formed, and the
  -- answer is the ticket that kinit wrote for them, from the password of the request if there is one and
  -- else from its keytab.
  pub record IsGranted (w : World) (request : Request) (response : MintResponse) : Type 0 where
    pub caller : Caller
    pub minted : MintedTicket
    pub tmpdir : Text
    pub stdin : Option Bytes
    pub found : Files
    pub identified : IsCaller env settings w request caller
    pub named : validate_username body.username ≡ ok tt
    pub lived : validate_lifetime lifetime_asked ≡ ok tt
    pub renewably : validate_lifetime renewable_lifetime_asked ≡ ok tt
    pub given : IsInput body.password body.keytab_b64 stdin found
    pub issued :
        IsWritten env
          (kinit_call env settings body.username lifetime_asked renewable_lifetime_asked
            (is_none body.password)
            tmpdir
            stdin)
          found
          minted
    pub answered : response ≡ mint_response minted

  mint_with-ok :
      (caller : Caller) (secrets : Secrets) (w : World) (response : MintResponse)
      → (mint_with env settings body caller secrets w).0 ≡ ok response
      → (minted : MintedTicket) × IsIssued env settings body.username lifetime_asked
          renewable_lifetime_asked secrets.0 secrets.1
          (visible w)
          minted
        × (response ≡ mint_response minted)
  unfolding mint_with pure
  mint_with-ok caller (password, keytab) w response h =
      let (minted, caught, h1) = bind-ok _ _ w response h in
      let (_, _, h2) = bind-ok _ _ _ response h1 in
      let (_, _, h3) = bind-ok _ _ _ response h2 in
      let (returned, _) =
        catch-ok _ _ w minted (AlwaysRaises-mint_failed env caller body.username) caught in
      (
        minted,
        mint_ticket-IsIssued env settings body.username _ _ password keytab w minted returned,
        cc,
      )

  -- A mint answers with a ticket only if the request's token has been verified against the keys that
  -- `get_jwks` gives for it and its username
  -- and lifetimes are well-formed; and the ticket is the one that kinit wrote for that username and those
  -- lifetimes, with the whole of the request's password and a newline as its input if the request has a
  -- password, and with the request's keytab as the only file in its directory otherwise.
  pub mint-IsGranted :
      (request : Request) (w : World) (response : MintResponse)
      → (mint env settings body request w).0 ≡ ok response
      → IsGranted w request response
  unfolding mint mint_for
  mint-IsGranted request w response h =
      let (caller, known, h1) = bind-ok _ _ w response h in
      let (_, well_named, h2) = bind-ok _ _ _ response h1 in
      let (_, lives, h3) = bind-ok _ _ _ response h2 in
      let (_, _, h4) = bind-ok _ _ _ response h3 in
      let (secrets, taken, h5) = bind-ok _ _ _ response h4 in
      let (minted, (tmpdir, written), answer) = mint_with-ok caller secrets _ response h5 in
      let (given, by_keytab) =
        take_secret-ok caller body.username body.password body.keytab_b64 _ secrets taken in
      let (first, second) = check_lifetimes-ok caller body.username _ _ _ lives in
      record {
        caller = caller;
        minted = minted;
        identified = authenticate-ok env settings request (some body.username) w caller known;
        named = check_name-ok env settings caller body.username _ well_named;
        lived = first;
        renewably = second;
        tmpdir = tmpdir;
        stdin = _;
        found = _;
        given = given;
        issued = rw by_keytab at written;
        answered = answer;
      }
