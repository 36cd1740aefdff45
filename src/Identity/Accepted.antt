-- ===== src/Identity/Accepted.antt =====
-- A token that is accepted has been verified against the broker's keys.
use krb5_token_service.Prelude.{◌≡◌, refl, subst, ℕ, Option, none, some, List, Text}
use krb5_token_service.Errors.{ok}
use krb5_token_service.World.{World, Jwk, Claims, Verified, valid, invalid, Outside}
use krb5_token_service.Settings.{Settings}
use krb5_token_service.Exec.{pure}
use krb5_token_service.Exec.Returns.{AlwaysRaises-bind, AlwaysRaises-not_ok, bind-ok}
use krb5_token_service.System.{next_tick}
use krb5_token_service.Minting.Child.Returns.{AlwaysRaises-raise}
use krb5_token_service.Identity.{
  select_jwk, get_jwks, verify_broker_token, conclude, verify_with, decode_with,
}

next_tick-ok : (w : World) (n : ℕ) → (next_tick w).0 ≡ ok n → n ≡ w.ticks
unfolding next_tick
next_tick-ok w n h = cc

module _ (env : Outside) (settings : Settings) where
  -- A token that PyJWT accepts, at the next question after the keys are there, with the audience and
  -- the issuer of the settings and the key of its `kid` among those that `get_jwks` gives in the state.
  pub record IsVerified (w : World) (token : Text) (claims : Claims) : Type 0 where
    pub keys : List Jwk
    pub kid : Option Text
    pub key : Jwk
    pub offered : (get_jwks env settings w).0 ≡ ok keys
    pub named : env.unverified_kid token ≡ valid kid
    pub selected : select_jwk keys kid ≡ some key
    pub accepted :
        env.decode_token
          (get_jwks env settings w).1.ticks
          token
          key
          settings.expected_audience
          settings.broker_issuer
        ≡ valid claims

  conclude-ok :
      (v : Verified Claims) (w : World) (claims : Claims)
      → (conclude env v w).0 ≡ ok claims
      → v ≡ valid claims
  unfolding conclude pure
  conclude-ok (valid c) w claims h = cc
  conclude-ok (invalid why) w claims h =
      absurd (AlwaysRaises-not_ok _ w claims (AlwaysRaises-bind _ _ (λ _. AlwaysRaises-raise _)) h)

  decode_with-valid :
      (n : ℕ) (token : Text) (chosen : Option Jwk) (claims : Claims)
      → decode_with env n token settings chosen ≡ valid claims
      → (key : Jwk) × (chosen ≡ some key)
        × (env.decode_token n token key settings.expected_audience settings.broker_issuer
            ≡ valid claims)
  unfolding decode_with
  decode_with-valid n token none claims h = cc
  decode_with-valid n token (some key) claims h = (key, refl, h)

  verify_with-valid :
      (n : ℕ) (token : Text) (keys : List Jwk) (named : Verified (Option Text)) (claims : Claims)
      → verify_with env n token settings keys named ≡ valid claims
      → (kid : Option Text) × (named ≡ valid kid)
        × (decode_with env n token settings (select_jwk keys kid) ≡ valid claims)
  unfolding verify_with
  verify_with-valid n token keys (invalid why) claims h = cc
  verify_with-valid n token keys (valid kid) claims h = (kid, refl, h)

  -- A token that `verify_broker_token` accepts has been verified against the broker's keys: PyJWT has
  -- accepted it with the audience and the issuer of the settings and with the key of its `kid`, or the
  -- only key where it has none, among the keys that `get_jwks` gives in the state in which the token is
  -- presented.
  pub verify_broker_token-IsVerified :
      (token : Text) (w : World) (claims : Claims)
      → (verify_broker_token env token settings w).0 ≡ ok claims
      → IsVerified w token claims
  unfolding verify_broker_token
  verify_broker_token-IsVerified token w claims h =
      let (keys, offered, h1) = bind-ok _ _ w claims h in
      let (n, ticked, h2) = bind-ok _ _ _ claims h1 in
      let (kid, named, h3) = verify_with-valid n token keys _ claims (conclude-ok _ _ claims h2) in
      let (key, selected, accepted) = decode_with-valid n token _ claims h3 in
      record {
        keys = keys;
        kid = kid;
        key = key;
        offered = offered;
        named = named;
        selected = selected;
        accepted =
            subst
              (λ q.
                env.decode_token q token key settings.expected_audience settings.broker_issuer
                ≡ valid claims)
              (next_tick-ok _ n ticked) accepted;
      }
