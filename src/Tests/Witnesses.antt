-- ===== src/Tests/Witnesses.antt =====
-- The theorems at inputs that meet their hypotheses.
use krb5_token_service.Exec.Returns.{IsRaised}
use krb5_token_service.Prelude.Dict
use krb5_token_service.Prelude.{
  ◌*◌, ◌+◌, ◌-◌, ◌↔◌, text_eq, All, begins, ℕ, ◌≡◌, ◌≢◌, ◌≤◌, refl, arith, true, false, none, some,
  List, [], ◌∷◌, Text, codes, length, keep, if◌then◌else◌, ltb, ◌==◌,
}
use krb5_token_service.Python.Utf8.{decode}
use krb5_token_service.Errors.{ok}
use krb5_token_service.World.{World, Principal, Credential, readable, JwksEntry, ticks_per_second}
use krb5_token_service.Settings.{default_settings}
use krb5_token_service.RateLimit.{
  RateLimiter, new_limiter, check, record_failure, reset, passes, limited,
}
use krb5_token_service.RateLimit.Lockout.{check-record_failure_locked, check_other}
use krb5_token_service.RateLimit.Attempts.{Attempt, wrong, kdc_log}
use krb5_token_service.RateLimit.Attempts.Counting.{within}
use krb5_token_service.RateLimit.Attempts.Budget.{kdc_log-le-max_attempts}
use krb5_token_service.Minting.Names.{validate_username, validate_lifetime}
use krb5_token_service.Minting.Names.Usernames.{
  IsUsername, IsPlain, validate_username_iff, validate_username-IsPlain,
}
use krb5_token_service.Minting.Names.Lifetimes.{Duration, IsDuration, print, validate_lifetime_iff}
use krb5_token_service.Minting.Tickets.{MintedTicket, mint_ticket}
use krb5_token_service.Minting.Tickets.Secrets.{stdin_of, Zeroed-mint_ticket}
use krb5_token_service.Minting.Keytabs.{mint_keytab}
use krb5_token_service.Minting.Keytabs.Secrets.{Zeroed-mint_keytab}
use krb5_token_service.System.Zeroed.{Zeroed}
use krb5_token_service.Ccache.{CcacheInfo, parse_ccache}
use krb5_token_service.Ccache.Tickets.{First, parse_ccache_iff}
use krb5_token_service.App.Requests.{RenewRequest, mint_response}
use krb5_token_service.App.Requests.Encoded.{b64decode-mint_response}
use krb5_token_service.Python.Base64.{b64decode}
use krb5_token_service.App.Audits.{Audited, audit_log}
use krb5_token_service.App.Attempts.{Attempted}
use krb5_token_service.App.Mint.{mint}
use krb5_token_service.App.Mint.Blocked.{mint-IsRaised}
use krb5_token_service.App.Keytab.Blocked.{keytab-IsRaised}
use krb5_token_service.App.Mint.Audited.{mint-Audited}
use krb5_token_service.App.Mint.Attempted.{mint-Attempted}
use krb5_token_service.App.Mint.Unlimited.{mint-limiter}
use krb5_token_service.App.Keytab.{keytab}
use krb5_token_service.App.Keytab.Audited.{keytab-Audited}
use krb5_token_service.App.Keytab.Attempted.{keytab-Attempted}
use krb5_token_service.App.Renew.{renew}
use krb5_token_service.App.Renew.Audited.{renew-Audited}
use krb5_token_service.App.Renew.Unlimited.{renew-limiter}
use krb5_token_service.App.Health.{create_app, readyz}
use krb5_token_service.App.Health.Ready.{asked, IsReadyIf, readyz_iff}
use krb5_token_service.Identity.{get_jwks, select_jwk}
use krb5_token_service.Identity.Given.{AreThere}
use krb5_token_service.Identity.Keys.{
  offered, cache_after, keys_or, get_jwks-stale, Selected, select_jwk-Selected,
}
use krb5_token_service.Logging.{redact, redacted_keys}
use krb5_token_service.Logging.Redacted.{hidden, is_among, lookup-redact}
use krb5_token_service.Tests.Sample.{
  outside, request, by_password, by_keytab, for_keytab, principal, cache, key,
}

abbrev user : Text
user = codes "gstark"

abbrev guess : ℕ → Attempt
guess t = record { username = user; started = t; finished = t; answer = wrong }

-- Five guesses, a second apart, at a limiter of three attempts.
abbrev guesses : List Attempt
guesses = guess 1 ∷ guess 2 ∷ guess 3 ∷ guess 4 ∷ guess 5 ∷ []

kdc_log-le-max_attempts_example :
    length (keep (within 900 3) (kdc_log user guesses (new_limiter 3 900 900) [])) ≤ 3
kdc_log-le-max_attempts_example =
    kdc_log-le-max_attempts 3 900 900 user 0 guesses 3 (omega arith) (omega arith) (
      omega arith,
      omega arith,
      (
        omega arith,
        omega arith,
        (omega arith, omega arith, (omega arith, omega arith, (omega arith, omega arith, tt))),
      ),
    )

-- The limiter after two failures.
abbrev twice_failed : RateLimiter
twice_failed = record {
  max_attempts = 3;
  window_seconds = 900;
  lockout_seconds = 900;
  state = (user, record { failure_times = 10 ∷ 20 ∷ []; locked_until = none }) ∷ [];
}

check-record_failure_locked_example :
    (check 100 user (record_failure 30 user twice_failed)).0
    ≡ (if ltb 100 (30 + 900) then limited (30 + 900 - 100) else passes)
unfolding Dict.lookup text_eq
check-record_failure_locked_example =
    check-record_failure_locked 30 100 user twice_failed (omega arith)

check_other_example :
    ((check 100 (codes "other") (check 30 user twice_failed).1).0
      ≡ (check 100 (codes "other") twice_failed).0)
    × ((check 100 (codes "other") (record_failure 30 user twice_failed)).0
        ≡ (check 100 (codes "other") twice_failed).0)
    × ((check 100 (codes "other") (reset user twice_failed)).0
        ≡ (check 100 (codes "other") twice_failed).0)
check_other_example = check_other 30 100 user (codes "other") twice_failed (λ e. cc e)

validate_username_iff_example : (validate_username user ≡ ok tt) ↔ IsUsername user
validate_username_iff_example = validate_username_iff user

validate_username-IsPlain_example : All IsPlain user × (begins (codes "-") user ≡ false)
unfolding validate_username
validate_username-IsPlain_example = validate_username-IsPlain user refl

validate_lifetime_iff_example :
    (validate_lifetime (codes "8h30s") ≡ ok tt)
    ↔ ((codes "8h30s" ≢ []) × ((d : Duration) × IsDuration d × (codes "8h30s" ≡ print d)))
validate_lifetime_iff_example = validate_lifetime_iff (codes "8h30s")

abbrev info : CcacheInfo
info = record {
  principal = codes "gstark@CERN.CH";
  realm = codes "CERN.CH";
  expires_at = 1709210096;
  renew_until = some 1709814896;
}

abbrev owner : Principal
owner = principal (codes "gstark@CERN.CH")

parse_ccache_iff_example : (parse_ccache (readable owner cache) ≡ ok info) ↔ (
    (realm : Text) × (c : Credential) × (decode owner.realm ≡ some realm)
    × First realm c cache
    × (info ≡ record {
      principal = owner.display;
      realm = realm;
      expires_at = c.endtime;
      renew_until = if c.renew_till == 0 then none else some c.renew_till;
    }))
parse_ccache_iff_example = parse_ccache_iff owner cache info

-- The service with a secret in its first buffer.
abbrev started : World
started = record (create_app default_settings) { buffers = codes "secret" ∷ [] }

Zeroed-mint_ticket_example :
    let w' =
      (mint_ticket outside default_settings user
        (codes "24h")
        (codes "7d")
        (some 0)
        none
        started).1 in
    Zeroed (stdin_of (some 0) started) w' × Zeroed (some 0) w' × Zeroed none w'
Zeroed-mint_ticket_example =
    Zeroed-mint_ticket outside default_settings user (codes "24h") (codes "7d") (some 0) none
      started (λ e. cc e) refl

Zeroed-mint_keytab_example :
    let w' = (mint_keytab outside default_settings user 0 started).1 in
    Zeroed (some (length started.buffers)) w' × Zeroed (some 0) w'
Zeroed-mint_keytab_example = Zeroed-mint_keytab outside default_settings user 0 started refl

mint-Audited_example :
    let out =
      mint outside default_settings
        (by_password (codes "wrong"))
        request
        (create_app default_settings) in
    Audited out.0 (audit_log (create_app default_settings)) (audit_log out.1)
mint-Audited_example =
    mint-Audited outside default_settings (by_password (codes "wrong")) request
      (create_app default_settings)

mint-Attempted_example :
    let out =
      mint outside default_settings
        (record by_keytab { password = some (codes "wrong") })
        request
        (create_app default_settings) in
    Attempted outside user out.0 (create_app default_settings) out.1
mint-Attempted_example =
    mint-Attempted outside default_settings by_keytab (codes "wrong") request
      (create_app default_settings)

mint-limiter_example :
    (mint outside default_settings by_keytab request (create_app default_settings)).1.limiter
    ≡ (create_app default_settings).limiter
mint-limiter_example =
    mint-limiter outside default_settings by_keytab request (create_app default_settings)

keytab-Audited_example :
    let out = keytab outside default_settings for_keytab request (create_app default_settings) in
    Audited out.0 (audit_log (create_app default_settings)) (audit_log out.1)
keytab-Audited_example =
    keytab-Audited outside default_settings for_keytab request (create_app default_settings)

keytab-Attempted_example :
    let out = keytab outside default_settings for_keytab request (create_app default_settings) in
    Attempted outside user out.0 (create_app default_settings) out.1
keytab-Attempted_example =
    keytab-Attempted outside default_settings for_keytab request (create_app default_settings)

abbrev for_renewal : RenewRequest
for_renewal = record { ccache_b64 = codes "Q0M=" }

renew-Audited_example :
    let out = renew outside default_settings for_renewal request (create_app default_settings) in
    Audited out.0 (audit_log (create_app default_settings)) (audit_log out.1)
renew-Audited_example =
    renew-Audited outside default_settings for_renewal request (create_app default_settings)

renew-limiter_example :
    (renew outside default_settings for_renewal request (create_app default_settings)).1.limiter
    ≡ (create_app default_settings).limiter
renew-limiter_example =
    renew-limiter outside default_settings for_renewal request (create_app default_settings)

abbrev entry : JwksEntry
entry = record { keys = key ∷ []; fetched_at = 0 }

-- The service at a question when the entry is still fresh, and at one when it is not.
abbrev cached_at : ℕ → World
cached_at n = record (create_app default_settings) {
  jwks_cache = (default_settings.broker_jwks_url, entry) ∷ [];
  ticks = n;
}

get_jwks-stale_example :
    let out = get_jwks outside default_settings (cached_at 500) in
    (out.0
      ≡ ok (
          keys_or outside default_settings entry.keys
            (offered outside default_settings (cached_at 500))))
    × (out.1.jwks_cache
        ≡ cache_after outside default_settings
            (cached_at 500)
            (offered outside default_settings (cached_at 500)))
unfolding Dict.lookup text_eq
get_jwks-stale_example =
    get_jwks-stale outside default_settings (cached_at 500) entry refl refl refl

select_jwk-Selected_example :
    Selected (key ∷ []) (some (codes "k1")) (select_jwk (key ∷ []) (some (codes "k1")))
select_jwk-Selected_example = select_jwk-Selected (key ∷ []) (some (codes "k1"))

readyz_iff_example :
    IsReadyIf
      ((outside.has_executable 5 default_settings.kinit_bin ≡ true)
        × (outside.can_read 6 default_settings.krb5_config ≡ true)
        × AreThere outside default_settings (asked outside default_settings (cached_at 5)))
      (readyz outside default_settings (cached_at 5)).0
readyz_iff_example = readyz_iff outside default_settings (cached_at 5)

abbrev event : Dict.Dict Text
event = (codes "event", codes "oops") ∷ (codes "password", codes "secret") ∷ []

lookup-redact_example : Dict.lookup (codes "password") (redact event) ≡ (
    if is_among redacted_keys (codes "password")
    then hidden (Dict.lookup (codes "password") event)
    else Dict.lookup (codes "password") event)
lookup-redact_example = lookup-redact (codes "password") event

-- The service with the user locked for 1000 seconds from the clock's start.
abbrev locked_world : World
locked_world = record (create_app default_settings) {
  limiter = record (create_app default_settings).limiter {
    state =
        (user, record { failure_times = 1 ∷ 2 ∷ 3 ∷ []; locked_until = some 1000000000000 }) ∷ [];
  };
  ticks = 3;
}

locked_world-limited :
    (n : ℕ)
    → n ≤ 8
    → (t : ℕ) × ((check (outside.monotonic n) user locked_world.limiter).0 ≡ limited t)
unfolding check Dict.lookup text_eq
locked_world-limited n h =
    let early : ltb (n * ticks_per_second) 1000000000000 ≡ true = ground arith in
    (1000000000000 - n * ticks_per_second, rw early refl)

mint-IsRaised_example :
    let out =
      mint outside default_settings
        (record by_keytab { password = some (codes "secret") })
        request
        locked_world in
    IsRaised out.0 × (out.1.spawned ≡ locked_world.spawned)
mint-IsRaised_example =
    mint-IsRaised outside default_settings by_keytab (codes "secret") request locked_world
      locked_world-limited

keytab-IsRaised_example :
    let out = keytab outside default_settings for_keytab request locked_world in
    IsRaised out.0 × (out.1.spawned ≡ locked_world.spawned)
keytab-IsRaised_example =
    keytab-IsRaised outside default_settings for_keytab request locked_world locked_world-limited

abbrev minted : MintedTicket
minted = record {
  ccache = 5 ∷ 4 ∷ 255 ∷ 0 ∷ [];
  principal = codes "gstark@CERN.CH";
  realm = codes "CERN.CH";
  expires_at = 1709210096;
  renew_until = none;
}

b64decode-mint_response_example :
    b64decode (mint_response minted).ccache_b64 ≡ some (5 ∷ 4 ∷ 255 ∷ 0 ∷ [])
b64decode-mint_response_example =
    b64decode-mint_response minted (omega arith, (omega arith, (omega arith, (omega arith, tt))))
