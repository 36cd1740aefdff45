-- ===== src/Ccache/Tickets.antt =====
-- Which credential of a ccache is reported.
use krb5_token_service.Prelude.{
  ◌≡◌, ◌≢◌, refl, ◌↔◌, inl, inr, Option, none, some, arith, if◌then◌else◌, Text, text_eq,
  text_eq_iff, Bool-cases, ◌==◌,
}
use krb5_token_service.Python.Utf8.{decode}
use krb5_token_service.Errors.{ok}
use krb5_token_service.World.{Principal, Credential, Credentials, finished, broken, next, readable}
use krb5_token_service.Ccache.{
  CcacheInfo, config_entry_realm, tgt_server, find_tgt, with_realm, parse_ccache, ticket_info,
}

-- The credential is a ticket-granting ticket of the realm, and not a config entry.
abbrev pub IsTgt : Text → Credential → Type 0
IsTgt realm c = (c.server.realm ≢ config_entry_realm) × (c.server.display ≡ tgt_server realm)

-- It is the first such credential, and the ones before it could be read.
pub data First (realm : Text) (c : Credential) : Credentials → Type 0 where
  here : {rest : Credentials} → IsTgt realm c → First realm c (next c rest)
  there :
      {d : Credential} {rest : Credentials}
      → ¬ IsTgt realm d
      → First realm c rest
      → First realm c (next d rest)

find_tgt-First :
    (realm : Text) (p : Principal) (cs : Credentials) (info : CcacheInfo)
    → find_tgt realm p cs ≡ ok info
    → (c : Credential) × First realm c cs × (info ≡ ticket_info realm p c)
unfolding find_tgt
find_tgt-First realm p finished info h = cc
find_tgt-First realm p (broken why) info h = cc
find_tgt-First realm p (next d rest) info h =
    elim (Bool-cases (text_eq d.server.realm config_entry_realm)) [
      | inl config ↦
          let (c, first, same) = find_tgt-First realm p rest info (rw config at h) in
          (c, there (λ t. t.0 ((text_eq_iff _ _).0 config)) first, same)
      | inr ticket ↦ elim (Bool-cases (text_eq d.server.display (tgt_server realm))) [
        | inl tgt ↦ (
          d,
          here (
            ground (arith, text_eq_iff d.server.realm config_entry_realm),
            (text_eq_iff _ _).0 tgt,
          ),
          ground arith,
        )
        | inr other ↦
            let (c, first, same) = find_tgt-First realm p rest info (rw (ticket, other) at h) in
            (c, there (λ t. cc ((text_eq_iff _ _).1 t.1)) first, same)
      ]
    ]

First-find_tgt :
    (realm : Text) (p : Principal) (c : Credential) (cs : Credentials)
    → First realm c cs
    → find_tgt realm p cs ≡ ok (ticket_info realm p c)
unfolding find_tgt
First-find_tgt realm p c _ (here {rest} (real, tgt)) = ground (
  arith,
  text_eq_iff c.server.realm config_entry_realm,
  text_eq_iff c.server.display (tgt_server realm),
)
First-find_tgt realm p c _ (there {d} {rest} not_d first) = ground (
  arith,
  not_d,
  First-find_tgt realm p c rest first,
  text_eq_iff d.server.realm config_entry_realm,
  text_eq_iff d.server.display (tgt_server realm),
)

-- What is read from a ccache is exactly the first ticket-granting ticket of its default principal's
-- realm that is no config entry: the principal, its realm, the ticket's end time, and its renewal
-- time unless that is 0.
pub parse_ccache_iff :
    (p : Principal) (cs : Credentials) (info : CcacheInfo)
    → (parse_ccache (readable p cs) ≡ ok info) ↔ (
        (realm : Text) × (c : Credential) × (decode p.realm ≡ some realm)
        × First realm c cs
        × (info ≡ record {
          principal = p.display;
          realm = realm;
          expires_at = c.endtime;
          renew_until = if c.renew_till == 0 then none else some c.renew_till;
        }))
unfolding parse_ccache
parse_ccache_iff p cs info = (to (decode p.realm) refl, from)
  where
    to :
        (o : Option Text)
        → decode p.realm ≡ o
        → with_realm (decode p.realm) p cs ≡ ok info
        → (realm : Text) × (c : Credential) × (decode p.realm ≡ some realm)
          × First realm c cs
          × (info ≡ ticket_info realm p c)
    to none e h = cc
    to (some realm) e h =
        let (c, first, same) = find_tgt-First realm p cs info (rw e at h) in
        (realm, c, e, first, same)

    from :
        (realm : Text) × (c : Credential) × (decode p.realm ≡ some realm)
          × First realm c cs
          × (info ≡ ticket_info realm p c)
        → with_realm (decode p.realm) p cs ≡ ok info
    from (realm, c, e, first, same) = rw (e, same) (First-find_tgt realm p c cs first)
