-- ===== src/Minting/Classify/Ordered.antt =====
-- A classification is the first row of a table one of whose markers stands in the stderr text.
use krb5_token_service.Prelude.{
  ◌≡◌, ◌↔◌, refl, ◌⊎◌, inl, inr, true, Option, none, some, List, [], ◌∷◌, Text, codes, arith,
  IsWithin, occurs_iff, Bool-cases, if◌then◌else◌,
}
use krb5_token_service.Errors.{
  Failure, bad_password, bad_keytab, unknown_principal, account_unusable, ticket_expired,
}
use krb5_token_service.Minting.Classify.{
  mentions, account_revoked_detail, password_expired_detail, classify_password_stderr,
  classify_keytab_stderr, classify_renew_stderr, classify_cern_get_keytab_stderr,
}

-- Some marker stands in the text.
abbrev pub Mentions : List Text → Text → Type 0
Mentions [] stderr = ⊥
Mentions (marker ∷ markers) stderr = IsWithin marker stderr ⊎ Mentions markers stderr

mentions_iff :
    (stderr : Text) (markers : List Text)
    → (mentions stderr markers ≡ true) ↔ Mentions markers stderr
unfolding mentions
mentions_iff stderr [] = ground arith
mentions_iff stderr (marker ∷ markers) =
    ground (arith, occurs_iff marker stderr, mentions_iff stderr markers)

-- The failures of a kind of run, each with its markers.
abbrev pub Table : Type 0
Table = List (List Text × Failure)

-- The first row whose markers are mentioned decides, and without one nothing does.
pub data Classified (stderr : Text) (result : Option Failure) : Table → Type 0 where
  no_row : result ≡ none → Classified stderr result []
  this_row :
      {markers : List Text} {failure : Failure} {rows : Table}
      → Mentions markers stderr
      → result ≡ some failure
      → Classified stderr result ((markers, failure) ∷ rows)
  next_row :
      {markers : List Text} {failure : Failure} {rows : Table}
      → ¬ Mentions markers stderr
      → Classified stderr result rows
      → Classified stderr result ((markers, failure) ∷ rows)

Classified-if :
    (markers : List Text) (failure : Failure) (rows : Table) (stderr : Text) (rest : Option Failure)
    → Classified stderr rest rows
    → Classified stderr
        (if mentions stderr markers then some failure else rest)
        ((markers, failure) ∷ rows)
Classified-if markers failure rows stderr rest k = elim (Bool-cases (mentions stderr markers)) [
  | inl found ↦ this_row ((mentions_iff stderr markers).0 found) (rw found refl)
  | inr missing ↦ next_row (λ m. cc ((mentions_iff stderr markers).1 m)) (rw missing k)
]

-- kinit with a password
abbrev pub password_table : Table
password_table =
    (codes "Password incorrect" ∷ [], bad_password (codes "bad password"))
    ∷ (codes "not found in Kerberos database" ∷ [], unknown_principal (codes "unknown principal"))
    ∷ (codes "credentials have been revoked" ∷ [], account_unusable account_revoked_detail)
    ∷ (codes "Password has expired" ∷ [], account_unusable password_expired_detail)
    ∷ []

-- kinit with a keytab
abbrev pub keytab_table : Table
keytab_table =
    (
      codes "Preauthentication failed" ∷ codes "Decrypt integrity check failed" ∷ [],
      bad_keytab (codes "bad keytab"),
    )
    ∷ (codes "not found in Kerberos database" ∷ [], unknown_principal (codes "unknown principal"))
    ∷ (codes "credentials have been revoked" ∷ [], account_unusable account_revoked_detail)
    ∷ []

-- kinit -R
abbrev pub renew_table : Table
renew_table =
    (codes "Ticket expired" ∷ [], ticket_expired (codes "ticket no longer renewable")) ∷ []

-- cern-get-keytab
abbrev pub cern_get_keytab_table : Table
cern_get_keytab_table =
    (
      codes "Preauthentication failed"
          ∷ codes "Decrypt integrity check failed"
          ∷ codes "Could not find any credentials to authenticate with"
          ∷ [],
      bad_password (codes "bad password"),
    )
    ∷ []

-- Each of the four classifications of a stderr text is that of its table: the first row one of whose
-- markers stands somewhere in the text gives the failure, and a text with no marker of the table gives
-- none.
pub classify-Classified :
    (stderr : Text)
    → Classified stderr (classify_password_stderr stderr) password_table
      × Classified stderr (classify_keytab_stderr stderr) keytab_table
      × Classified stderr (classify_renew_stderr stderr) renew_table
      × Classified stderr (classify_cern_get_keytab_stderr stderr) cern_get_keytab_table
unfolding classify_password_stderr classify_keytab_stderr classify_renew_stderr
    classify_cern_get_keytab_stderr
classify-Classified stderr = (
  Classified-if _ _ _ stderr _ (
      Classified-if _ _ _ stderr _
        (Classified-if _ _ _ stderr _ (Classified-if _ _ _ stderr _ (no_row refl)))),
  Classified-if _ _ _ stderr _
      (Classified-if _ _ _ stderr _ (Classified-if _ _ _ stderr _ (no_row refl))),
  Classified-if _ _ _ stderr _ (no_row refl),
  Classified-if _ _ _ stderr _ (no_row refl),
)
