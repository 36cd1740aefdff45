-- ===== src/Identity/Client.antt =====
-- `_get_http_client` of src/krb5_token_service/identity.py. A client is the number of its creation.
use krb5_token_service.Prelude.{ℕ, suc, ◌≡◌, refl, Option, none, some}

-- `_http_client`, and how many clients there are.
pub record Clients : Type 0 where
  pub current : Option ℕ
  pub created : ℕ

client_of : Option ℕ → Clients → ℕ × Clients
client_of none s = (s.created, record { current = some s.created; created = suc s.created })
client_of (some client) s = (client, s)

unfoldable pub get_http_client : Clients → ℕ × Clients
unfolding client_of
get_http_client s = client_of s.current s

-- A second call gives the client of the first, and makes none.
pub get_http_client-get_http_client :
    (s : Clients) → let out = get_http_client s in get_http_client out.1 ≡ out
unfolding get_http_client client_of
get_http_client-get_http_client s = of s.current refl
  where
    of :
        (o : Option ℕ)
        → s.current ≡ o
        → client_of (client_of s.current s).1.current (client_of s.current s).1
          ≡ client_of s.current s
    of none e = rw e refl
    of (some c) e = rw e refl
