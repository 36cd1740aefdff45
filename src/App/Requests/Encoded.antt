-- ===== src/App/Requests/Encoded.antt =====
-- The ccache in a response, read back as `renew` reads it.
use krb5_token_service.Prelude.{◌≡◌, some}
use krb5_token_service.Python.Base64.{b64decode}
use krb5_token_service.Python.Base64.Roundtrip.{AreBytes, b64decode-b64encode}
use krb5_token_service.Minting.Tickets.{MintedTicket}
use krb5_token_service.App.Requests.{mint_response}

-- Where the ccache is a list of numbers below 256, as bytes are: the `ccache_b64` of the response to
-- a mint or a renewal decodes to the bytes of the ccache, so that a later renewal is given the ccache
-- that was issued.
pub b64decode-mint_response :
    (minted : MintedTicket)
    → AreBytes minted.ccache
    → b64decode (mint_response minted).ccache_b64 ≡ some minted.ccache
unfolding mint_response
b64decode-mint_response minted h = b64decode-b64encode minted.ccache h
