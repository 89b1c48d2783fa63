-- ===== src/Protocol/Negotiation.antt =====
-- src/protocol/handshake/: the messages of the client before its request, as a server accepts them.
use socks5_impl.Prelude.{ℕ, ◌≡◌, ◌↔◌, List, [], ◌++◌, All, IsByte}
use socks5_impl.Stream.{ok}
use socks5_impl.Protocol.Handshake.Request as HandshakeRequest
use socks5_impl.Protocol.Handshake.Request.Accepted.{handshake_request_iff}
use socks5_impl.Protocol.Password.Request as PasswordRequest
use socks5_impl.Protocol.Password.Request.Accepted.{password_request_iff}

-- On bytes, the reader of the handshake request accepts exactly the encodings of at most 255 methods
-- that are numbered as their kinds say, none included, and the reader of the credentials exactly
-- those of two UTF-8 strings of at most 255 bytes, empty ones included; each leaves what follows.
pub negotiation_iff :
    (bs cs rest : List ℕ) (offer : HandshakeRequest.Request) (login : PasswordRequest.Request)
    → All IsByte bs
    → All IsByte cs
    → ((HandshakeRequest.retrieve_from_stream bs ≡ (ok offer, rest)) ↔ (
        (bs ≡ HandshakeRequest.write_to_buf offer [] ++ rest) × HandshakeRequest.IsWritable offer))
      × ((PasswordRequest.retrieve_from_stream cs ≡ (ok login, rest)) ↔ (
          (cs ≡ PasswordRequest.write_to_buf login [] ++ rest)
          × PasswordRequest.IsRequest login
          × PasswordRequest.IsWritable login))
negotiation_iff bs cs rest offer login h k =
    (handshake_request_iff bs rest offer h, password_request_iff cs rest login k)
