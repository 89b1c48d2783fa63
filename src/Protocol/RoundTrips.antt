-- ===== src/Protocol/RoundTrips.antt =====
-- src/protocol/: the messages, written and read again.
use socks5_impl.Prelude.{ℕ, ◌≡◌, List, [], ◌++◌, length}
use socks5_impl.Stream.{ok}
use socks5_impl.Protocol.Operation.{StreamOperation}
use socks5_impl.Protocol.Operation.Framing.{round_trip}
use socks5_impl.Protocol.Address
use socks5_impl.Protocol.Address.{Address}
use socks5_impl.Protocol.Address.Contract.{address_operation-Lawful}
use socks5_impl.Protocol.Request
use socks5_impl.Protocol.Request.{request_operation}
use socks5_impl.Protocol.Request.Contract.{request_operation-Lawful}
use socks5_impl.Protocol.Response
use socks5_impl.Protocol.Response.{response_operation}
use socks5_impl.Protocol.Response.Contract.{response_operation-Lawful}
use socks5_impl.Protocol.Udp
use socks5_impl.Protocol.Udp.{udp_header_operation}
use socks5_impl.Protocol.Udp.Contract.{udp_header_operation-Lawful}
use socks5_impl.Protocol.Handshake.Request as HandshakeRequest
use socks5_impl.Protocol.Handshake.Request.{handshake_request_operation}
use socks5_impl.Protocol.Handshake.Request.Contract.{handshake_request_operation-Lawful}
use socks5_impl.Protocol.Handshake.Response as HandshakeResponse
use socks5_impl.Protocol.Handshake.Response.{handshake_response_operation}
use socks5_impl.Protocol.Handshake.Response.Contract.{handshake_response_operation-Lawful}
use socks5_impl.Protocol.Password.Request as PasswordRequest
use socks5_impl.Protocol.Password.Request.{password_request_operation}
use socks5_impl.Protocol.Password.Request.Contract.{password_request_operation-Lawful}
use socks5_impl.Protocol.Password.Response as PasswordResponse
use socks5_impl.Protocol.Password.Response.{password_response_operation}
use socks5_impl.Protocol.Password.Response.Contract.{password_response_operation-Lawful}

-- What `x` is written to is read back by both readers from the front of any input, and `len` is the
-- number of its bytes.
abbrev pub ReadsBack : {T : Type 0} → StreamOperation T → T → List ℕ → Type 0
ReadsBack op x rest =
    (op.retrieve_from_stream (op.write_to_buf x [] ++ rest) ≡ (ok x, rest))
    × (op.retrieve_from_async_stream (op.write_to_buf x [] ++ rest) ≡ (ok x, rest))
    × (length (op.write_to_buf x []) ≡ op.len x)

-- The messages of a client are read back by both readers of the library from the front of any input,
-- and `len` is the number of their bytes: a handshake request of at most 255 methods, each numbered
-- as its kind says, credentials of at most 255 bytes each, a request and a UDP header with writable
-- addresses.
pub client_messages_round_trip :
    (offer : HandshakeRequest.Request) (login : PasswordRequest.Request) (req : Request.Request)
    (header : Udp.UdpHeader) (rest : List ℕ)
    → HandshakeRequest.IsWritable offer
    → PasswordRequest.IsRequest login
    → PasswordRequest.IsWritable login
    → Request.IsRequest req
    → Request.IsWritableRequest req
    → Udp.IsUdpHeader header
    → Udp.IsWritableHeader header
    → ReadsBack handshake_request_operation offer rest
      × ReadsBack password_request_operation login rest
      × ReadsBack request_operation req rest
      × ReadsBack udp_header_operation header rest
client_messages_round_trip offer login req header rest wo hl wl hr wr hh wh = (
  round_trip handshake_request_operation-Lawful offer rest tt wo,
  round_trip password_request_operation-Lawful login rest hl wl,
  round_trip request_operation-Lawful req rest hr wr,
  round_trip udp_header_operation-Lawful header rest hh wh,
)

-- The messages of a server are read back by both readers of the library from the front of any input,
-- and `len` is the number of their bytes: a handshake response with a method numbered as its kind
-- says, the answer to credentials, and a response with a writable address.
pub server_messages_round_trip :
    (choice : HandshakeResponse.Response) (outcome : PasswordResponse.Response)
    (resp : Response.Response) (rest : List ℕ)
    → HandshakeResponse.IsWritable choice
    → Response.IsResponse resp
    → Response.IsWritableResponse resp
    → ReadsBack handshake_response_operation choice rest
      × ReadsBack password_response_operation outcome rest
      × ReadsBack response_operation resp rest
server_messages_round_trip choice outcome resp rest wc hr wr = (
  round_trip handshake_response_operation-Lawful choice rest tt wc,
  round_trip password_response_operation-Lawful outcome rest tt tt,
  round_trip response_operation-Lawful resp rest hr wr,
)

-- The blocking and the async reader of an address and of each message answer every input alike,
-- and leave the same bytes.
pub readers_agree :
    (bs : List ℕ)
    → (Address.retrieve_from_async_stream bs ≡ Address.retrieve_from_stream bs)
      × (Request.retrieve_from_async_stream bs ≡ Request.retrieve_from_stream bs)
      × (Response.retrieve_from_async_stream bs ≡ Response.retrieve_from_stream bs)
      × (Udp.retrieve_from_async_stream bs ≡ Udp.retrieve_from_stream bs)
      × (HandshakeRequest.retrieve_from_async_stream bs ≡ HandshakeRequest.retrieve_from_stream bs)
      × (HandshakeResponse.retrieve_from_async_stream bs
          ≡ HandshakeResponse.retrieve_from_stream bs)
      × (PasswordRequest.retrieve_from_async_stream bs ≡ PasswordRequest.retrieve_from_stream bs)
      × (PasswordResponse.retrieve_from_async_stream bs ≡ PasswordResponse.retrieve_from_stream bs)
readers_agree bs = (
  address_operation-Lawful.async_agrees bs,
  request_operation-Lawful.async_agrees bs,
  response_operation-Lawful.async_agrees bs,
  udp_header_operation-Lawful.async_agrees bs,
  handshake_request_operation-Lawful.async_agrees bs,
  handshake_response_operation-Lawful.async_agrees bs,
  password_request_operation-Lawful.async_agrees bs,
  password_response_operation-Lawful.async_agrees bs,
)
