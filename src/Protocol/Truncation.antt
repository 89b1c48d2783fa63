-- ===== src/Protocol/Truncation.antt =====
-- src/protocol/: the messages, cut short.
use socks5_impl.Prelude.{ℕ, ◌<◌, ◌≡◌, List, [], length, take}
use socks5_impl.Stream.{err, eof}
use socks5_impl.Protocol.Operation.{StreamOperation, Lawful}
use socks5_impl.Protocol.Operation.Framing.{truncated}
use socks5_impl.Protocol.Request
use socks5_impl.Protocol.Request.Contract.{request_operation-Lawful}
use socks5_impl.Protocol.Response
use socks5_impl.Protocol.Response.Contract.{response_operation-Lawful}
use socks5_impl.Protocol.Udp
use socks5_impl.Protocol.Udp.Contract.{udp_header_operation-Lawful}
use socks5_impl.Protocol.Handshake.Request as HandshakeRequest
use socks5_impl.Protocol.Handshake.Request.Contract.{handshake_request_operation-Lawful}
use socks5_impl.Protocol.Handshake.Response as HandshakeResponse
use socks5_impl.Protocol.Handshake.Response.Contract.{handshake_response_operation-Lawful}
use socks5_impl.Protocol.Password.Request as PasswordRequest
use socks5_impl.Protocol.Password.Request.Contract.{password_request_operation-Lawful}
use socks5_impl.Protocol.Password.Response as PasswordResponse
use socks5_impl.Protocol.Password.Response.Contract.{password_response_operation-Lawful}

-- A message of the protocol, of any kind.
pub data Message : Type 0 where
  offer : HandshakeRequest.Request → Message
  choice : HandshakeResponse.Response → Message
  login : PasswordRequest.Request → Message
  outcome : PasswordResponse.Response → Message
  request : Request.Request → Message
  response : Response.Response → Message
  header : Udp.UdpHeader → Message

abbrev pub bytes : Message → List ℕ
bytes (offer x) = HandshakeRequest.write_to_buf x []
bytes (choice x) = HandshakeResponse.write_to_buf x []
bytes (login x) = PasswordRequest.write_to_buf x []
bytes (outcome x) = PasswordResponse.write_to_buf x []
bytes (request x) = Request.write_to_buf x []
bytes (response x) = Response.write_to_buf x []
bytes (header x) = Udp.write_to_buf x []

-- What the types of the source say of it, and that the wire format can carry it.
abbrev pub IsSent : Message → Type 0
IsSent (offer x) = HandshakeRequest.IsWritable x
IsSent (choice x) = HandshakeResponse.IsWritable x
IsSent (login x) = PasswordRequest.IsRequest x × PasswordRequest.IsWritable x
IsSent (outcome x) = Unit {0}
IsSent (request x) = Request.IsRequest x × Request.IsWritableRequest x
IsSent (response x) = Response.IsResponse x × Response.IsWritableResponse x
IsSent (header x) = Udp.IsUdpHeader x × Udp.IsWritableHeader x

-- Both readers of the kind of `x` answer `bs` by `UnexpectedEof`, and use it up.
abbrev pub RunsOut : Message → List ℕ → Type 0
RunsOut (offer x) bs =
    (HandshakeRequest.retrieve_from_stream bs ≡ (err eof, []))
    × (HandshakeRequest.retrieve_from_async_stream bs ≡ (err eof, []))
RunsOut (choice x) bs =
    (HandshakeResponse.retrieve_from_stream bs ≡ (err eof, []))
    × (HandshakeResponse.retrieve_from_async_stream bs ≡ (err eof, []))
RunsOut (login x) bs =
    (PasswordRequest.retrieve_from_stream bs ≡ (err eof, []))
    × (PasswordRequest.retrieve_from_async_stream bs ≡ (err eof, []))
RunsOut (outcome x) bs =
    (PasswordResponse.retrieve_from_stream bs ≡ (err eof, []))
    × (PasswordResponse.retrieve_from_async_stream bs ≡ (err eof, []))
RunsOut (request x) bs =
    (Request.retrieve_from_stream bs ≡ (err eof, []))
    × (Request.retrieve_from_async_stream bs ≡ (err eof, []))
RunsOut (response x) bs =
    (Response.retrieve_from_stream bs ≡ (err eof, []))
    × (Response.retrieve_from_async_stream bs ≡ (err eof, []))
RunsOut (header x) bs =
    (Udp.retrieve_from_stream bs ≡ (err eof, []))
    × (Udp.retrieve_from_async_stream bs ≡ (err eof, []))

-- The same of a message by its bytes instead of `len`.
truncated_bytes :
    {T : Type 0} {op : StreamOperation T} {IsValid IsWritable : T → Type 0}
    (law : Lawful op IsValid IsWritable) (x : T) (n : ℕ)
    → IsValid x
    → IsWritable x
    → n < length (op.write_to_buf x [])
    → (op.retrieve_from_stream (take n (op.write_to_buf x [])) ≡ (err eof, []))
      × (op.retrieve_from_async_stream (take n (op.write_to_buf x [])) ≡ (err eof, []))
truncated_bytes law x n h w short = truncated law x n h w (rw (law.measures x h) at short)

-- A message of any kind, well-formed and writable, that is cut short anywhere is answered by
-- `UnexpectedEof` by both readers of its kind, which use up what there is.
pub messages_truncated :
    (message : Message) (n : ℕ)
    → IsSent message
    → n < length (bytes message)
    → RunsOut message (take n (bytes message))
messages_truncated (offer x) n w short =
    truncated_bytes handshake_request_operation-Lawful x n tt w short
messages_truncated (choice x) n w short =
    truncated_bytes handshake_response_operation-Lawful x n tt w short
messages_truncated (login x) n (h, w) short =
    truncated_bytes password_request_operation-Lawful x n h w short
messages_truncated (outcome x) n w short =
    truncated_bytes password_response_operation-Lawful x n tt tt short
messages_truncated (request x) n (h, w) short =
    truncated_bytes request_operation-Lawful x n h w short
messages_truncated (response x) n (h, w) short =
    truncated_bytes response_operation-Lawful x n h w short
messages_truncated (header x) n (h, w) short =
    truncated_bytes udp_header_operation-Lawful x n h w short
