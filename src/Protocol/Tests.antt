-- ===== src/Protocol/Tests.antt =====
-- src/protocol/: the messages on concrete bytes.
use socks5_impl.Prelude.{
  ℕ, ◌≤◌, ◌<◌, ◌≡◌, ◌↔◌, refl, List, [], ◌∷◌, ◌++◌, length, none, take, drop, arith,
}
use socks5_impl.Stream.{ok, err, eof, read_exact}
use socks5_impl.Protocol.Truncation.{request, messages_truncated}
use socks5_impl.Protocol.Address
use socks5_impl.Protocol.Address.{Address, domain_address, IsWritable}
use socks5_impl.Protocol.Address.Decode as Decode
use socks5_impl.Protocol.Address.Decode.{retrieve-Took}
use socks5_impl.Protocol.Address.Contract.{retrieve-write_iff}
use socks5_impl.Protocol.AddressType
use socks5_impl.Protocol.Version
use socks5_impl.Protocol.Version.{require_v5}
use socks5_impl.Protocol.Command
use socks5_impl.Protocol.Reply
use socks5_impl.Protocol.Request
use socks5_impl.Protocol.Request.{request_operation}
use socks5_impl.Protocol.Request.Accepted as RequestAccepted
use socks5_impl.Protocol.Request.Accepted.{request-Took}
use socks5_impl.Protocol.Response
use socks5_impl.Protocol.Response.Accepted as ResponseAccepted
use socks5_impl.Protocol.Response.Accepted.{response-Took}
use socks5_impl.Protocol.Udp
use socks5_impl.Protocol.Udp.Accepted.{header-fits}
use socks5_impl.Protocol.Handshake.AuthMethod.{no_auth, user_pass, private}
use socks5_impl.Protocol.Handshake.Request as HandshakeRequest
use socks5_impl.Protocol.Handshake.Response as HandshakeResponse
use socks5_impl.Protocol.Password.Request as PasswordRequest
use socks5_impl.Protocol.Password.Response as PasswordResponse
use socks5_impl.Protocol.Password.Status
use socks5_impl.Protocol.Codes.{codes_iff}
use socks5_impl.Protocol.RoundTrips.{
  ReadsBack, client_messages_round_trip, server_messages_round_trip, readers_agree,
}
use socks5_impl.Protocol.Negotiation.{negotiation_iff}
use socks5_impl.Protocol.Response.{response_operation}
use socks5_impl.Protocol.Udp.{udp_header_operation}
use socks5_impl.Protocol.Handshake.Request.{handshake_request_operation}
use socks5_impl.Protocol.Handshake.Response.{handshake_response_operation}
use socks5_impl.Protocol.Password.Request.{password_request_operation}
use socks5_impl.Protocol.Password.Response.{password_response_operation}
use socks5_impl.Protocol.Address.Convert.{address_of_text, show}
use socks5_impl.Protocol.Address.Text.{show_u16, address_of_text-show}
use socks5_impl.Samples.{
  std, site, site-IsAddress, site-IsWritable, bound, bound-IsAddress, me, me-IsUserKey,
  me-IsWritableKey,
}

retrieve-write_iff_example :
    (Address.retrieve_from_stream (Address.write_to_buf site [] ++ (7 ∷ [])) ≡ (ok site, 7 ∷ []))
    ↔ IsWritable site
retrieve-write_iff_example = retrieve-write_iff site (7 ∷ []) site-IsAddress (omega arith)

-- `10.0.0.7:1080`, and a byte behind it.
abbrev address_bytes : List ℕ
address_bytes = 0x01 ∷ 10 ∷ 0 ∷ 0 ∷ 7 ∷ 0x04 ∷ 0x38 ∷ 0xaa ∷ []

address_read : Address.retrieve_from_stream address_bytes ≡ (ok bound, 0xaa ∷ [])
unfolding Address.retrieve_from_stream AddressType.try_from read_exact
address_read = refl

retrieve-Took_example : Decode.Took address_bytes bound (0xaa ∷ [])
retrieve-Took_example = retrieve-Took address_bytes (0xaa ∷ []) bound (omega arith) address_read

-- A request whose reserved byte is not zero.
abbrev request_bytes : List ℕ
request_bytes = 0x05 ∷ 0x01 ∷ 0x77 ∷ address_bytes

request_read :
    Request.retrieve_from_stream request_bytes ≡ (ok (Request.new Command.connect bound), 0xaa ∷ [])
unfolding Request.retrieve_from_stream Address.retrieve_from_stream AddressType.try_from
    Version.try_from require_v5 Command.try_from read_exact
request_read = refl

request-Took_example :
    RequestAccepted.Took request_bytes (Request.new Command.connect bound) (0xaa ∷ [])
request-Took_example = request-Took request_bytes (0xaa ∷ []) _ (omega arith) request_read

abbrev response_bytes : List ℕ
response_bytes = 0x05 ∷ 0x05 ∷ 0x00 ∷ address_bytes

response_read :
    Response.retrieve_from_stream response_bytes
    ≡ (ok (Response.new Reply.connection_refused bound), 0xaa ∷ [])
unfolding Response.retrieve_from_stream Address.retrieve_from_stream AddressType.try_from
    Version.try_from require_v5 Reply.try_from read_exact
response_read = refl

response-Took_example :
    ResponseAccepted.Took response_bytes (Response.new Reply.connection_refused bound) (0xaa ∷ [])
response-Took_example = response-Took response_bytes (0xaa ∷ []) _ (omega arith) response_read

abbrev packet_bytes : List ℕ
packet_bytes = 0x00 ∷ 0x00 ∷ 0x02 ∷ address_bytes

header_read : Udp.retrieve_from_stream packet_bytes ≡ (ok (Udp.new 2 bound), 0xaa ∷ [])
unfolding Udp.retrieve_from_stream Address.retrieve_from_stream AddressType.try_from read_exact
header_read = refl

header-fits_example :
    (Udp.len (Udp.new 2 bound) ≤ length packet_bytes)
    × (drop (Udp.len (Udp.new 2 bound)) packet_bytes ≡ 0xaa ∷ [])
header-fits_example =
    header-fits packet_bytes (0xaa ∷ []) (Udp.new 2 bound) (omega arith) header_read

abbrev to_site : Request.Request
to_site = Request.new Command.connect site

abbrev granted : Response.Response
granted = Response.new Reply.succeeded bound

abbrev header : Udp.UdpHeader
header = Udp.new 3 site

abbrev offer : HandshakeRequest.Request
offer = HandshakeRequest.new (no_auth ∷ private 0x90 ∷ [])

abbrev choice : HandshakeResponse.Response
choice = HandshakeResponse.new user_pass

abbrev login : PasswordRequest.Request
login = PasswordRequest.new me.username me.password

abbrev refusal : PasswordResponse.Response
refusal = PasswordResponse.new Status.failed

client_messages_round_trip_example :
    ReadsBack handshake_request_operation offer (7 ∷ [])
    × ReadsBack password_request_operation login (7 ∷ [])
    × ReadsBack request_operation to_site (7 ∷ [])
    × ReadsBack udp_header_operation header (7 ∷ [])
client_messages_round_trip_example =
    client_messages_round_trip offer login to_site header (7 ∷ [])
      (omega arith, (tt, (omega arith, tt))) me-IsUserKey me-IsWritableKey site-IsAddress
      site-IsWritable site-IsAddress site-IsWritable

server_messages_round_trip_example :
    ReadsBack handshake_response_operation choice (7 ∷ [])
    × ReadsBack password_response_operation refusal (7 ∷ [])
    × ReadsBack response_operation granted (7 ∷ [])
server_messages_round_trip_example =
    server_messages_round_trip choice refusal granted (7 ∷ []) tt bound-IsAddress tt

readers_agree_example :
    (Address.retrieve_from_async_stream request_bytes ≡ Address.retrieve_from_stream request_bytes)
    × (Request.retrieve_from_async_stream request_bytes
        ≡ Request.retrieve_from_stream request_bytes)
    × (Response.retrieve_from_async_stream request_bytes
        ≡ Response.retrieve_from_stream request_bytes)
    × (Udp.retrieve_from_async_stream request_bytes ≡ Udp.retrieve_from_stream request_bytes)
    × (HandshakeRequest.retrieve_from_async_stream request_bytes
        ≡ HandshakeRequest.retrieve_from_stream request_bytes)
    × (HandshakeResponse.retrieve_from_async_stream request_bytes
        ≡ HandshakeResponse.retrieve_from_stream request_bytes)
    × (PasswordRequest.retrieve_from_async_stream request_bytes
        ≡ PasswordRequest.retrieve_from_stream request_bytes)
    × (PasswordResponse.retrieve_from_async_stream request_bytes
        ≡ PasswordResponse.retrieve_from_stream request_bytes)
readers_agree_example = readers_agree request_bytes

six_of_them : 6 < length (Request.write_to_buf to_site [])
unfolding Request.write_to_buf Address.write_to_buf
six_of_them = omega arith

messages_truncated_example :
    (Request.retrieve_from_stream (take 6 (Request.write_to_buf to_site [])) ≡ (err eof, []))
    × (Request.retrieve_from_async_stream (take 6 (Request.write_to_buf to_site []))
        ≡ (err eof, []))
messages_truncated_example =
    messages_truncated (request to_site) 6 (site-IsAddress, site-IsWritable) six_of_them

codes_iff_example :
    ((Version.try_from 5 ≡ ok Version.v5) ↔ (Version.to_u8 Version.v5 ≡ 5))
    × ((Command.try_from 5 ≡ ok Command.bind) ↔ (Command.to_u8 Command.bind ≡ 5))
    × ((Reply.try_from 5 ≡ ok Reply.connection_refused)
        ↔ (Reply.to_u8 Reply.connection_refused ≡ 5))
    × ((AddressType.try_from 5 ≡ ok AddressType.ipv6) ↔ (AddressType.to_u8 AddressType.ipv6 ≡ 5))
    × ((Status.try_from 5 ≡ ok Status.failed) ↔ (Status.to_u8 Status.failed ≡ 5))
codes_iff_example =
    codes_iff 5 Version.v5 Command.bind Reply.connection_refused AddressType.ipv6 Status.failed

-- `a.io:443` is no socket address.
no_socket_addr : std.parse_socket_addr (show std show_u16 site) ≡ none
unfolding show
no_socket_addr = refl

address_of_text-show_example : address_of_text std (show std show_u16 site) ≡ ok site
address_of_text-show_example =
    address_of_text-show std (0x61 ∷ 0x2e ∷ 0x69 ∷ 0x6f ∷ []) 443 (omega arith) no_socket_addr

-- What the two messages look like, with a byte behind them.
abbrev offer_bytes : List ℕ
offer_bytes = 5 ∷ 2 ∷ 0 ∷ 0x90 ∷ 0xaa ∷ []

abbrev login_bytes : List ℕ
login_bytes = 1 ∷ 2 ∷ 0x6d ∷ 0x65 ∷ 2 ∷ 0x70 ∷ 0x77 ∷ 0xaa ∷ []

negotiation_iff_example :
    ((HandshakeRequest.retrieve_from_stream offer_bytes ≡ (ok offer, 0xaa ∷ [])) ↔ (
      (offer_bytes ≡ HandshakeRequest.write_to_buf offer [] ++ (0xaa ∷ []))
      × HandshakeRequest.IsWritable offer))
    × ((PasswordRequest.retrieve_from_stream login_bytes ≡ (ok login, 0xaa ∷ [])) ↔ (
        (login_bytes ≡ PasswordRequest.write_to_buf login [] ++ (0xaa ∷ []))
        × PasswordRequest.IsRequest login
        × PasswordRequest.IsWritable login))
negotiation_iff_example =
    negotiation_iff offer_bytes login_bytes (0xaa ∷ []) offer login (omega arith) (omega arith)
