-- ===== src/Protocol/Reply.antt =====
-- src/protocol/reply.rs
use Prim.Native.String.{String}
use socks5_impl.Prelude.{ℕ, ◌==◌, if◌then◌else◌, arith, refl, ◌≡◌}
use socks5_impl.Error.{IoError, io_error, format, invalid_input}
use socks5_impl.Stream.{Result, ok, err}
use socks5_impl.Protocol.Code.{IsCode}

pub data Reply : Type 0 where
  succeeded general_failure connection_not_allowed network_unreachable : Reply
  host_unreachable connection_refused ttl_expired command_not_supported : Reply
  address_type_not_supported : Reply

unfoldable pub try_from : ℕ → Result IoError Reply
try_from code =
    if code == 0x00
    then ok succeeded
    else if code == 0x01
    then ok general_failure
    else if code == 0x02
    then ok connection_not_allowed
    else if code == 0x03
    then ok network_unreachable
    else if code == 0x04
    then ok host_unreachable
    else if code == 0x05
    then ok connection_refused
    else if code == 0x06
    then ok ttl_expired
    else if code == 0x07
    then ok command_not_supported
    else if code == 0x08
    then ok address_type_not_supported
    else err (io_error invalid_input (format "Unsupported reply code {0:#x}" code))

unfoldable pub to_u8 : Reply → ℕ
to_u8 succeeded = 0x00
to_u8 general_failure = 0x01
to_u8 connection_not_allowed = 0x02
to_u8 network_unreachable = 0x03
to_u8 host_unreachable = 0x04
to_u8 connection_refused = 0x05
to_u8 ttl_expired = 0x06
to_u8 command_not_supported = 0x07
to_u8 address_type_not_supported = 0x08

-- `Display`
unfoldable pub display : Reply → String
display succeeded = "Reply::Succeeded"
display general_failure = "Reply::GeneralFailure"
display connection_not_allowed = "Reply::ConnectionNotAllowed"
display network_unreachable = "Reply::NetworkUnreachable"
display host_unreachable = "Reply::HostUnreachable"
display connection_refused = "Reply::ConnectionRefused"
display ttl_expired = "Reply::TtlExpired"
display command_not_supported = "Reply::CommandNotSupported"
display address_type_not_supported = "Reply::AddressTypeNotSupported"

try_from-to_u8 : (x : Reply) → try_from (to_u8 x) ≡ ok x
unfolding to_u8 try_from
try_from-to_u8 succeeded = refl
try_from-to_u8 _ = refl

to_u8_exact : (b : ℕ) (x : Reply) → try_from b ≡ ok x → to_u8 x ≡ b
unfolding to_u8 try_from
to_u8_exact b succeeded h = ground arith
to_u8_exact b _ h = ground arith

pub Reply-IsCode : IsCode to_u8 try_from
unfolding to_u8
Reply-IsCode = record {
  decodes = try_from-to_u8;
  exact = to_u8_exact;
  in_range = elim [ succeeded ↦ omega arith | _ ↦ omega arith ];
}
