-- ===== src/Protocol/AddressType.antt =====
-- src/protocol/address.rs: the address types.
use socks5_impl.Prelude.{ℕ, ◌==◌, if◌then◌else◌, arith, refl}
use socks5_impl.Error.{IoError, io_error, format, invalid_input}
use socks5_impl.Stream.{Result, ok, err}
use socks5_impl.Protocol.Code.{IsCode}

pub data AddressType : Type 0 where
  ipv4 domain ipv6 : AddressType

unfoldable pub try_from : ℕ → Result IoError AddressType
try_from code =
    if code == 0x01
    then ok ipv4
    else if code == 0x03
    then ok domain
    else if code == 0x04
    then ok ipv6
    else err (io_error invalid_input (format "Unsupported address type code {0:#x}" code))

unfoldable pub to_u8 : AddressType → ℕ
to_u8 ipv4 = 0x01
to_u8 domain = 0x03
to_u8 ipv6 = 0x04

pub AddressType-IsCode : IsCode to_u8 try_from
unfolding to_u8 try_from
AddressType-IsCode = record {
  decodes = elim [ ipv4 ↦ refl | domain ↦ refl | ipv6 ↦ refl ];
  exact = λ b. elim [
    | ipv4 ↦ λ h. ground arith
    | domain ↦ λ h. ground arith
    | ipv6 ↦ λ h. ground arith
  ];
  in_range = elim [ ipv4 ↦ omega arith | domain ↦ omega arith | ipv6 ↦ omega arith ];
}
