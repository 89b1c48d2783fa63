-- ===== src/Client/Reader.antt =====
-- src/client/mod.rs: the trait `Socks5Reader`, which reads a message field by field.
pub mod Laws
use socks5_impl.Prelude.{ℕ, ◌==◌, if◌then◌else◌, List}
use socks5_impl.Error.{
  Error, invalid_auth_method, invalid_reserved, invalid_fragment_id, invalid_auth_subnegotiation,
  invalid_auth_status, wrong_version, string, from_utf8,
}
use socks5_impl.Net.{v4, v6_from}
use socks5_impl.Stream.{
  Act, ◌>>=◌, ◌>>◌, pure, raise, lift, as_error, read_exact, read_u8, read_u16,
}
use socks5_impl.Stream.Utf8.{is_utf8}
use socks5_impl.Protocol.Version
use socks5_impl.Protocol.Version.{Version, v5}
use socks5_impl.Protocol.Command
use socks5_impl.Protocol.Command.{Command}
use socks5_impl.Protocol.Reply
use socks5_impl.Protocol.Reply.{Reply, succeeded}
use socks5_impl.Protocol.AddressType
use socks5_impl.Protocol.AddressType.{AddressType, ipv4, ipv6, domain}
use socks5_impl.Protocol.Address.{Address, socket_address, domain_address}
use socks5_impl.Protocol.Handshake.AuthMethod
use socks5_impl.Protocol.Handshake.AuthMethod.{AuthMethod, no_auth, user_pass}

abbrev pub ClientReader : Type 0 → Type 0
ClientReader A = Act (List ℕ) Error A

unfoldable pub accept_version : Version → ClientReader (Unit {0})
accept_version Version.v4 = raise wrong_version
accept_version Version.v5 = pure tt

unfoldable pub read_version : ClientReader (Unit {0})
unfolding accept_version
read_version = do
  value ← as_error read_u8
  version ← as_error (lift (Version.try_from value))
  accept_version version

unfoldable pub accept_method : AuthMethod → ClientReader AuthMethod
accept_method no_auth = pure no_auth
accept_method user_pass = pure user_pass
accept_method value = raise (invalid_auth_method (AuthMethod.to_u8 value))

unfoldable pub read_method : ClientReader AuthMethod
unfolding accept_method
read_method = do value ← as_error read_u8; accept_method (AuthMethod.from_u8 value)

unfoldable pub read_command : ClientReader Command
read_command = do value ← as_error read_u8; as_error (lift (Command.try_from value))

unfoldable pub read_atyp : ClientReader AddressType
read_atyp = do value ← as_error read_u8; as_error (lift (AddressType.try_from value))

-- `0x00 => Ok(())`, and the error of the field for any other value.
abbrev pub expect : ℕ → (ℕ → Error) → ℕ → ClientReader (Unit {0})
expect wanted error value = if value == wanted then pure tt else raise (error value)

unfoldable pub read_reserved : ClientReader (Unit {0})
read_reserved = do value ← as_error read_u8; expect 0x00 invalid_reserved value

unfoldable pub read_fragment_id : ClientReader (Unit {0})
read_fragment_id = do value ← as_error read_u8; expect 0x00 invalid_fragment_id value

unfoldable pub accept_reply : Reply → ClientReader (Unit {0})
accept_reply succeeded = pure tt
accept_reply reply = raise (string (Reply.display reply))

unfoldable pub read_reply : ClientReader (Unit {0})
unfolding accept_reply
read_reply = do
  value ← as_error read_u8
  reply ← as_error (lift (Reply.try_from value))
  accept_reply reply

-- `String::from_utf8(str)?`
unfoldable pub string_from_utf8 : List ℕ → ClientReader (List ℕ)
string_from_utf8 str = if is_utf8 str then pure str else raise from_utf8

unfoldable pub read_string : ClientReader (List ℕ)
unfolding string_from_utf8
read_string = do len ← as_error read_u8; str ← as_error (read_exact len); string_from_utf8 str

unfoldable pub read_address_body : AddressType → ClientReader Address
unfolding read_string
read_address_body ipv4 = do
  ip ← as_error (read_exact 4)
  port ← as_error read_u16
  pure (socket_address (v4 ip port))
read_address_body ipv6 = do
  ip ← as_error (read_exact 16)
  port ← as_error read_u16
  pure (socket_address (v6_from ip port))
read_address_body domain = do
  str ← read_string
  port ← as_error read_u16
  pure (domain_address str port)

unfoldable pub read_address : ClientReader Address
unfolding read_atyp read_address_body
read_address = do atyp ← read_atyp; read_address_body atyp

unfoldable pub read_auth_version : ClientReader (Unit {0})
read_auth_version = do value ← as_error read_u8; expect 0x01 invalid_auth_subnegotiation value

unfoldable pub read_auth_status : ClientReader (Unit {0})
read_auth_status = do value ← as_error read_u8; expect 0x00 invalid_auth_status value

unfoldable pub read_selection_msg : ClientReader AuthMethod
unfolding read_version read_method
read_selection_msg = do read_version; read_method

unfoldable pub read_final : ClientReader Address
unfolding read_version read_reply read_reserved read_address
read_final = do read_version; read_reply; read_reserved; addr ← read_address; pure addr
