-- ===== src/Client/Writer.antt =====
-- src/client/mod.rs: the trait `Socks5Writer`, which writes a message field by field.
pub mod Laws
use socks5_impl.Prelude.{ℕ, ltb, if◌then◌else◌, List, [], ◌∷◌, length, as_u8, to_be_bytes}
use socks5_impl.Error.{Error, string}
use socks5_impl.Net.{v4, v6}
use socks5_impl.Stream.{Act, ◌>>=◌, ◌>>◌, pure, raise, as_error, Sink, write_all, flush}
use socks5_impl.Protocol.Command
use socks5_impl.Protocol.Command.{Command}
use socks5_impl.Protocol.AddressType
use socks5_impl.Protocol.AddressType.{AddressType, ipv4, ipv6, domain}
use socks5_impl.Protocol.Address.{Address, socket_address, domain_address}
use socks5_impl.Protocol.Handshake.AuthMethod
use socks5_impl.Protocol.Handshake.AuthMethod.{AuthMethod}

abbrev pub ClientWriter : Type 0
ClientWriter = Act Sink Error (Unit {0})

-- `write_all`, `write_u8` and `write_u16` with `?`.
abbrev pub put : List ℕ → ClientWriter
put bs = as_error (write_all bs)

abbrev pub put_byte : ℕ → ClientWriter
put_byte b = put (b ∷ [])

abbrev pub put_port : ℕ → ClientWriter
put_port n = put (to_be_bytes n)

unfoldable pub write_version : ClientWriter
write_version = put_byte 0x05

unfoldable pub write_method : AuthMethod → ClientWriter
write_method method = put_byte (AuthMethod.to_u8 method)

unfoldable pub write_command : Command → ClientWriter
write_command command = put_byte (Command.to_u8 command)

unfoldable pub write_atyp : AddressType → ClientWriter
write_atyp atyp = put_byte (AddressType.to_u8 atyp)

unfoldable pub write_reserved : ClientWriter
write_reserved = put_byte 0x00

unfoldable pub write_fragment_id : ℕ → ClientWriter
write_fragment_id id = put_byte id

unfoldable pub write_string : List ℕ → ClientWriter
write_string bytes =
    if ltb 255 (length bytes)
    then raise (string "Too long string")
    else (put_byte (as_u8 (length bytes)) >> put bytes)

unfoldable pub write_address : Address → ClientWriter
unfolding write_atyp write_string
write_address (socket_address (v4 ip port)) = do write_atyp ipv4; put ip; put_port port
write_address (socket_address (v6 ip port flowinfo scope)) = do
  write_atyp ipv6
  put ip
  put_port port
write_address (domain_address name port) = do write_atyp domain; write_string name; put_port port

unfoldable pub write_auth_version : ClientWriter
write_auth_version = put_byte 0x01

-- The loop over the methods.
unfoldable pub write_each : List AuthMethod → ClientWriter
unfolding write_method
write_each [] = pure tt
write_each (method ∷ methods) = write_method method >> write_each methods

unfoldable pub write_methods : List AuthMethod → ClientWriter
unfolding write_each
write_methods methods = put_byte (as_u8 (length methods)) >> write_each methods

unfoldable pub write_selection_msg : List AuthMethod → ClientWriter
unfolding write_version write_methods
write_selection_msg methods = do write_version; write_methods methods; as_error flush

unfoldable pub write_final : Command → Address → ClientWriter
unfolding write_version write_command write_reserved write_address
write_final command addr = do
  write_version
  write_command command
  write_reserved
  write_address addr
  as_error flush
