-- ===== src/Client/Reader/Laws.antt =====
-- src/client/mod.rs: `Socks5Reader` on the messages of src/protocol/.
use socks5_impl.Prelude.{
  ℕ, ◌%◌, ◌≡◌, ◌≢◌, refl, List, [], ◌∷◌, ◌++◌, length, append_assoc, arith,
  from_be_bytes-to_be_bytes,
}
use socks5_impl.Error.{string}
use socks5_impl.Net.{v4, v6}
use socks5_impl.Stream.{ok, err, read_exact, read_u8, read_u16}
use socks5_impl.Stream.Laws.{read_exact-append}
use socks5_impl.Protocol.Version
use socks5_impl.Protocol.Reply
use socks5_impl.Protocol.Reply.{Reply, succeeded, Reply-IsCode}
use socks5_impl.Protocol.AddressType
use socks5_impl.Protocol.Address
use socks5_impl.Protocol.Address.{Address, socket_address, domain_address, IsAddress, IsWritable}
use socks5_impl.Protocol.Address.Encode.{write_to_buf-append}
use socks5_impl.Protocol.Response
use socks5_impl.Protocol.Handshake.AuthMethod
use socks5_impl.Protocol.Handshake.AuthMethod.{AuthMethod, IsCanonical, from_u8-to_u8}
use socks5_impl.Client.Reader.{read_address, read_final, read_selection_msg, accept_method}

-- The client reads an address that was written, and leaves what follows it.
pub read_address-write :
    (x : Address) (rest : List ℕ)
    → IsAddress x
    → IsWritable x
    → read_address (Address.write_to_buf x [] ++ rest) ≡ (ok x, rest)
unfolding read_address Address.write_to_buf AddressType.try_from AddressType.to_u8 read_u8 read_u16
    read_exact
read_address-write (socket_address (v4 ip port)) rest h w =
    rw (append_assoc, read_exact-append 4 ip _ (omega arith), from_be_bytes-to_be_bytes port)
read_address-write (socket_address (v6 ip port flowinfo scope)) rest h (f, s) =
    rw (append_assoc, read_exact-append 16 ip _ (omega arith), from_be_bytes-to_be_bytes port)
      (ground arith)
read_address-write (domain_address name port) rest h w =
    let small : length name % 256 ≡ length name = omega arith in
    rw (
      small,
      append_assoc,
      read_exact-append (length name) name _ refl,
      h.0,
      from_be_bytes-to_be_bytes port,
    )

-- The client reads the bound address off a response that succeeded.
pub read_final-succeeded :
    (addr : Address) (rest : List ℕ)
    → IsAddress addr
    → IsWritable addr
    → read_final (Response.write_to_buf (Response.new succeeded addr) [] ++ rest) ≡ (ok addr, rest)
unfolding read_final Response.write_to_buf Version.try_from Version.to_u8 Reply.try_from Reply.to_u8
    read_u8
read_final-succeeded addr rest h w = rw (write_to_buf-append addr, read_address-write addr rest h w)

-- A response with any other reply than success is an error with the text of its reply, and its
-- address is not read.
read_final-refused :
    (reply : Reply) (addr : Address) (rest : List ℕ)
    → reply ≢ succeeded
    → read_final (Response.write_to_buf (Response.new reply addr) [] ++ rest)
      ≡ (err (string (Reply.display reply)), 0x00 ∷ Address.write_to_buf addr [] ++ rest)
unfolding read_final Response.write_to_buf Version.try_from Version.to_u8 read_u8
read_final-refused succeeded addr rest h = absurd (h refl)
read_final-refused reply addr rest h = rw (write_to_buf-append addr, Reply-IsCode.decodes reply)

-- A selection message is the method that the server chose, if the client has a way to comply.
pub read_selection_msg-eq :
    (m : AuthMethod) (rest : List ℕ)
    → IsCanonical m
    → read_selection_msg (0x05 ∷ AuthMethod.to_u8 m ∷ rest) ≡ accept_method m rest
unfolding read_selection_msg Version.try_from read_u8
read_selection_msg-eq m rest h = rw (from_u8-to_u8 m h)
