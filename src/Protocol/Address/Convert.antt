-- ===== src/Protocol/Address/Convert.antt =====
-- src/protocol/address.rs: the conversions of `Address` to and from other types. The parsers, the
-- printer and the resolver of `std::net` are arguments.
use Prim.Native.String.{String}
use socks5_impl.Prelude.{
  ℕ, ◌+◌, ◌-◌, ◌*◌, ◌==◌, leb, Bool, true, ◌&&◌, if◌then◌else◌, List, [], ◌∷◌, ◌++◌, Option, none,
  some,
}
use socks5_impl.Error.{Error, IoError, io, io_error, string, text, unsupported, parse_int_error}
use socks5_impl.Net.{SocketAddr, v4, v6_from}
use socks5_impl.Stream.{Result, ok, err}
use socks5_impl.Protocol.Address.{
  Address, socket_address, domain_address, write_to_buf, retrieve_from_stream,
}

pub record Std : Type 0 where
  -- `str::parse` as `Ipv4Addr`, `Ipv6Addr` and `SocketAddr`
  pub parse_ipv4 : List ℕ → Option (List ℕ)
  pub parse_ipv6 : List ℕ → Option (List ℕ)
  pub parse_socket_addr : List ℕ → Option SocketAddr
  pub show_socket_addr : SocketAddr → List ℕ
  -- `addr.ip().to_string()`
  pub show_ip : SocketAddr → List ℕ
  -- `(addr, port).to_socket_addrs()`
  pub resolve : List ℕ → ℕ → Result IoError (List SocketAddr)

-- `impl From<Address> for Vec<u8>`
unfoldable pub bytes_of_address : Address → List ℕ
bytes_of_address addr = write_to_buf addr []

-- `impl TryFrom<Vec<u8>> for Address`, and for slices: what stands behind the address is dropped.
unfoldable pub address_of_bytes : List ℕ → Result IoError Address
address_of_bytes bytes = (retrieve_from_stream bytes).0

-- `impl From<SocketAddr> for Address`, and for pairs of an IP address and a port.
unfoldable pub address_of_socket_addr : SocketAddr → Address
address_of_socket_addr addr = socket_address addr

-- `impl From<(String, u16)> for Address`
unfoldable pub address_of_name : List ℕ → ℕ → Address
address_of_name name port = domain_address name port

-- A decimal digit of `str::parse::<u16>`.
abbrev pub is_digit : ℕ → Bool
is_digit c = leb b'0' c && leb c b'9'

-- The digits of `str::parse::<u16>`: `n` is what has been read, and a number past 65535 is an error.
unfoldable pub scan_u16 : ℕ → List ℕ → Result Error ℕ
scan_u16 n [] = ok n
scan_u16 n (c ∷ cs) =
    let rest = scan_u16 (n * 10 + (c - b'0')) cs in
    if is_digit c && leb (n * 10 + (c - b'0')) 65535 then rest else err parse_int_error

-- `str::parse::<u16>`: digits, with a plus sign before them if there is one.
unfoldable pub parse_u16 : List ℕ → Result Error ℕ
unfolding scan_u16
parse_u16 [] = err parse_int_error
parse_u16 (c ∷ []) = scan_u16 0 (c ∷ [])
parse_u16 (c ∷ d ∷ cs) = if c == b'+' then scan_u16 0 (d ∷ cs) else scan_u16 0 (c ∷ d ∷ cs)

-- What stands before and behind the last `:`, by `rfind`.
abbrev pub keep_first : ℕ → Option (List ℕ × List ℕ) → Option (List ℕ × List ℕ)
keep_first c none = none
keep_first c (some (name, port)) = some (c ∷ name, port)

abbrev pub or_here : Bool → List ℕ → Option (List ℕ × List ℕ) → Option (List ℕ × List ℕ)
or_here true cs none = some ([], cs)
or_here here cs found = found

unfoldable pub split_last_colon : List ℕ → Option (List ℕ × List ℕ)
split_last_colon [] = none
split_last_colon (c ∷ cs) = or_here (c == b':') cs (keep_first c (split_last_colon cs))

-- `if let Some(pos) = addr.rfind(':') { .. } else { (addr, "0") }`
abbrev pub host_and_port : List ℕ → Option (List ℕ × List ℕ) → List ℕ × List ℕ
host_and_port addr none = (addr, b'0' ∷ [])
host_and_port addr (some parts) = parts

abbrev pub named : List ℕ → Result Error ℕ → Result Error Address
named name (ok port) = ok (domain_address name port)
named name (err e) = err e

abbrev pub name_and_port : List ℕ × List ℕ → Result Error Address
name_and_port (name, port) = named name (parse_u16 port)

abbrev pub or_named : List ℕ → Option SocketAddr → Result Error Address
or_named addr (some a) = ok (socket_address a)
or_named addr none = name_and_port (host_and_port addr (split_last_colon addr))

module _ (std : Std) where
  -- `impl ToSocketAddrs for Address`
  unfoldable pub to_socket_addrs : Address → Result IoError (List SocketAddr)
  to_socket_addrs (socket_address addr) = ok (addr ∷ [])
  to_socket_addrs (domain_address addr port) = std.resolve addr port

  -- `impl Display for Address`, with the digits of the port as an argument.
  unfoldable pub show : (ℕ → List ℕ) → Address → List ℕ
  show digits (domain_address hostname port) = hostname ++ (b':' ∷ digits port)
  show digits (socket_address addr) = std.show_socket_addr addr

  unfoldable pub domain : Address → List ℕ
  domain (socket_address addr) = std.show_ip addr
  domain (domain_address addr port) = addr

  -- `impl TryFrom<Address> for SocketAddr`
  unfoldable pub socket_addr_of_address : Address → Result IoError SocketAddr
  socket_addr_of_address (socket_address addr) = ok addr
  socket_addr_of_address (domain_address addr port) = elim (std.parse_ipv4 addr) [
    | some ip ↦ ok (v4 ip port)
    | none ↦ elim (std.parse_ipv6 addr) [
      | some ip ↦ ok (v6_from ip port)
      | none ↦ err (io_error unsupported (text "domain address {addr} is not supported"))
    ]
  ]

  -- `impl TryFrom<&str> for Address`
  unfoldable pub address_of_text : List ℕ → Result Error Address
  unfolding split_last_colon parse_u16
  address_of_text addr = or_named addr (std.parse_socket_addr addr)

-- `addrs.next().ok_or(..)?`, with the text of the error.
abbrev pub first_addr : String → Result IoError (List SocketAddr) → Result Error SocketAddr
first_addr invalid (ok (a ∷ rest)) = ok a
first_addr invalid (ok []) = err (string invalid)
first_addr invalid (err e) = err (io e)
