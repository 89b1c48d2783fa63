-- ===== src/Samples.antt =====
-- The values on which the tests run the model.
pub mod Relayed
pub mod Hosts
use socks5_impl.Prelude.{
  ℕ, refl, false, ◌==◌, if◌then◌else◌, Option, none, some, List, [], ◌∷◌, arith,
}
use socks5_impl.Net.{SocketAddr, v4, v6}
use socks5_impl.Stream.{ok, Conn}
use socks5_impl.Stream.Utf8.{is_utf8}
use socks5_impl.Protocol.Address.{Address, socket_address, domain_address, IsAddress, IsWritable}
use socks5_impl.Protocol.Address.Convert.{Std}
use socks5_impl.Protocol.Password.UserKey.{UserKey, IsUserKey, IsWritableKey}

-- `a.io:443`
abbrev pub site : Address
site = domain_address (0x61 ∷ 0x2e ∷ 0x69 ∷ 0x6f ∷ []) 443

pub site-IsAddress : IsAddress site
unfolding is_utf8
site-IsAddress = (refl, omega arith, omega arith)

pub site-IsWritable : IsWritable site
site-IsWritable = omega arith

-- `10.0.0.7:1080`
abbrev pub relay : SocketAddr
relay = v4 (10 ∷ 0 ∷ 0 ∷ 7 ∷ []) 1080

abbrev pub bound : Address
bound = socket_address relay

pub bound-IsAddress : IsAddress bound
bound-IsAddress = omega arith

-- The user `me` with the password `pw`.
abbrev pub me : UserKey
me = record { username = 0x6d ∷ 0x65 ∷ []; password = 0x70 ∷ 0x77 ∷ [] }

pub me-IsUserKey : IsUserKey me
unfolding is_utf8
me-IsUserKey = (refl, refl)

pub me-IsWritableKey : IsWritableKey me
me-IsWritableKey = omega arith

-- An end of a connection that has sent nothing, with the bytes it will hear.
abbrev pub fresh : List ℕ → Conn
fresh bytes = record {
  handle = 3;
  input = bytes;
  out = record { buffered = false; pending = []; sent = []; room = 1000 };
}

-- `0.0.0.0:0` begins with a digit and `[::]:0` with a bracket; `a.io:443` is a name.
abbrev pub parse_any : List ℕ → Option SocketAddr
parse_any [] = none
parse_any (c ∷ cs) =
    if c == b'0'
    then some (v4 (0 ∷ 0 ∷ 0 ∷ 0 ∷ []) 0)
    else (if c == b'['
        then some (v6 (0 ∷ 0 ∷ 0 ∷ 0 ∷ 0 ∷ 0 ∷ 0 ∷ 0 ∷ 0 ∷ 0 ∷ 0 ∷ 0 ∷ 0 ∷ 0 ∷ 0 ∷ 0 ∷ []) 0 0 0)
        else none)

-- A resolver to which every name is `10.0.0.7:1080`; it reads the two texts without a port.
abbrev pub std : Std
std = record {
  parse_ipv4 = λ s. none;
  parse_ipv6 = λ s. none;
  parse_socket_addr = parse_any;
  show_socket_addr = λ a. [];
  show_ip = λ a. [];
  resolve = λ name port. ok (relay ∷ []);
}

-- `10.0.0.9`, where the server is, and a client of it.
abbrev pub here : SocketAddr
here = v4 (10 ∷ 0 ∷ 0 ∷ 9 ∷ []) 1080

abbrev pub client : SocketAddr
client = v4 (10 ∷ 0 ∷ 0 ∷ 1 ∷ []) 5000
