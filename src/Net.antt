-- ===== src/Net.antt =====
-- `std::net::SocketAddr`. The octets of an address are a list, of 4 or 16; a V6 address also has
-- its flow label and its scope.
use socks5_impl.Prelude.{ℕ, List, ◌≡◌, IsByte, IsU16, All, length, Bool, true, false}

pub data SocketAddr : Type 0 where
  v4 : List ℕ → ℕ → SocketAddr
  v6 : List ℕ → ℕ → ℕ → ℕ → SocketAddr

abbrev pub port_of : SocketAddr → ℕ
port_of (v4 ip port) = port
port_of (v6 ip port flowinfo scope) = port

abbrev pub is_ipv4 : SocketAddr → Bool
is_ipv4 (v4 ip port) = true
is_ipv4 (v6 ip port flowinfo scope) = false

-- `SocketAddr::from((Ipv6Addr, u16))` sets no flow label and no scope.
abbrev pub v6_from : List ℕ → ℕ → SocketAddr
v6_from ip port = v6 ip port 0 0

-- The sizes that the types of the source give.
abbrev pub IsSocketAddr : SocketAddr → Type 0
IsSocketAddr (v4 ip port) = (length ip ≡ 4) × All IsByte ip × IsU16 port
IsSocketAddr (v6 ip port flowinfo scope) = (length ip ≡ 16) × All IsByte ip × IsU16 port
