-- ===== src/Client/Datagram.antt =====
-- src/client/mod.rs: the packets of `SocksDatagram`.
pub mod Laws
use socks5_impl.Prelude.{ℕ, ◌+◌, ◌-◌, true, List, [], ◌∷◌, length, take}
use socks5_impl.Error.{Error, IoError, io, error_of_elapsed}
use socks5_impl.Stream.{Result, ok, err, Act, ◌>>=◌, ◌>>◌, pure, as_error, read_exact, Sink}
use socks5_impl.Protocol.Address
use socks5_impl.Protocol.Address.{Address}
use socks5_impl.Client.Reader.{read_reserved, read_fragment_id, read_address, ClientReader}
use socks5_impl.Client.Writer.{ClientWriter, put, write_reserved, write_fragment_id, write_address}

-- `Cursor::new(bytes)` over an empty vector: it takes whatever is written.
abbrev pub cursor : Sink
cursor = record { buffered = true; pending = []; sent = []; room = 0 }

abbrev pub into_inner : Result Error (Unit {0}) × Sink → Result Error (List ℕ)
into_inner (ok u, s) = ok s.pending
into_inner (err e, s) = err e

unfoldable pub write_datagram : List ℕ → Address → ClientWriter
write_datagram buf addr = do
  write_reserved
  write_reserved
  write_fragment_id 0x00
  write_address addr
  put buf

unfoldable pub build_socks5_udp_datagram : List ℕ → Address → Result Error (List ℕ)
unfolding write_datagram
build_socks5_udp_datagram buf addr = into_inner (write_datagram buf addr cursor)

-- The number of bytes, the address and the contents of `buf`.
pub record Datagram : Type 0 where
  pub read : ℕ
  pub address : Address
  pub buf : List ℕ

-- After the header: `cursor.position()` is what is no longer there of the `len` bytes.
unfoldable pub read_payload : ℕ → Address → ClientReader Datagram
read_payload len addr rest =
    let header_len : ℕ = len - length rest in
    let size : ℕ = len - header_len in
    (as_error (read_exact size) >>= λ buf. pure (record { read = size; address = addr; buf = buf }))
      rest

unfoldable pub parse_datagram : ℕ → ClientReader Datagram
unfolding read_payload
parse_datagram len = do
  read_reserved
  read_reserved
  read_fragment_id
  addr ← read_address
  read_payload len addr

unfoldable pub parse_socks5_udp_response : List ℕ → Result Error Datagram
unfolding parse_datagram
parse_socks5_udp_response bytes = (parse_datagram (length bytes) bytes).0

-- What the socket answers within the time limit.
pub data Reception : Type 0 where
  elapsed : Reception
  failed : IoError → Reception
  arrived : List ℕ → Reception

abbrev pub udp_mtu : ℕ
udp_mtu = 1500

unfoldable pub recv_from : Reception → Result Error Datagram
unfolding parse_socks5_udp_response
recv_from elapsed = err error_of_elapsed
recv_from (failed e) = err (io e)
recv_from (arrived bytes) = parse_socks5_udp_response (take udp_mtu bytes)

unfoldable pub get_buf_size : ℕ → ℕ → ℕ
get_buf_size addr_size buf_len = 2 + 1 + addr_size + buf_len

abbrev pub handed : Result IoError ℕ → Result Error ℕ
handed (ok n) = ok n
handed (err e) = err (io e)

-- `send_to`, with the socket's `send` as an argument.
abbrev pub hand_over : (List ℕ → Result IoError ℕ) → Result Error (List ℕ) → Result Error ℕ
hand_over socket (ok bytes) = handed (socket bytes)
hand_over socket (err e) = err e

unfoldable pub send_to : (List ℕ → Result IoError ℕ) → List ℕ → Address → Result Error ℕ
unfolding build_socks5_udp_datagram
send_to socket buf addr = hand_over socket (build_socks5_udp_datagram buf addr)
