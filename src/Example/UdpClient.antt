-- ===== src/Example/UdpClient.antt =====
-- examples/udp-client.rs: `main`, from the options on to the text that is printed.
pub mod Laws
mod Tests
use Prim.Native.String.{String}
use socks5_impl.Prelude.{
  ℕ, Bool, true, false, ◌&&◌, if◌then◌else◌, List, [], ◌∷◌, Option, none, some, take,
}
use socks5_impl.Error.{Error, IoError, io, error_of_elapsed, string, utf8_error}
use socks5_impl.Net.{SocketAddr}
use socks5_impl.Stream.{Result, ok, err, Act, ◌>>=◌, ◌>>◌, lift, as_error}
use socks5_impl.Stream.Utf8.{is_utf8}
use socks5_impl.Protocol.Address.Convert.{address_of_socket_addr, first_addr}
use socks5_impl.Protocol.Password.UserKey.{UserKey}
use socks5_impl.Client.Datagram.{Reception, elapsed, failed, arrived}
use socks5_impl.Client.Udp.{
  Network, UdpSocket, UdpClientImpl, any_addr, datagram, Outcome, returns, panics, transfer_data,
}
use socks5_impl.Example.Query.{is_none}

pub record CmdOpt : Type 0 where
  pub target_addr : SocketAddr
  pub data_string : List ℕ
  pub via_proxy : Bool
  pub proxy_addr : Option SocketAddr
  pub username : Option (List ℕ)
  pub password : Option (List ℕ)

pub record Hosts : Type 0 where
  pub net : Network
  -- `to_socket_addrs`, of a text
  pub lookup : List ℕ → Result IoError (List SocketAddr)
  -- `UdpSocket::bind`, to an address
  pub bind : SocketAddr → Result IoError UdpSocket
  -- `send_to` of that socket
  pub send_to : List ℕ → SocketAddr → Result IoError ℕ

unfoldable pub validate : CmdOpt → Result String (Unit {0})
validate opt =
    if opt.via_proxy && is_none opt.proxy_addr
    then err "proxy_addr is required when via_proxy is true"
    else ok tt

-- `password.unwrap_or_default()`
abbrev pub or_empty : Option (List ℕ) → List ℕ
or_empty none = []
or_empty (some password) = password

abbrev pub user_key : Option (List ℕ) → Option (List ℕ) → Option UserKey
user_key (some username) password =
    some (record { username = username; password = or_empty password })
user_key none password = none

-- What is printed, an error of `main`, or a panic.
pub data Ran : Type 0 where
  prints : List ℕ → Ran
  fails : Error → Ran
  panicked : Ran

-- `println!("{}", from_utf8(..)?)`
abbrev pub printed : Result Error (List ℕ) → Ran
printed (ok bs) = if is_utf8 bs then prints bs else fails utf8_error
printed (err e) = fails e

abbrev pub outcome : Outcome → Ran
outcome (returns r) = printed r
outcome panics = panicked

-- `timeout(..).await??`, with the buffer of 1024 bytes.
abbrev pub reply_within : Reception → Result Error (List ℕ)
reply_within elapsed = err error_of_elapsed
reply_within (failed e) = err (io e)
reply_within (arrived bs) = ok (take 1024 bs)

module _ (hosts : Hosts) (opt : CmdOpt) where
  -- A `SocketAddr` resolves to itself.
  unfoldable pub direct : Act (Unit {0}) Error (List ℕ)
  direct = do
    target_addr ← lift (first_addr "invalid address" (ok (opt.target_addr ∷ [])))
    zero_addr ← lift (first_addr "invalid address" (hosts.lookup (any_addr target_addr)))
    udp ← as_error (lift (hosts.bind zero_addr))
    sent ← as_error (lift (hosts.send_to opt.data_string target_addr))
    lift (reply_within udp.recv)

  abbrev pub transferring : Result Error UdpClientImpl → Outcome
  transferring (ok client) = transfer_data client opt.data_string
  transferring (err e) = returns (err e)

  unfoldable pub proxied : Option SocketAddr → Outcome
  proxied (some proxy_addr) = transferring (
      datagram hosts.net proxy_addr (address_of_socket_addr opt.target_addr)
        (user_key opt.username opt.password))
  proxied none = returns (err (string "proxy_addr is required"))

  abbrev pub validated : Result String (Unit {0}) → Ran
  validated (ok u) =
      if opt.via_proxy then outcome (proxied opt.proxy_addr) else printed (direct tt).0
  validated (err e) = fails (string e)

  unfoldable pub client_main : Ran
  unfolding direct proxied validate
  client_main = validated (validate opt)
