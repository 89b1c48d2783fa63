-- ===== src/Example/UdpClient/Laws.antt =====
-- examples/udp-client.rs: what is printed.
use Prim.Native.String.{String}
use socks5_impl.Prelude.{
  true, false, if◌then◌else◌, Bool, ℕ, ◌+◌, ◌≤◌, ◌≡◌, refl, true, Bool-cases, inl, inr, List,
  length, Option, none, some,
}
use socks5_impl.Error.{Error}
use socks5_impl.Net.{SocketAddr}
use socks5_impl.Stream.{Result, ok, err}
use socks5_impl.Stream.Utf8.{is_utf8}
use socks5_impl.Protocol.Udp
use socks5_impl.Protocol.Address.{Address, IsAddress, IsWritable}
use socks5_impl.Protocol.Address.Convert.{address_of_socket_addr}
use socks5_impl.Server.Udp.{packet}
use socks5_impl.Client.Datagram.{arrived, udp_mtu}
use socks5_impl.Client.Udp.{UdpClientImpl, Outcome, datagram}
use socks5_impl.Session.Transfer.{transfer_data_returns}
use socks5_impl.Example.Query.Laws.{BindsWhole, Returns, transfer_data-Returns, datagram-SendsWhole}
use socks5_impl.Example.UdpClient.{
  CmdOpt, Hosts, Ran, prints, fails, panicked, printed, outcome, transferring, direct, proxied,
  validated, validate, user_key, client_main,
}

-- What `main` may come to: an error, or a text.
abbrev pub IsFine : Ran → Type 0
IsFine (prints bs) = is_utf8 bs ≡ true
IsFine (fails e) = Unit {0}
IsFine panicked = ⊥

printed-IsFine : (r : Result Error (List ℕ)) → IsFine (printed r)
printed-IsFine (ok bs) = elim (Bool-cases (is_utf8 bs)) [
  | inl utf8 ↦ rw utf8 utf8
  | inr other ↦ rw other tt
]
printed-IsFine (err e) = tt

outcome-IsFine : (o : Outcome) → Returns o → IsFine (outcome o)
outcome-IsFine o (r, e) = rw e (printed-IsFine r)

either-IsFine : (b : Bool) (x y : Ran) → IsFine x → IsFine y → IsFine (if b then x else y)
either-IsFine true x y h k = h
either-IsFine false x y h k = k

module _ (hosts : Hosts) (opt : CmdOpt) where
  transferring-Returns :
      (proxy_addr : SocketAddr) (target : Address) (r : Result Error UdpClientImpl)
      → datagram hosts.net proxy_addr target (user_key opt.username opt.password) ≡ r
      → BindsWhole hosts.net
      → Returns (transferring hosts opt r)
  transferring-Returns proxy_addr target (ok c) made binds =
      transfer_data-Returns c opt.data_string (
        datagram-SendsWhole hosts.net binds (user_key opt.username opt.password) proxy_addr target c
          made)
  transferring-Returns proxy_addr target (err e) made binds = (err e, refl)

  proxied-Returns :
      (proxy : Option SocketAddr) → BindsWhole hosts.net → Returns (proxied hosts opt proxy)
  unfolding proxied
  proxied-Returns none binds = (_, refl)
  proxied-Returns (some proxy_addr) binds =
      transferring-Returns proxy_addr (address_of_socket_addr opt.target_addr) _ refl binds

  validated-IsFine :
      (r : Result String (Unit {0})) → BindsWhole hosts.net → IsFine (validated hosts opt r)
  validated-IsFine (ok u) binds =
      either-IsFine opt.via_proxy _ _
        (outcome-IsFine (proxied hosts opt opt.proxy_addr) (proxied-Returns opt.proxy_addr binds))
        (printed-IsFine (direct hosts opt tt).0)
  validated-IsFine (err e) binds = tt

  -- On a network whose UDP sockets send a datagram whole or fail, the client ends with an error or prints
  -- bytes that are UTF-8, whatever its options and whatever comes back; it does not panic.
  client_main-IsFine : BindsWhole hosts.net → IsFine (client_main hosts opt)
  unfolding client_main
  client_main-IsFine binds = validated-IsFine (validate opt) binds

  -- Through a proxy: where the client is associated, and for its target, which is well-formed and
  -- writable, its socket sends the packet whole and hears a packet of a server's associated socket,
  -- unfragmented, of at most 1500 bytes, for a well-formed and writable address, with a payload in UTF-8, exactly that payload is printed.
  client_main-prints :
      (proxy_addr : SocketAddr) (c : UdpClientImpl) (reply : List ℕ) (from : Address)
      → opt.via_proxy ≡ true
      → opt.proxy_addr ≡ some proxy_addr
      → datagram hosts.net proxy_addr
          (address_of_socket_addr opt.target_addr)
          (user_key opt.username opt.password)
        ≡ ok c
      → IsAddress c.server_addr
      → IsWritable c.server_addr
      → c.client.socket.send (packet opt.data_string 0 c.server_addr)
        ≡ ok (length (packet opt.data_string 0 c.server_addr))
      → IsAddress from
      → IsWritable from
      → Udp.len (Udp.new 0 from) + length reply ≤ udp_mtu
      → c.client.socket.recv ≡ arrived (packet reply 0 from)
      → is_utf8 reply ≡ true
      → client_main hosts opt ≡ prints reply
  unfolding client_main
  client_main-prints proxy_addr c reply from via has made h w whole hf wf fits heard utf8 = rw (
    via,
    has,
    made,
    transfer_data_returns c opt.data_string reply from h w whole hf wf fits heard,
    utf8,
  )
