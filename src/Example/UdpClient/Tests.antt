-- ===== src/Example/UdpClient/Tests.antt =====
-- examples/udp-client.rs on a concrete network.
use socks5_impl.Prelude.{◌≡◌, refl, true, false, [], ◌∷◌, none, some, length}
use socks5_impl.Error.{string, utf8_error}
use socks5_impl.Stream.{ok}
use socks5_impl.Stream.Utf8.{is_utf8}
use socks5_impl.Client.Datagram.{Reception, elapsed, arrived}
use socks5_impl.Client.Udp.{UdpSocket}
use socks5_impl.Example.UdpClient.{CmdOpt, Hosts, prints, fails, user_key, client_main}
use socks5_impl.Samples.{std, relay, here, client, fresh}

abbrev socket : Reception → UdpSocket
socket reply = record {
  local_addr = ok client;
  connect = λ addr. ok tt;
  send = λ bs. ok (length bs);
  recv = reply;
}

abbrev hosts : Reception → Hosts
hosts reply = record {
  net = record {
    std = std;
    connect_tcp = λ addr. ok (fresh []);
    bind_udp = λ addr. ok (socket reply);
  };
  lookup = λ name. ok (here ∷ []);
  bind = λ addr. ok (socket reply);
  send_to = λ bs addr. ok (length bs);
}

abbrev plain : CmdOpt
plain = record {
  target_addr = relay;
  data_string = 0x68 ∷ 0x69 ∷ [];
  via_proxy = false;
  proxy_addr = none;
  username = none;
  password = none;
}

prints_reply : client_main (hosts (arrived (0x68 ∷ 0x69 ∷ []))) plain ≡ prints (0x68 ∷ 0x69 ∷ [])
unfolding client_main is_utf8
prints_reply = refl

not_a_text : client_main (hosts (arrived (0xff ∷ []))) plain ≡ fails utf8_error
unfolding client_main is_utf8
not_a_text = refl

no_proxy_given :
    client_main (hosts elapsed) (record plain { via_proxy = true })
    ≡ fails (string "proxy_addr is required when via_proxy is true")
unfolding client_main
no_proxy_given = refl

-- A user without a password gets an empty one.
empty_password :
    user_key (some (0x75 ∷ [])) none ≡ some (record { username = 0x75 ∷ []; password = [] })
empty_password = refl
