-- ===== src/Example/Tests.antt =====
-- examples/ on concrete connections, options and datagrams.
use socks5_impl.Prelude.{
  bytes_eq, ◌==◌, ◌&&◌, ◌||◌, if◌then◌else◌, Bool, ℕ, ◌≡◌, refl, true, false, List, [], ◌∷◌, ◌++◌,
  map, none, some, All, arith, inl,
}
use socks5_impl.Net.{SocketAddr, v4}
use socks5_impl.Stream.{ok, err, as_error, Conn}
use socks5_impl.Protocol.Command
use socks5_impl.Protocol.Reply.{host_unreachable}
use socks5_impl.Protocol.Request
use socks5_impl.Protocol.Handshake.AuthMethod.{no_auth, user_pass, method_eq}
use socks5_impl.Protocol.Handshake.Request as HandshakeRequest
use socks5_impl.Protocol.Password.Request as PasswordRequest
use socks5_impl.Server.Auth.{no_auth_executor}
use socks5_impl.Server.Listen.{bind, new}
use socks5_impl.Client.Init.Steps.{told}
use socks5_impl.Example.Handle.{handle, dial}
use socks5_impl.Example.Handle.Answers.{asking, asked, reply_bytes, handle_unreachable}
use socks5_impl.Example.Main.{Turn, main, main_loop}
use socks5_impl.Example.Main.Laws.{
  Client, turn_of, task_of, IsServed, main_authenticates, main_loop_serves,
}
use socks5_impl.Example.Dns.{Messages, build_dns_query, parse_data_to_dns_message}
use socks5_impl.Example.Dns.Laws.{parse-build}
use socks5_impl.Example.Main.Stopping.{connects, ctrl_c, turns, wake_addr, ctrl_c_stops}
use socks5_impl.Samples.Hosts.{refused, host, no_association, tcp}
use socks5_impl.Samples.{here, client, site, bound, me, fresh}

abbrev offer : HandshakeRequest.Request
offer = HandshakeRequest.new (user_pass ∷ no_auth ∷ [])

offers : HandshakeRequest.evaluate_method offer no_auth ≡ true
unfolding HandshakeRequest.evaluate_method HandshakeRequest.any_method method_eq
offers = refl

abbrev to_site : Request.Request
to_site = Request.new Command.connect site

abbrev to_relay : Request.Request
to_relay = Request.new Command.connect bound

abbrev bind_site : Request.Request
bind_site = Request.new Command.bind site

-- A client with its request, and a byte behind it.
abbrev asks : Request.Request → Conn
asks req = fresh (asking offer req (7 ∷ []))

reached : dial host site ≡ ok (fresh (8 ∷ 9 ∷ []))
unfolding dial
reached = refl

failed : dial host bound ≡ err refused
unfolding dial
failed = refl

handle_unreachable_example :
    handle host no_association (λ u. none) no_auth_executor (asks to_relay)
    ≡ as_error host.shutdown (told (reply_bytes host_unreachable) (asked (7 ∷ []) (asks to_relay)))
handle_unreachable_example =
    handle_unreachable host no_association offer to_relay (7 ∷ []) (asks to_relay)
      (omega arith, (tt, (tt, tt))) offers (omega arith) tt refl (refl, omega arith) refused refl
      failed

abbrev visitors : List (Client host tcp)
visitors =
    record { stream = asks to_site; addr = client; associate = no_association }
    ∷ record { stream = asks bind_site; addr = client; associate = no_association }
    ∷ []

abbrev failing_turn : Turn
failing_turn = record { accepted = err refused; exiting = false; associate = no_association }

bound_here : bind tcp here no_auth_executor ≡ ok (new here no_auth_executor)
unfolding bind new
bound_here = refl

main_loop_serves_example :
    main_loop host tcp
      (λ u. none)
      true
      no_auth_executor
      here
      (map (turn_of host tcp) visitors ++ (failing_turn ∷ []))
    ≡ (some (ok tt), map (task_of host tcp (λ u. none) no_auth_executor) visitors)
main_loop_serves_example =
    main_loop_serves host tcp (λ u. none) visitors failing_turn [] no_auth_executor here
      (new here no_auth_executor) (inl (refused, refl)) bound_here

-- A network on which an address is reached by itself alone.
abbrev reaches_itself : SocketAddr → SocketAddr → Bool
reaches_itself (v4 ip port) (v4 ip' port') = bytes_eq ip ip' && port == port'
reaches_itself at dialled = false

abbrev wake : Client host tcp
wake = record { stream = fresh []; addr = here; associate = no_association }

ctrl_c_stops_example :
    main_loop host tcp
      (λ u. none)
      true
      no_auth_executor
      here
      (turns host tcp reaches_itself here wake false (
        map (λ (c : Client host tcp). connects c) visitors
        ++ (ctrl_c ∷ map (λ (c : Client host tcp). connects c) [])))
    ≡ (
      if reaches_itself here (wake_addr here) || false then some (ok tt) else none,
      map (task_of host tcp (λ u. none) no_auth_executor) visitors,
    )
ctrl_c_stops_example =
    ctrl_c_stops host tcp reaches_itself here wake (λ u. none) visitors [] no_auth_executor
      (new here no_auth_executor) bound_here

-- The listener at `10.0.0.9` is not reached.
not_woken : reaches_itself here (wake_addr here) ≡ false
unfolding wake_addr bytes_eq
not_woken = refl

-- One more that knows the password.
abbrev member : Client host tcp
member = record {
  stream = fresh (
      HandshakeRequest.write_to_buf offer []
      ++ (PasswordRequest.write_to_buf (PasswordRequest.new me.username me.password) []
          ++ Request.write_to_buf to_site []));
  addr = client;
  associate = no_association;
}

main_authenticates_example :
    All
      (IsServed host tcp me)
      (main host tcp
        (some me.username)
        (some me.password)
        here
        (map (turn_of host tcp) (member ∷ visitors))).1
main_authenticates_example =
    main_authenticates host tcp me.username (some me.password) here
      (map (turn_of host tcp) (member ∷ visitors))

-- Messages that are their bytes.
abbrev plain : Messages (List ℕ)
plain = record {
  to_vec = λ domain query_type. ok (query_type ∷ domain);
  from_vec = λ bs. ok bs;
  is_no_error = λ m. true;
  describe_code = λ m. "NoError";
  answers = λ m. [];
  describe_answers = λ m. "[]";
  queries = λ m. [];
}

parse-build_example :
    (build_dns_query plain (0x61 ∷ []) 1 true ≡ ok (0 ∷ 2 ∷ 1 ∷ 0x61 ∷ []))
    × (parse_data_to_dns_message plain (0 ∷ 2 ∷ 1 ∷ 0x61 ∷ 7 ∷ []) true ≡ ok (1 ∷ 0x61 ∷ []))
    × (build_dns_query plain (0x61 ∷ []) 1 false ≡ ok (1 ∷ 0x61 ∷ []))
    × (parse_data_to_dns_message plain (1 ∷ 0x61 ∷ []) false ≡ ok (1 ∷ 0x61 ∷ []))
parse-build_example = parse-build plain (0x61 ∷ []) (1 ∷ 0x61 ∷ []) (7 ∷ []) 1 refl (omega arith)
