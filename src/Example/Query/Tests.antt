-- ===== src/Example/Query/Tests.antt =====
-- examples/dns-query.rs: a query through a proxy that hangs up.
use mathlib.Core.Path.{subst}
use socks5_impl.Prelude.{
  ℕ, List, ◌++◌, bytes_eq, ◌≡◌, refl, inr, true, false, [], ◌∷◌, length, drop, arith, none, some,
}
use socks5_impl.Stream.{ok, err}
use socks5_impl.Client.Datagram.{arrived}
use socks5_impl.Client.Udp.{UdpSocket}
use socks5_impl.Example.Query.{CmdOpt, Hosts, validate, dns_query_from_server}
use socks5_impl.Example.Query.Laws.{Returns, BindsWhole, dns_query-Returns}
use socks5_impl.Example.Dns.{
  Messages, a, cname, v4, build_dns_query, parse_data_to_dns_message,
  extract_domain_from_dns_message, extract_ipaddr_from_dns_message,
}
use socks5_impl.Example.Query.Program.{query_main, panic}
use socks5_impl.Example.Query.Program.Printed.{query_main_prints}
use socks5_impl.Samples.{std, relay, here, client, fresh}

-- A socket that sends everything and hears one byte, and a proxy that hangs up.
abbrev resolver : UdpSocket
resolver = record {
  local_addr = ok client;
  connect = λ addr. ok tt;
  send = λ bs. ok (length bs);
  recv = arrived (7 ∷ []);
}

abbrev hosts : Hosts
hosts = record {
  net = record { std = std; connect_tcp = λ addr. ok (fresh []); bind_udp = λ addr. ok resolver };
  connect_server = λ addr. ok (fresh []);
  read = λ c. arrived (7 ∷ []);
  send_to = λ bs addr. ok (length bs);
}

abbrev over_udp : CmdOpt
over_udp = record {
  remote_dns_server = here;
  domain = 0x61 ∷ 0x2e ∷ 0x69 ∷ 0x6f ∷ [];
  via_proxy = true;
  proxy_addr = some relay;
  username = none;
  password = none;
  tcp = false;
}

over_udp-valid : validate over_udp ≡ ok tt
unfolding validate
over_udp-valid = refl

hosts-BindsWhole : BindsWhole hosts.net
hosts-BindsWhole at s h bs =
    let same : resolver ≡ s = cc in
    inr (subst (λ (x : UdpSocket). x.send bs ≡ ok (length bs)) same refl)

dns_query-Returns_example : Returns (dns_query_from_server hosts over_udp (1 ∷ 2 ∷ []))
dns_query-Returns_example =
    dns_query-Returns hosts over_udp (1 ∷ 2 ∷ []) hosts-BindsWhole over_udp-valid

-- Messages that are the name alone, with one answer.
abbrev one_name : Messages (List ℕ)
one_name = record {
  to_vec = λ name type. ok name;
  from_vec = λ bs. ok bs;
  is_no_error = λ m. true;
  describe_code = λ m. "no error";
  answers = λ m. some (a (10 ∷ 0 ∷ 0 ∷ 7 ∷ [])) ∷ [];
  describe_answers = λ m. "one answer";
  queries = λ m. m ∷ [];
}

-- A server that answers with `bs`.
abbrev hearing_back : List ℕ → Hosts
hearing_back bs = record hosts {
  net = record (hosts.net) { bind_udp = λ addr. ok (record resolver { recv = arrived bs }) };
}

abbrev unproxied : CmdOpt
unproxied = record over_udp { via_proxy = false; proxy_addr = none }

prints_address :
    query_main one_name (hearing_back (unproxied.domain ++ (b'.' ∷ []))) unproxied tt
    ≡ (ok (v4 (10 ∷ 0 ∷ 0 ∷ 7 ∷ [])), tt)
unfolding query_main validate build_dns_query parse_data_to_dns_message
    extract_domain_from_dns_message extract_ipaddr_from_dns_message dns_query_from_server bytes_eq
prints_address = refl

-- An answer with another name ends the program in an assertion.
foreign_name_panics : query_main one_name (hearing_back (0x62 ∷ [])) unproxied tt ≡ (err panic, tt)
unfolding query_main validate build_dns_query parse_data_to_dns_message
    extract_domain_from_dns_message extract_ipaddr_from_dns_message dns_query_from_server bytes_eq
foreign_name_panics = refl

-- So does a name that is given with a dot at its end, before anything is sent.
dotted_name_panics :
    query_main one_name hosts (record unproxied { domain = 0x61 ∷ b'.' ∷ [] }) tt ≡ (err panic, tt)
unfolding query_main validate build_dns_query parse_data_to_dns_message
    extract_domain_from_dns_message extract_ipaddr_from_dns_message dns_query_from_server bytes_eq
dotted_name_panics = refl

-- Messages that are a number and a name, with an alias and an address, and a server that sends back what it
-- is sent.
abbrev numbered : Messages (List ℕ)
numbered = record one_name {
  to_vec = λ name type. ok (type ∷ (name ++ (b'.' ∷ [])));
  answers = λ m. some (cname "b.io.") ∷ some (a (10 ∷ 0 ∷ 0 ∷ 7 ∷ [])) ∷ [];
  queries = λ m. drop 1 m ∷ [];
}

abbrev mirror : Hosts
mirror = record hosts { read = λ c. arrived c.out.sent }

abbrev over_tcp_alone : CmdOpt
over_tcp_alone = record unproxied { tcp = true }

query_main_prints_example :
    query_main numbered mirror over_tcp_alone tt ≡ (ok (v4 (10 ∷ 0 ∷ 0 ∷ 7 ∷ [])), tt)
query_main_prints_example =
    query_main_prints numbered mirror over_tcp_alone (1 ∷ (over_tcp_alone.domain ++ (b'.' ∷ [])))
      (1 ∷ (over_tcp_alone.domain ++ (b'.' ∷ []))) _ _ (cname "b.io." ∷ [])
      (a (10 ∷ 0 ∷ 0 ∷ 7 ∷ [])) (v4 (10 ∷ 0 ∷ 0 ∷ 7 ∷ [])) [] (fresh []) refl refl
      (0x61 ∷ 0x2e ∷ 0x69 ∷ [], 0x6f, refl, λ e. absurd (omega (arith, e))) refl (omega arith)
      (refl, [], refl) refl (refl, omega arith) refl (omega arith) (refl, [], refl) refl refl
      (refl, tt) refl
