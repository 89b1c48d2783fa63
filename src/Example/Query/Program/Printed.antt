-- ===== src/Example/Query/Program/Printed.antt =====
-- examples/dns-query.rs: a run of `main` over TCP, from the query to the address that is printed.
use socks5_impl.Prelude.{
  ℕ, ◌+◌, ◌<◌, ◌≤◌, ◌≡◌, ◌≢◌, refl, ◌∙◌, true, false, List, [], ◌∷◌, ◌++◌, Option, some, length,
  map, All, bytes_eq_refl, append-nil, take_all, arith,
}
use socks5_impl.Net.{SocketAddr, v4, v6}
use socks5_impl.Stream.{ok, Conn, write_all, flush, transmit}
use socks5_impl.Stream.Laws.{bind-ok, then-ok}
use socks5_impl.Stream.Delivery.{IsReady}
use socks5_impl.Client.Datagram.{arrived}
use socks5_impl.Client.Init.Steps.{told}
use socks5_impl.Client.Udp.{returns}
use socks5_impl.Example.Dns.{
  Messages, RData, IpAddr, build_dns_query, parse_data_to_dns_message,
  extract_domain_from_dns_message,
}
use socks5_impl.Example.Dns.Laws.{
  over_tcp, build-over_tcp, parse-over_tcp, ip_of, HasNone, extract_ipaddr-first,
}
use socks5_impl.Example.Query.{CmdOpt, Hosts, validate, ask, answered, dns_query_from_server}
use socks5_impl.Example.Query.Program.{
  fallible, run, query_type, trim_end_dots, parse_named, query_main,
}

-- The record that is asked for: A has the number 1, AAAA 28.
abbrev pub record_number : SocketAddr → ℕ
record_number (v4 ip port) = 1
record_number (v6 ip port flowinfo scope) = 28

asked_type : (server : SocketAddr) → query_type server ≡ record_number server
asked_type (v4 ip port) = refl
asked_type (v6 ip port flowinfo scope) = refl

-- A name without a dot at its end.
abbrev pub IsBare : List ℕ → Type 0
IsBare name = (front : List ℕ) × (c : ℕ) × (name ≡ front ++ (c ∷ [])) × (c ≢ b'.')

trim_bare :
    (front : List ℕ) (c : ℕ)
    → c ≢ b'.'
    → trim_end_dots ((front ++ (c ∷ [])) ++ (b'.' ∷ [])) ≡ front ++ (c ∷ [])
unfolding trim_end_dots
trim_bare [] c h = ground (arith, h)
trim_bare (x ∷ []) c h = rw (trim_bare [] c h)
trim_bare (x ∷ y ∷ front) c h = rw (trim_bare (y ∷ front) c h)

IsBare-trimmed : (name : List ℕ) → IsBare name → trim_end_dots (name ++ (b'.' ∷ [])) ≡ name
IsBare-trimmed name (front, c, e, h) = rw e (trim_bare front c h)

ask-told : (bs : List ℕ) (c : Conn) → IsReady (length bs) c.out → ask bs c ≡ (ok tt, told bs c)
unfolding ask write_all flush transmit
ask-told bs c h = ground (arith, append-nil (c.out.sent ++ bs))

module _ {Message : Type 0} (dns : Messages Message) (hosts : Hosts) (opt : CmdOpt) where
  -- The query goes out to the server itself, and its answer is read.
  asked_directly :
      (query : List ℕ) (c : Conn)
      → opt.tcp ≡ true
      → opt.via_proxy ≡ false
      → hosts.connect_server opt.remote_dns_server ≡ ok c
      → IsReady (length query) c.out
      → dns_query_from_server hosts opt query ≡ returns (answered (hosts.read (told query c)))
  unfolding dns_query_from_server
  asked_directly query c tcp direct reached room = rw (tcp, direct, reached, ask-told query c room)

  parse_named-ok :
      (buf : List ℕ) (message : Message) (names : List (List ℕ)) (s : Unit {0})
      → parse_data_to_dns_message dns buf opt.tcp ≡ ok message
      → dns.queries message ≡ (opt.domain ++ (b'.' ∷ [])) ∷ names
      → IsBare opt.domain
      → parse_named dns hosts opt buf s ≡ (ok message, s)
  unfolding parse_named extract_domain_from_dns_message
  parse_named-ok buf message names s read named bare =
      rw (read, named, IsBare-trimmed opt.domain bare, bytes_eq_refl opt.domain)

  named_over_tcp :
      (msg : List ℕ) (message : Message) (names : List (List ℕ))
      → opt.tcp ≡ true
      → dns.from_vec msg ≡ ok message
      → dns.queries message ≡ (opt.domain ++ (b'.' ∷ [])) ∷ names
      → IsBare opt.domain
      → parse_named dns hosts opt (over_tcp msg) tt ≡ (ok message, tt)
  named_over_tcp msg message names tcp read named bare =
      parse_named-ok (over_tcp msg) message names tt
        (rw (tcp, ← read) (rw append-nil at (parse-over_tcp dns msg []))) named bare

  -- A message whose name is that of the options with a dot at its end.
  abbrev pub Names : List ℕ → Message → Type 0
  Names msg message =
      (dns.from_vec msg ≡ ok message)
      × (names : List (List ℕ)) × (dns.queries message ≡ (opt.domain ++ (b'.' ∷ [])) ∷ names)

  -- Without a proxy, over TCP, where the server is reached by a connection with room for the query, which
  -- has fewer than 65536 bytes, and the name of the options has no dot at its end: the query that goes out
  -- is the one for that name and for a record A if the server has an IPv4 address, AAAA otherwise,
  -- behind the two bytes of its length. If the library reads the query as one for that name, and the read
  -- that follows delivers, within the 1500 bytes of the buffer, a message for the same name without
  -- an error, behind its length, whose answers all have data up to the first one with an address, then
  -- that address is printed.
  pub query_main_prints :
      (msg reply : List ℕ) (own message : Message) (skipped : List RData) (d : RData) (ip : IpAddr)
      (rest : List (Option RData)) (c : Conn)
      → opt.tcp ≡ true
      → opt.via_proxy ≡ false
      → IsBare opt.domain
      → dns.to_vec opt.domain (record_number opt.remote_dns_server) ≡ ok msg
      → length msg < 65536
      → Names msg own
      → hosts.connect_server opt.remote_dns_server ≡ ok c
      → IsReady (2 + length msg) c.out
      → hosts.read (told (over_tcp msg) c) ≡ arrived (over_tcp reply)
      → 2 + length reply ≤ 1500
      → Names reply message
      → dns.is_no_error message ≡ true
      → dns.answers message ≡ map (λ (x : RData). some x) skipped ++ (some d ∷ rest)
      → All HasNone skipped
      → ip_of d ≡ some ip
      → query_main dns hosts opt tt ≡ (ok ip, tt)
  unfolding query_main validate
  query_main_prints msg reply own message skipped d ip rest c tcp direct bare built short
        (read, names, named) reached room heard fits (read', names', named') fine answers none_yet
        here =
      let goes_out =
        build-over_tcp dns opt.domain msg (record_number opt.remote_dns_server) built short in
      let own_named = named_over_tcp msg own names tcp read named bare in
      let asked =
        asked_directly (over_tcp msg) c tcp direct reached (room.0, omega (arith, room.1)) in
      let reply_named = named_over_tcp reply message names' tcp read' named' bare in
      let printed = extract_ipaddr-first dns message skipped d ip rest fine answers none_yet here in
      let whole = take_all 1500 (over_tcp reply) (omega (arith, fits)) in
      then-ok (fallible (validate opt)) _ tt (rw direct refl)
      ∙ bind-ok
          (fallible (build_dns_query dns opt.domain (query_type opt.remote_dns_server) opt.tcp)) _
          tt (rw (asked_type opt.remote_dns_server, tcp, goes_out))
      ∙ bind-ok (parse_named dns hosts opt (over_tcp msg)) _ tt own_named
      ∙ bind-ok (run (dns_query_from_server hosts opt (over_tcp msg))) _ tt
          (rw (asked, heard, whole))
      ∙ bind-ok (parse_named dns hosts opt (over_tcp reply)) _ tt reply_named
      ∙ rw printed
