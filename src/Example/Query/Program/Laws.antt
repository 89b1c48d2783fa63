-- ===== src/Example/Query/Program/Laws.antt =====
-- examples/dns-query.rs: what an address that is printed comes from.
use Prim.Native.String.{String}
use socks5_impl.Prelude.{ℕ, ◌≡◌, refl, Bool, true, false, List, bytes_eq, bytes_eq→eq}
use socks5_impl.Stream.{Result, ok, err}
use socks5_impl.Stream.Laws.{>>=-elim}
use socks5_impl.Client.Udp.{Outcome, returns, panics}
use socks5_impl.Example.Dns.{
  Messages, IpAddr, build_dns_query, parse_data_to_dns_message, extract_domain_from_dns_message,
  extract_ipaddr_from_dns_message,
}
use socks5_impl.Example.Query.{CmdOpt, Hosts, validate, dns_query_from_server}
use socks5_impl.Example.Query.Program.{
  fallible, run, assert, query_type, trim_end_dots, parse_named, query_main,
}

fallible-eq-ok :
    {A : Type 0} (r : Result String A) (s t : Unit {0}) (a : A)
    → fallible r s ≡ (ok a, t)
    → r ≡ ok a
fallible-eq-ok (ok b) s t a h = cc
fallible-eq-ok (err e) s t a h = cc

run-eq-ok :
    (o : Outcome) (s t : Unit {0}) (buf : List ℕ) → run o s ≡ (ok buf, t) → o ≡ returns (ok buf)
run-eq-ok (returns (ok bs)) s t buf h = cc
run-eq-ok (returns (err e)) s t buf h = cc
run-eq-ok panics s t buf h = cc

assert-eq-ok : (b : Bool) (s t u : Unit {0}) → assert b s ≡ (ok u, t) → b ≡ true
assert-eq-ok true s t u h = refl
assert-eq-ok false s t u h = cc

module _ {Message : Type 0} (dns : Messages Message) (hosts : Hosts) (opt : CmdOpt) where
  -- Bytes that are read as a message whose first name is that of the options, but for dots at its end.
  abbrev IsNamed : List ℕ → Message → Type 0
  IsNamed buf message =
      (parse_data_to_dns_message dns buf opt.tcp ≡ ok message)
      × (name : List ℕ) × (extract_domain_from_dns_message dns message ≡ ok name)
      × (trim_end_dots name ≡ opt.domain)

  parse_named-eq-ok :
      (buf : List ℕ) (s t : Unit {0}) (message : Message)
      → parse_named dns hosts opt buf s ≡ (ok message, t)
      → IsNamed buf message
  unfolding parse_named
  parse_named-eq-ok buf s t message h =
      >>=-elim (fallible (parse_data_to_dns_message dns buf opt.tcp)) _ s h λ m s1 q e.
        >>=-elim (fallible (extract_domain_from_dns_message dns m)) _ s1 e λ name s2 q' e'.
          >>=-elim (assert (bytes_eq (trim_end_dots name) opt.domain)) _ s2 e' λ u s3 q'' e''.
            let same : m ≡ message = cc in
            let fits = assert-eq-ok (bytes_eq (trim_end_dots name) opt.domain) s2 s3 u q'' in
            rw (← same) (
              fallible-eq-ok (parse_data_to_dns_message dns buf opt.tcp) s s1 m q,
              name,
              fallible-eq-ok (extract_domain_from_dns_message dns m) s1 s2 name q',
              bytes_eq→eq (trim_end_dots name) opt.domain fits,
            )

  -- What the calls of a run that prints an address have returned; the name is compared both in the query and
  -- in the answer.
  query_main-asked :
      (addr : IpAddr) (s t : Unit {0})
      → query_main dns hosts opt s ≡ (ok addr, t)
      → (validate opt ≡ ok tt)
        × (msg_buf buf : List ℕ) × (message : Message) × (build_dns_query dns opt.domain
              (query_type opt.remote_dns_server)
              opt.tcp
            ≡ ok msg_buf)
        × (dns_query_from_server hosts opt msg_buf ≡ returns (ok buf))
        × IsNamed buf message
        × (extract_ipaddr_from_dns_message dns message ≡ ok addr)
  unfolding query_main
  query_main-asked addr s t h = >>=-elim (fallible (validate opt)) _ s h λ u s1 valid h1.
      >>=-elim
        (fallible (build_dns_query dns opt.domain (query_type opt.remote_dns_server) opt.tcp)) _ s1
        h1
        λ msg_buf s2 built h2.
          >>=-elim (parse_named dns hosts opt msg_buf) _ s2 h2 λ own s3 named h3.
            >>=-elim (run (dns_query_from_server hosts opt msg_buf)) _ s3 h3 λ buf s4 answered h4.
              >>=-elim (parse_named dns hosts opt buf) _ s4 h4 λ message s5 named' h5. (
                fallible-eq-ok (validate opt) s s1 u valid,
                msg_buf,
                buf,
                message,
                fallible-eq-ok _ s1 s2 msg_buf built,
                run-eq-ok (dns_query_from_server hosts opt msg_buf) s3 s4 buf answered,
                parse_named-eq-ok buf s4 s5 message named',
                fallible-eq-ok (extract_ipaddr_from_dns_message dns message) s5 t addr h5,
              )
