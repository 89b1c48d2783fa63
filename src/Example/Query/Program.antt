-- ===== src/Example/Query/Program.antt =====
-- examples/dns-query.rs: `main`, from the options on to the address that is printed.
pub mod Laws
pub mod Printed
use Prim.Native.String.{String}
use socks5_impl.Prelude.{ℕ, ◌==◌, Bool, true, false, if◌then◌else◌, List, [], ◌∷◌, bytes_eq}
use socks5_impl.Error.{Error, string}
use socks5_impl.Net.{SocketAddr, is_ipv4}
use socks5_impl.Stream.{Result, ok, err, Act, ◌>>=◌, ◌>>◌, pure, raise, lift}
use socks5_impl.Client.Udp.{Outcome, returns, panics}
use socks5_impl.Example.Dns.{
  Messages, IpAddr, build_dns_query, parse_data_to_dns_message, extract_domain_from_dns_message,
  extract_ipaddr_from_dns_message,
}
use socks5_impl.Example.Query.{CmdOpt, Hosts, validate, dns_query_from_server}

-- How `main` can stop before it prints: with an error, or in an `assert_eq!` or an `unwrap`.
pub data Stop : Type 0 where
  fails : Error → Stop
  panic : Stop

abbrev pub Step : Type 0 → Type 0
Step A = Act (Unit {0}) Stop A

-- `?`, on a `String` and on the library's error.
abbrev pub fallible : {A : Type 0} → Result String A → Step A
fallible (ok a) = pure a
fallible (err e) = raise (fails (string e))

abbrev pub run : Outcome → Step (List ℕ)
run (returns (ok buf)) = pure buf
run (returns (err e)) = raise (fails e)
run panics = raise panic

abbrev pub assert : Bool → Step (Unit {0})
assert holds = if holds then pure tt else raise panic

-- `RecordType::A` and `RecordType::AAAA`
abbrev pub query_type : SocketAddr → ℕ
query_type server = if is_ipv4 server then 1 else 28

-- `trim_end_matches('.')`
abbrev pub trim_dot : ℕ → List ℕ → List ℕ
trim_dot c [] = if c == b'.' then [] else c ∷ []
trim_dot c (d ∷ ds) = c ∷ d ∷ ds

unfoldable pub trim_end_dots : List ℕ → List ℕ
trim_end_dots [] = []
trim_end_dots (c ∷ cs) = trim_dot c (trim_end_dots cs)

module _ {Message : Type 0} (dns : Messages Message) (hosts : Hosts) (opt : CmdOpt) where
  -- A message whose name, without the dots at its end, is that of the options.
  unfoldable pub parse_named : List ℕ → Step Message
  unfolding trim_end_dots
  parse_named buf = do
    message ← fallible (parse_data_to_dns_message dns buf opt.tcp)
    name ← fallible (extract_domain_from_dns_message dns message)
    assert (bytes_eq (trim_end_dots name) opt.domain)
    pure message

  unfoldable pub query_main : Step IpAddr
  unfolding parse_named
  query_main = do
    fallible (validate opt)
    msg_buf ← fallible (build_dns_query dns opt.domain (query_type opt.remote_dns_server) opt.tcp)
    own ← parse_named msg_buf
    buf ← run (dns_query_from_server hosts opt msg_buf)
    message ← parse_named buf
    fallible (extract_ipaddr_from_dns_message dns message)
