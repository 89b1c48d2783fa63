-- ===== src/Example/Dns/Laws.antt =====
-- examples/util/dns.rs: the frame of a message over TCP.
use Prim.Native.String.{String}
use socks5_impl.Prelude.{
  ℕ, ◌+◌, ◌*◌, ◌/◌, ◌%◌, ◌<◌, ◌≡◌, refl, ap, ◌∙◌, leb, true, false, List, [], ◌∷◌, ◌++◌, Option,
  none, some, length, length-append, take-append_length, map, All, arith,
}
use socks5_impl.Stream.{ok}
use socks5_impl.Example.Dns.{
  Messages, RData, a, aaaa, cname, other, IpAddr, v4, v6, find_ipaddr,
  extract_ipaddr_from_dns_message, get_len, build_dns_query, parse_found, parse_data_to_dns_message,
}

get_len-append : (msg rest : List ℕ) → get_len (length msg) (msg ++ rest) ≡ some msg
get_len-append msg rest =
    let fits : leb (length msg) (length (msg ++ rest)) ≡ true =
      ground (arith, length-append msg rest) in
    rw fits (ap (λ (bs : List ℕ). some bs) (take-append_length msg rest (length msg) refl))

frame_length : (n : ℕ) → (n / 256) * 256 + n % 256 ≡ n
frame_length n = omega arith

high_byte : (n : ℕ) → n < 65536 → (n / 256) % 256 ≡ n / 256
high_byte n h = omega arith

-- Two bytes of length, the higher one first, and the message.
abbrev pub over_tcp : List ℕ → List ℕ
over_tcp msg = (length msg / 256) ∷ (length msg % 256) ∷ msg

pub parse-over_tcp :
    {Message : Type 0} (dns : Messages Message) (msg rest : List ℕ)
    → parse_data_to_dns_message dns (over_tcp msg ++ rest) true ≡ dns.from_vec msg
unfolding parse_data_to_dns_message
parse-over_tcp dns msg rest =
    ap (λ (n : ℕ). parse_found dns (get_len n (msg ++ rest))) (frame_length (length msg))
    ∙ ap (parse_found dns) (get_len-append msg rest)

pub build-over_tcp :
    {Message : Type 0} (dns : Messages Message) (domain msg : List ℕ) (query_type : ℕ)
    → dns.to_vec domain query_type ≡ ok msg
    → length msg < 65536
    → build_dns_query dns domain query_type true ≡ ok (over_tcp msg)
unfolding build_dns_query
build-over_tcp dns domain msg query_type e fits = rw (e, high_byte (length msg) fits)

-- A query of fewer than 65536 bytes goes out over TCP behind the two bytes of its length, and over UDP
-- as it is; both are read as the message that its bytes encode, over TCP whatever stands behind it in
-- the stream.
pub parse-build :
    {Message : Type 0} (dns : Messages Message) (domain msg rest : List ℕ) (query_type : ℕ)
    → dns.to_vec domain query_type ≡ ok msg
    → length msg < 65536
    → (build_dns_query dns domain query_type true ≡ ok (over_tcp msg))
      × (parse_data_to_dns_message dns (over_tcp msg ++ rest) true ≡ dns.from_vec msg)
      × (build_dns_query dns domain query_type false ≡ ok msg)
      × (parse_data_to_dns_message dns msg false ≡ dns.from_vec msg)
unfolding build_dns_query parse_data_to_dns_message
parse-build dns domain msg rest query_type e fits =
    (build-over_tcp dns domain msg query_type e fits, parse-over_tcp dns msg rest, rw e, refl)

abbrev pub ip_of : RData → Option IpAddr
ip_of (a addr) = some (v4 addr)
ip_of (aaaa addr) = some (v6 addr)
ip_of (cname name) = none
ip_of other = none

abbrev pub HasNone : RData → Type 0
HasNone d = ip_of d ≡ none

find_ipaddr-here :
    (d : RData) (ip : IpAddr) (rest : List (Option RData)) (alias : Option String)
    → ip_of d ≡ some ip
    → find_ipaddr (some d ∷ rest) alias ≡ (some (ok ip), alias)
unfolding find_ipaddr
find_ipaddr-here (a addr) ip rest alias h = cc
find_ipaddr-here (aaaa addr) ip rest alias h = cc
find_ipaddr-here (cname name) ip rest alias h = cc
find_ipaddr-here other ip rest alias h = cc

find_ipaddr-first :
    (skipped : List RData) (d : RData) (ip : IpAddr) (rest : List (Option RData))
    (alias : Option String)
    → All HasNone skipped
    → ip_of d ≡ some ip
    → (last : Option String) × (find_ipaddr
          (map (λ (x : RData). some x) skipped ++ (some d ∷ rest))
          alias
        ≡ (some (ok ip), last))
unfolding find_ipaddr
find_ipaddr-first [] d ip rest alias h e = (alias, find_ipaddr-here d ip rest alias e)
find_ipaddr-first (a x ∷ skipped) d ip rest alias (h, hs) e = cc
find_ipaddr-first (aaaa x ∷ skipped) d ip rest alias (h, hs) e = cc
find_ipaddr-first (cname x ∷ skipped) d ip rest alias (h, hs) e =
    find_ipaddr-first skipped d ip rest (some x) hs e
find_ipaddr-first (other ∷ skipped) d ip rest alias (h, hs) e =
    find_ipaddr-first skipped d ip rest alias hs e

-- From a message without an error code, whose answers all have data up to the first one with an
-- address, that address is extracted, whatever aliases stand before it and whatever stands behind it.
pub extract_ipaddr-first :
    {Message : Type 0} (dns : Messages Message) (message : Message) (skipped : List RData)
    (d : RData) (ip : IpAddr) (rest : List (Option RData))
    → dns.is_no_error message ≡ true
    → dns.answers message ≡ map (λ (x : RData). some x) skipped ++ (some d ∷ rest)
    → All HasNone skipped
    → ip_of d ≡ some ip
    → extract_ipaddr_from_dns_message dns message ≡ ok ip
unfolding extract_ipaddr_from_dns_message
extract_ipaddr-first dns message skipped d ip rest fine has hs e =
    let (last, first) = find_ipaddr-first skipped d ip rest none hs e in rw (fine, has, first)
