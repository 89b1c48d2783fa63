-- ===== src/Example/Dns.antt =====
-- examples/util/dns.rs. The messages of `hickory_proto` and their encoding are arguments.
pub mod Laws
use Prim.Native.String.{String}
use socks5_impl.Prelude.{
  ℕ, zero, suc, ◌+◌, ◌*◌, ◌/◌, ◌%◌, ◌-◌, ◌≤◌, leb, Bool, true, false, if◌then◌else◌, List, [], ◌∷◌,
  ◌++◌, Option, none, some, length, take,
}
use socks5_impl.Stream.{Result, ok, err}

-- The kinds of `RData` that the code tells apart.
pub data RData : Type 0 where
  a aaaa : List ℕ → RData
  cname : String → RData
  other : RData

-- `IpAddr`
pub data IpAddr : Type 0 where
  v4 v6 : List ℕ → IpAddr

pub record Messages (Message : Type 0) : Type 0 where
  -- a query for a name and a type, as bytes
  pub to_vec : List ℕ → ℕ → Result String (List ℕ)
  pub from_vec : List ℕ → Result String Message
  pub is_no_error : Message → Bool
  pub describe_code : Message → String
  -- the data of each answer, where it has some
  pub answers : Message → List (Option RData)
  pub describe_answers : Message → String
  -- the names of the queries
  pub queries : Message → List (List ℕ)

-- `(msg_buf.len() as u16).to_be_bytes()` and the message.
abbrev pub framed : Bool → List ℕ → List ℕ
framed true msg_buf = ((length msg_buf / 256) % 256) ∷ (length msg_buf % 256) ∷ msg_buf
framed false msg_buf = msg_buf

abbrev pub framing : Bool → Result String (List ℕ) → Result String (List ℕ)
framing used_by_tcp (ok msg_buf) = ok (framed used_by_tcp msg_buf)
framing used_by_tcp (err e) = err e

-- `data.get(2..len + 2)`, on what stands behind the two bytes of the length.
abbrev pub get_len : ℕ → List ℕ → Option (List ℕ)
get_len len bs = if leb len (length bs) then some (take len bs) else none

-- The loop of `extract_ipaddr_from_dns_message`, with the last alias so far: an address or an error
-- returns from it, and otherwise the alias is what it leaves.
unfoldable pub find_ipaddr :
    List (Option RData) → Option String → Option (Result String IpAddr) × Option String
find_ipaddr [] alias = (none, alias)
find_ipaddr (none ∷ rest) alias = (some (err "DNS response not contains answer data"), alias)
find_ipaddr (some (a addr) ∷ rest) alias = (some (ok (v4 addr)), alias)
find_ipaddr (some (aaaa addr) ∷ rest) alias = (some (ok (v6 addr)), alias)
find_ipaddr (some (cname name) ∷ rest) alias = find_ipaddr rest (some name)
find_ipaddr (some other ∷ rest) alias = find_ipaddr rest alias

abbrev pub found : String → Option (Result String IpAddr) × Option String → Result String IpAddr
found answers (some res, alias) = res
found answers (none, some alias) = err alias
found answers (none, none) = err answers

module _ {Message : Type 0} (dns : Messages Message) where
  unfoldable pub build_dns_query : List ℕ → ℕ → Bool → Result String (List ℕ)
  build_dns_query domain query_type used_by_tcp = framing used_by_tcp (dns.to_vec domain query_type)

  abbrev pub parse_found : Option (List ℕ) → Result String Message
  parse_found (some bs) = dns.from_vec bs
  parse_found none = err "invalid dns data"

  unfoldable pub parse_data_to_dns_message : List ℕ → Bool → Result String Message
  parse_data_to_dns_message bs false = dns.from_vec bs
  parse_data_to_dns_message (hi ∷ lo ∷ bs) true = parse_found (get_len (hi * 256 + lo) bs)
  parse_data_to_dns_message (hi ∷ []) true = err "invalid dns data"
  parse_data_to_dns_message [] true = err "invalid dns data"

  unfoldable pub extract_ipaddr_from_dns_message : Message → Result String IpAddr
  unfolding find_ipaddr
  extract_ipaddr_from_dns_message message =
      let looked = found (dns.describe_answers message) (find_ipaddr (dns.answers message) none) in
      if dns.is_no_error message then looked else err (dns.describe_code message)

  abbrev pub first_name : List (List ℕ) → Result String (List ℕ)
  first_name (name ∷ names) = ok name
  first_name [] = err "DnsRequest no query body"

  unfoldable pub extract_domain_from_dns_message : Message → Result String (List ℕ)
  extract_domain_from_dns_message message = first_name (dns.queries message)
