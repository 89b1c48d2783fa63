-- ===== src/Protocol/Password/UserKey.antt =====
-- src/protocol/handshake/password_method/mod.rs: the credentials, as the bytes of the two strings.
use socks5_impl.Prelude.{
  ℕ, ◌≤◌, ◌==◌, ◌≡◌, true, Bool, ◌&&◌, List, [], ◌∷◌, ◌++◌, length, if◌then◌else◌, bytes_eq,
  bytes_eq→eq, bytes_eq_refl, arith,
}
use socks5_impl.Error.{io_error, format, text, unsupported, invalid_data}
use socks5_impl.Stream.{Reader, pure, raise}
use socks5_impl.Stream.Utf8.{is_utf8}
use socks5_impl.Stream.Framing.{Streams, streams_rules}

-- `SUBNEGOTIATION_VERSION`
abbrev pub subnegotiation_version : ℕ
subnegotiation_version = 0x01

pub record UserKey : Type 0 where
  pub username : List ℕ
  pub password : List ℕ

unfoldable pub username_arr : UserKey → List ℕ
username_arr key = key.username

unfoldable pub password_arr : UserKey → List ℕ
password_arr key = key.password

-- The derived `==`.
unfoldable pub key_eq : UserKey → UserKey → Bool
key_eq a b = bytes_eq a.username b.username && bytes_eq a.password b.password

-- `impl Display for UserKey`, with `percent_encode(.., NON_ALPHANUMERIC)` as an argument.
abbrev pub show_parts : (List ℕ → List ℕ) → List ℕ → List ℕ → List ℕ
show_parts percent_encode [] [] = []
show_parts percent_encode [] (p ∷ ps) = b':' ∷ percent_encode (p ∷ ps)
show_parts percent_encode (u ∷ us) [] = percent_encode (u ∷ us)
show_parts percent_encode (u ∷ us) (p ∷ ps) =
    percent_encode (u ∷ us) ++ (b':' ∷ percent_encode (p ∷ ps))

unfoldable pub show : (List ℕ → List ℕ) → UserKey → List ℕ
show percent_encode key = show_parts percent_encode key.username key.password

-- `if ver != SUBNEGOTIATION_VERSION { return Err(..) }`
unfoldable pub require_subnegotiation : ℕ → Reader (Unit {0})
require_subnegotiation ver =
    if ver == subnegotiation_version
    then pure tt
    else raise (io_error unsupported (format "Unsupported sub-negotiation version {0:#x}" ver))

-- `String::from_utf8(buf).map_err(|e| io::Error::new(InvalidData, e))`
unfoldable pub from_utf8 : List ℕ → Reader (List ℕ)
from_utf8 buf =
    if is_utf8 buf then pure buf else raise (io_error invalid_data (text "invalid utf-8 sequence"))

pub require_subnegotiation-Streams : (ver : ℕ) → Streams (require_subnegotiation ver)
unfolding require_subnegotiation
require_subnegotiation-Streams ver = search streams_rules

pub from_utf8-Streams : (buf : List ℕ) → Streams (from_utf8 buf)
unfolding from_utf8
from_utf8-Streams buf = search streams_rules

-- Strings are UTF-8.
abbrev pub IsUserKey : UserKey → Type 0
IsUserKey key = (is_utf8 key.username ≡ true) × (is_utf8 key.password ≡ true)

-- The lengths fit in a byte.
abbrev pub IsWritableKey : UserKey → Type 0
IsWritableKey key = (length key.username ≤ 255) × (length key.password ≤ 255)

pub key_eq→eq : (a b : UserKey) → key_eq a b ≡ true → a ≡ b
unfolding key_eq
key_eq→eq a b h =
    ground (arith, bytes_eq→eq a.username b.username, bytes_eq→eq a.password b.password)

pub key_eq_refl : (a : UserKey) → key_eq a a ≡ true
unfolding key_eq
key_eq_refl a = rw (bytes_eq_refl a.username, bytes_eq_refl a.password)
