-- ===== src/Protocol/Handshake/AuthMethod.antt =====
-- src/protocol/handshake/auth_method.rs
use socks5_impl.Prelude.{
  ℕ, ◌≤◌, ◌≡◌, refl, ◌==◌, leb, if◌then◌else◌, Bool, true, false, arith, IsByte,
}

pub data AuthMethod : Type 0 where
  no_auth gss_api user_pass : AuthMethod
  iana_reserved private : ℕ → AuthMethod
  no_acceptable_methods : AuthMethod

-- `From<u8>`: the last arm of the source is 0xff, the one byte that is left.
unfoldable pub from_u8 : ℕ → AuthMethod
from_u8 value =
    if value == 0x00
    then no_auth
    else if value == 0x01
    then gss_api
    else if value == 0x02
    then user_pass
    else if leb value 0x7f
    then iana_reserved value
    else if leb value 0xfe
    then private value
    else no_acceptable_methods

unfoldable pub to_u8 : AuthMethod → ℕ
to_u8 no_auth = 0x00
to_u8 gss_api = 0x01
to_u8 user_pass = 0x02
to_u8 (iana_reserved value) = value
to_u8 (private value) = value
to_u8 no_acceptable_methods = 0xff

-- The derived `==`.
unfoldable pub method_eq : AuthMethod → AuthMethod → Bool
method_eq no_auth no_auth = true
method_eq gss_api gss_api = true
method_eq user_pass user_pass = true
method_eq (iana_reserved a) (iana_reserved b) = a == b
method_eq (private a) (private b) = a == b
method_eq no_acceptable_methods no_acceptable_methods = true
method_eq _ _ = false

-- The ranges that the comments of the type give for the two numbered kinds.
abbrev pub IsCanonical : AuthMethod → Type 0
IsCanonical (iana_reserved value) = (0x03 ≤ value) × (value ≤ 0x7f)
IsCanonical (private value) = (0x80 ≤ value) × (value ≤ 0xfe)
IsCanonical _ = Unit {0}

pub from_u8-to_u8 : (m : AuthMethod) → IsCanonical m → from_u8 (to_u8 m) ≡ m
unfolding from_u8 to_u8
from_u8-to_u8 no_auth h = refl
from_u8-to_u8 (iana_reserved value) h = ground arith
from_u8-to_u8 (private value) h = ground arith
from_u8-to_u8 _ h = refl

pub to_u8-from_u8 : (b : ℕ) → IsByte b → to_u8 (from_u8 b) ≡ b
unfolding from_u8 to_u8
to_u8-from_u8 b h = ground arith

pub from_u8-IsCanonical : (b : ℕ) → IsByte b → IsCanonical (from_u8 b)
unfolding from_u8
from_u8-IsCanonical b h = ground arith

pub method_eq→eq : (m n : AuthMethod) → method_eq m n ≡ true → m ≡ n
unfolding method_eq
method_eq→eq no_auth n h = ground arith
method_eq→eq _ n h = ground arith

pub method_eq_refl : (m : AuthMethod) → method_eq m m ≡ true
unfolding method_eq
method_eq_refl no_auth = refl
method_eq_refl (iana_reserved a) = ground arith
method_eq_refl (private a) = ground arith
method_eq_refl _ = refl
