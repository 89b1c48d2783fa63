-- ===== src/Protocol/Address/Text.antt =====
-- src/protocol/address.rs: `Display` and `TryFrom<&str>`, one after the other.
use socks5_impl.Prelude.{
  ℕ, zero, suc, ◌+◌, ◌*◌, ◌/◌, ◌%◌, ◌≤◌, ◌<◌, ◌≡◌, refl, ap, ◌∙◌, Bool, true, false, ◌==◌, ltb,
  if◌then◌else◌, List, [], ◌∷◌, ◌++◌, Option, none, some, All, arith, Bool-cases, inl, inr,
}
use socks5_impl.Stream.{ok}
use socks5_impl.Protocol.Address.{domain_address}
use socks5_impl.Protocol.Address.Convert.{
  Std, scan_u16, parse_u16, or_here, split_last_colon, host_and_port, named, name_and_port,
  or_named, show, address_of_text,
}

-- `impl Display for u16`: the digits of `n`, the last one first; the rounds left are more than `n`.
digits_before : ℕ → ℕ → List ℕ → List ℕ
digits_before zero n out = out
digits_before (suc f) n out =
    let rest = digits_before f (n / 10) ((b'0' + n % 10) ∷ out) in
    if ltb n 10 then (b'0' + n % 10) ∷ out else rest

unfoldable pub show_u16 : ℕ → List ℕ
unfolding digits_before
show_u16 n = digits_before (suc n) n []

abbrev pub IsDigit : ℕ → Type 0
IsDigit c = (b'0' ≤ c) × (c ≤ b'9')

digits_before-IsDigit :
    (f n : ℕ) (out : List ℕ) → All IsDigit out → All IsDigit (digits_before f n out)
unfolding digits_before
digits_before-IsDigit zero n out h = h
digits_before-IsDigit (suc f) n out h = elim (Bool-cases (ltb n 10)) [
  | inl last ↦ rw last (omega arith, h)
  | inr more ↦ rw more (digits_before-IsDigit f (n / 10) _ (omega arith, h))
]

-- One more digit in front of what is scanned.
scan_digit :
    (n d : ℕ) (out : List ℕ)
    → d < 10
    → n * 10 + d ≤ 65535
    → scan_u16 n ((b'0' + d) ∷ out) ≡ scan_u16 (n * 10 + d) out
unfolding scan_u16
scan_digit n d out h fits = ground arith

digit_alone : (n : ℕ) → ltb n 10 ≡ true → 0 * 10 + n % 10 ≡ n
digit_alone n h = ground arith

scan-digits_before :
    (f n : ℕ) (out : List ℕ)
    → n < f
    → n ≤ 65535
    → scan_u16 0 (digits_before f n out) ≡ scan_u16 n out
unfolding digits_before
scan-digits_before zero n out h fits = absurd (omega arith)
scan-digits_before (suc f) n out h fits = elim (Bool-cases (ltb n 10)) [
  | inl last ↦ rw last (
      scan_digit 0 (n % 10) out (omega arith) (omega arith)
      ∙ ap (λ (k : ℕ). scan_u16 k out) (digit_alone n last))
  | inr more ↦ rw more (
      scan-digits_before f (n / 10) ((b'0' + n % 10) ∷ out) (ground arith) (omega arith)
      ∙ scan_digit (n / 10) (n % 10) out (omega arith) (omega arith)
      ∙ ap (λ (k : ℕ). scan_u16 k out) (omega arith))
]

-- The digits of a number are a list that is not empty.
digits_before-cons :
    (f n : ℕ) (out : List ℕ) → n < f → (c : ℕ) × (cs : List ℕ) × (digits_before f n out ≡ c ∷ cs)
unfolding digits_before
digits_before-cons zero n out h = absurd (omega arith)
digits_before-cons (suc f) n out h = elim (Bool-cases (ltb n 10)) [
  | inl last ↦ (b'0' + n % 10, out, rw last refl)
  | inr more ↦ rw more (digits_before-cons f (n / 10) ((b'0' + n % 10) ∷ out) (ground arith))
]

parse_digits : (c : ℕ) (cs : List ℕ) → IsDigit c → parse_u16 (c ∷ cs) ≡ scan_u16 0 (c ∷ cs)
unfolding parse_u16
parse_digits c [] h = refl
parse_digits c (d ∷ cs) h = let unsigned : (c == b'+') ≡ false = ground arith in rw unsigned refl

parse_scanned :
    (ds : List ℕ) (c : ℕ) (cs : List ℕ)
    → ds ≡ c ∷ cs
    → All IsDigit ds
    → parse_u16 ds ≡ scan_u16 0 ds
parse_scanned [] c cs e h = cc
parse_scanned (d ∷ ds) c cs e (h, hs) = parse_digits d ds h

scanned : (n : ℕ) → scan_u16 n [] ≡ ok n
unfolding scan_u16
scanned n = refl

show_u16-IsDigit : (n : ℕ) → All IsDigit (show_u16 n)
unfolding show_u16
show_u16-IsDigit n = digits_before-IsDigit (suc n) n [] tt

parse_u16-show_u16 : (n : ℕ) → n ≤ 65535 → parse_u16 (show_u16 n) ≡ ok n
unfolding show_u16
parse_u16-show_u16 n fits =
    let (c, cs, e) = digits_before-cons (suc n) n [] (omega arith) in
    parse_scanned (digits_before (suc n) n []) c cs e (digits_before-IsDigit (suc n) n [] tt)
    ∙ scan-digits_before (suc n) n [] (omega arith) fits
    ∙ scanned n

-- Digits have no colon.
split-digits : (ds : List ℕ) → All IsDigit ds → split_last_colon ds ≡ none
unfolding split_last_colon
split-digits [] h = refl
split-digits (d ∷ ds) (h, hs) =
    let other : (d == b':') ≡ false = ground arith in rw (split-digits ds hs, other)

not_here :
    (here : Bool) (cs : List ℕ) (found : List ℕ × List ℕ)
    → or_here here cs (some found) ≡ some found
not_here true cs found = refl
not_here false cs found = refl

split-after :
    (name ds : List ℕ) → All IsDigit ds → split_last_colon (name ++ (b':' ∷ ds)) ≡ some (name, ds)
unfolding split_last_colon
split-after [] ds h = rw (split-digits ds h)
split-after (c ∷ name) ds h = rw (split-after name ds h) (not_here (c == b':') _ (c ∷ name, ds))

-- What is no socket address is split at its last colon.
address_of_text-split :
    (std : Std) (addr name ds : List ℕ)
    → std.parse_socket_addr addr ≡ none
    → split_last_colon addr ≡ some (name, ds)
    → address_of_text std addr ≡ named name (parse_u16 ds)
unfolding address_of_text
address_of_text-split std addr name ds other split =
    ap (or_named addr) other
    ∙ ap (λ (f : Option (List ℕ × List ℕ)). name_and_port (host_and_port addr f)) split

-- A name and a port that are printed are read as the same name and port, whatever the name is, unless
-- `std` reads the text as a socket address.
pub address_of_text-show :
    (std : Std) (name : List ℕ) (port : ℕ)
    → port ≤ 65535
    → std.parse_socket_addr (show std show_u16 (domain_address name port)) ≡ none
    → address_of_text std (show std show_u16 (domain_address name port))
      ≡ ok (domain_address name port)
unfolding show
address_of_text-show std name port fits other =
    address_of_text-split std _ name (show_u16 port) other
      (split-after name (show_u16 port) (show_u16-IsDigit port))
    ∙ ap (named name) (parse_u16-show_u16 port fits)
