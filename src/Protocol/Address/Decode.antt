-- ===== src/Protocol/Address/Decode.antt =====
-- src/protocol/address.rs: the inputs that the readers accept.
use socks5_impl.Prelude.{
  ℕ, ◌+◌, ◌%◌, ◌≡◌, refl, ◌∙◌, List, [], ◌∷◌, ◌++◌, length, take, length-take, take-two_last,
  get_or, append_assoc, arith, from_be_bytes, to_be_bytes-from_be_bytes, true, IsByte, All,
  All-front, All-back,
}
use socks5_impl.Net.{v4, v6_from}
use socks5_impl.Error.{IoError}
use socks5_impl.Stream.{Result, ok, lift, read_exact, read_u8}
use socks5_impl.Stream.Laws.{>>=-elim, read_exact-elim}
use socks5_impl.Stream.Framing.{Streams, streams_rules}
use socks5_impl.Stream.Utf8.{is_utf8}
use socks5_impl.Protocol.AddressType
use socks5_impl.Protocol.AddressType.{AddressType, ipv4, ipv6, domain, AddressType-IsCode}
use socks5_impl.Protocol.Address.{
  Address, socket_address, domain_address, from_utf8, retrieve_body, retrieve_from_stream,
  retrieve_async_body, retrieve_from_async_stream, write_to_buf, IsAddress, IsWritable,
}
use socks5_impl.Protocol.Address.Encode.{retrieve_from_async_stream-eq}

-- The reader stops behind the address.
from_utf8-Streams : (buf : List ℕ) → Streams (from_utf8 buf)
unfolding from_utf8
from_utf8-Streams buf = search streams_rules

retrieve_body-Streams : (kind : AddressType) → Streams (retrieve_body kind)
unfolding retrieve_body
retrieve_body-Streams ipv4 = search streams_rules
retrieve_body-Streams domain = search (streams_rules, from_utf8-Streams)
retrieve_body-Streams ipv6 = search streams_rules

pub retrieve-Streams : Streams retrieve_from_stream
unfolding retrieve_from_stream
retrieve-Streams = search (streams_rules, retrieve_body-Streams)

-- What a reader that answered has taken off its input.
abbrev pub Took : List ℕ → Address → List ℕ → Type 0
Took bs x rest = (bs ≡ write_to_buf x [] ++ rest) × IsAddress x × IsWritable x

-- The three shapes, with what was read in them.
Took-v4 :
    (a b rest : List ℕ)
    → length a ≡ 4
    → length b ≡ 2
    → All IsByte (a ++ (b ++ rest))
    → Took
        (AddressType.to_u8 ipv4 ∷ a ++ (b ++ rest))
        (socket_address (v4 a (from_be_bytes (get_or b 0 0) (get_or b 1 0))))
        rest
unfolding write_to_buf
Took-v4 a [] rest l m h = absurd (omega arith)
Took-v4 a (x ∷ []) rest l m h = absurd (omega arith)
Took-v4 a (hi ∷ lo ∷ []) rest l m h =
    let bytes = All-back IsByte a _ h in
    let lb = bytes.1.0 in
    (
      rw (to_be_bytes-from_be_bytes hi lo lb, append_assoc),
      (l, All-front IsByte a _ h, omega arith),
      tt,
    )
Took-v4 a (x ∷ y ∷ z ∷ b) rest l m h = absurd (omega arith)

Took-v6 :
    (a b rest : List ℕ)
    → length a ≡ 16
    → length b ≡ 2
    → All IsByte (a ++ (b ++ rest))
    → Took
        (AddressType.to_u8 ipv6 ∷ a ++ (b ++ rest))
        (socket_address (v6_from a (from_be_bytes (get_or b 0 0) (get_or b 1 0))))
        rest
unfolding write_to_buf
Took-v6 a [] rest l m h = absurd (omega arith)
Took-v6 a (x ∷ []) rest l m h = absurd (omega arith)
Took-v6 a (hi ∷ lo ∷ []) rest l m h =
    let bytes = All-back IsByte a _ h in
    let lb = bytes.1.0 in
    (
      rw (to_be_bytes-from_be_bytes hi lo lb, append_assoc),
      (l, All-front IsByte a _ h, omega arith),
      (refl, refl),
    )
Took-v6 a (x ∷ y ∷ z ∷ b) rest l m h = absurd (omega arith)

Took-domain :
    (n : ℕ) (name : List ℕ) (hi lo : ℕ) (rest : List ℕ)
    → length name ≡ n
    → is_utf8 name ≡ true
    → All IsByte (n ∷ (name ++ (hi ∷ lo ∷ [])) ++ rest)
    → Took
        (AddressType.to_u8 domain ∷ n ∷ (name ++ (hi ∷ lo ∷ [])) ++ rest)
        (domain_address name (from_be_bytes hi lo))
        rest
unfolding write_to_buf
Took-domain n name hi lo rest l u (nb, h) =
    let front = All-front IsByte (name ++ (hi ∷ lo ∷ [])) rest h in
    let bytes = All-back IsByte name _ front in
    let lb = bytes.1.0 in
    let small : length name % 256 ≡ n = omega arith in
    (
      rw (small, to_be_bytes-from_be_bytes hi lo lb),
      (u, All-front IsByte name _ front, omega arith),
      omega arith,
    )

from_utf8-eq-ok :
    (buf bs : List ℕ) {name rest : List ℕ}
    → from_utf8 buf bs ≡ (ok name, rest)
    → (is_utf8 buf ≡ true) × (name ≡ buf) × (rest ≡ bs)
unfolding from_utf8
from_utf8-eq-ok buf bs h = ground arith

Took-as :
    {bs bs' r rest : List ℕ} {x y : Address}
    → bs ≡ bs'
    → Took bs' y r
    → ◌≡◌ {A = Result IoError Address × List ℕ} (ok y, r) (ok x, rest)
    → Took bs x rest
Took-as {bs} {bs'} {r} {rest} {x} {y} s t e =
    let value : y ≡ x = cc in let left : r ≡ rest = cc in rw (s, ← value, ← left) t

body-Took :
    (kind : AddressType) (bs rest : List ℕ) (x : Address)
    → All IsByte bs
    → retrieve_async_body kind bs ≡ (ok x, rest)
    → Took (AddressType.to_u8 kind ∷ bs) x rest
unfolding retrieve_async_body read_u8
body-Took ipv4 bs rest x h e = read_exact-elim 4 _ bs e λ a r s l e1.
    read_exact-elim 2 _ r e1 λ b r' s' l' e2.
      let whole : bs ≡ a ++ (b ++ r') = rw (← s') s in
      Took-as (rw whole) (Took-v4 a b r' l l' (rw whole at h)) e2
body-Took domain [] rest x h e = cc
body-Took domain (n ∷ bs) rest x h e = read_exact-elim (n + 2) _ bs e λ a r s l e1.
    >>=-elim (from_utf8 (take n a)) _ r e1 λ name r' q e2.
      let parts : bs ≡ (take n a ++ (get_or a n 0 ∷ get_or a (n + 1) 0 ∷ [])) ++ r =
        rw (← take-two_last n a 0 l) s in
      let (u, same, left) = from_utf8-eq-ok (take n a) r q in
      Took-as (rw parts)
        (Took-domain n (take n a) (get_or a n 0) (get_or a (n + 1) 0) r
          (length-take n a (omega arith)) u (rw parts at h))
        (rw (same, left) at e2)
body-Took ipv6 bs rest x h e = read_exact-elim 16 _ bs e λ a r s l e1.
    read_exact-elim 2 _ r e1 λ b r' s' l' e2.
      let whole : bs ≡ a ++ (b ++ r') = rw (← s') s in
      Took-as (rw whole) (Took-v6 a b r' l l' (rw whole at h)) e2

code-Took :
    (b : ℕ) (bs rest : List ℕ) (x : Address)
    → All IsByte (b ∷ bs)
    → retrieve_from_async_stream (b ∷ bs) ≡ (ok x, rest)
    → Took (b ∷ bs) x rest
unfolding retrieve_from_async_stream read_u8
code-Took b bs rest x h e = >>=-elim (lift (AddressType.try_from b)) _ bs e λ kind r q e1.
    let known : AddressType.try_from b ≡ ok kind = cc in
    let left : bs ≡ r = cc in
    rw (← AddressType-IsCode.exact b kind known) (body-Took kind bs rest x h.1 (rw (← left) at e1))

-- An address that was read is what the bytes of the input began with: only the encoding of a
-- well-formed and writable address is accepted.
pub retrieve-Took :
    (bs rest : List ℕ) (x : Address)
    → All IsByte bs
    → retrieve_from_stream bs ≡ (ok x, rest)
    → Took bs x rest
retrieve-Took [] rest x h e = unfold retrieve_from_stream read_exact in cc
retrieve-Took (b ∷ bs) rest x h e =
    code-Took b bs rest x h (retrieve_from_async_stream-eq (b ∷ bs) ∙ e)
