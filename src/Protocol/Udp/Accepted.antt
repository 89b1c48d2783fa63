-- ===== src/Protocol/Udp/Accepted.antt =====
-- src/protocol/udp.rs: the inputs that the reader accepts.
use socks5_impl.Prelude.{
  ℕ, ◌+◌, ◌≤◌, ◌≡◌, refl, List, [], ◌∷◌, ◌++◌, All, IsByte, length, length-append, drop,
  drop-append_length, arith,
}
use socks5_impl.Stream.{ok, read_exact}
use socks5_impl.Stream.Laws.{>>=-elim}
use socks5_impl.Protocol.Address
use socks5_impl.Protocol.Address.{Address, IsAddress, IsWritable}
use socks5_impl.Protocol.Address.Decode.{retrieve-Took}
use socks5_impl.Protocol.Address.Contract.{address_operation-Lawful}
use socks5_impl.Protocol.Udp.{UdpHeader, retrieve_from_stream, len, IsUdpHeader, IsWritableHeader}

-- What a header that was read began with: any two bytes may stand in the reserved place.
abbrev pub Took : List ℕ → UdpHeader → List ℕ → Type 0
Took bs x rest =
    (first second : ℕ) × (bs
      ≡ first ∷ second ∷ x.frag ∷ (Address.write_to_buf x.address [] ++ rest))
    × IsUdpHeader x
    × IsWritableHeader x

header-Took :
    (bs rest : List ℕ) (x : UdpHeader)
    → All IsByte bs
    → retrieve_from_stream bs ≡ (ok x, rest)
    → Took bs x rest
unfolding retrieve_from_stream read_exact
header-Took [] rest x h e = cc
header-Took (a ∷ []) rest x h e = cc
header-Took (a ∷ b ∷ []) rest x h e = cc
header-Took (a ∷ b ∷ frag ∷ bs) rest x h e =
    >>=-elim Address.retrieve_from_stream _ bs e λ address u q e1.
      let (s, v, w) = retrieve-Took bs u address h.1.1.1 q in
      let value : record { frag = frag; address = address } ≡ x = cc in
      let rest_eq : u ≡ rest = cc in rw (← value, ← rest_eq) (a, b, rw s refl, v, w)

-- A header that was read stands at the front of the packet's bytes: its length is at most that of
-- the packet, and the packet without that many bytes is what stands behind it.
pub header-fits :
    (bs rest : List ℕ) (x : UdpHeader)
    → All IsByte bs
    → retrieve_from_stream bs ≡ (ok x, rest)
    → (len x ≤ length bs) × (drop (len x) bs ≡ rest)
unfolding len
header-fits bs rest x h e =
    let (a, b, s, v, w) = header-Took bs rest x h e in
    let front : List ℕ = a ∷ b ∷ x.frag ∷ Address.write_to_buf x.address [] in
    let size : 3 + Address.len x.address ≡ length front =
      omega (arith, address_operation-Lawful.measures x.address v) in
    rw s (
      omega (arith, size, length-append front rest),
      drop-append_length front rest (3 + Address.len x.address) size,
    )
