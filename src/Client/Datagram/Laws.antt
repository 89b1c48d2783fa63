-- ===== src/Client/Datagram/Laws.antt =====
-- src/client/mod.rs: the packets of `SocksDatagram` next to those of the server's socket.
use socks5_impl.Prelude.{
  ℕ, ◌-◌, ◌<◌, ◌≡◌, ◌≢◌, refl, sym, ap, ◌∙◌, List, [], ◌∷◌, ◌++◌, length, length-append, append-nil,
  arith, if◌then◌else◌, ◌==◌, false, Bool-cases, inl, inr,
}
use socks5_impl.Error.{Error, string, invalid_fragment_id}
use socks5_impl.Stream.{Result, ok, err, ◌>>◌, write_all, read_exact, read_u8}
use socks5_impl.Stream.Laws.{read_exact-append, bind-ok}
use socks5_impl.Protocol.Address
use socks5_impl.Protocol.Address.{Address, domain_address, IsAddress, IsWritable}
use socks5_impl.Protocol.Address.Encode.{write_to_buf-append}
use socks5_impl.Protocol.Udp
use socks5_impl.Protocol.Udp.Contract.{measures}
use socks5_impl.Server.Udp.{packet}
use socks5_impl.Client.Reader.{read_address, read_reserved, read_fragment_id}
use socks5_impl.Client.Reader.Laws.{read_address-write}
use socks5_impl.Client.Writer.{
  ClientWriter, put, put_byte, write_reserved, write_fragment_id, write_atyp,
}
use socks5_impl.Client.Writer.Laws.{put-put, put-then, write_address-eq, write_address_too_long}
use socks5_impl.Client.Datagram.{
  cursor, into_inner, write_datagram, build_socks5_udp_datagram, Datagram, read_payload,
  parse_datagram, parse_socks5_udp_response, get_buf_size,
}

packet-eq :
    (buf : List ℕ) (frag : ℕ) (addr : Address)
    → packet buf frag addr ≡ 0x00 ∷ 0x00 ∷ frag ∷ (Address.write_to_buf addr [] ++ buf)
unfolding packet Udp.write_to_buf
packet-eq buf frag addr =
    ap (λ (bs : List ℕ). bs ++ buf) (write_to_buf-append addr (0x00 ∷ 0x00 ∷ frag ∷ []))

write_datagram-eq :
    (buf : List ℕ) (addr : Address)
    → IsWritable addr
    → write_datagram buf addr cursor ≡ put (packet buf 0 addr) cursor
unfolding write_datagram write_reserved write_fragment_id
write_datagram-eq buf addr w =
    let bytes : List ℕ = Address.write_to_buf addr [] in
    ap
      (λ (k : ClientWriter).
        (put_byte 0x00 >> (put_byte 0x00 >> (put_byte 0x00 >> (k >> put buf)))) cursor)
      (write_address-eq addr w)
    ∙ put-then (0x00 ∷ []) (0x00 ∷ []) (put_byte 0x00 >> (put bytes >> put buf)) cursor
    ∙ put-then (0x00 ∷ 0x00 ∷ []) (0x00 ∷ []) (put bytes >> put buf) cursor
    ∙ put-then (0x00 ∷ 0x00 ∷ 0x00 ∷ []) bytes (put buf) cursor
    ∙ put-put (0x00 ∷ 0x00 ∷ 0x00 ∷ bytes) buf cursor
    ∙ ap (λ (bs : List ℕ). put bs cursor) (sym (packet-eq buf 0 addr))

-- The client builds the packet that the server's socket builds, unfragmented, of as many bytes as
-- `get_buf_size` reserves.
pub build-packet :
    (buf : List ℕ) (addr : Address)
    → IsAddress addr
    → IsWritable addr
    → (build_socks5_udp_datagram buf addr ≡ ok (packet buf 0 addr))
      × (length (packet buf 0 addr) ≡ get_buf_size (Address.len addr) (length buf))
unfolding build_socks5_udp_datagram get_buf_size
build-packet buf addr h w = (
  ap into_inner (write_datagram-eq buf addr w) ∙ unfold write_all in refl,
  unfold packet Udp.len in
      omega (
        arith,
        length-append (Udp.write_to_buf (Udp.new 0 addr) []) buf,
        measures (Udp.new 0 addr) h,
      ),
)

-- A datagram for a domain of more than 255 bytes is not built: the answer is an error.
build_too_long :
    (buf name : List ℕ) (port : ℕ)
    → 255 < length name
    → build_socks5_udp_datagram buf (domain_address name port) ≡ err (string "Too long string")
unfolding build_socks5_udp_datagram write_reserved write_fragment_id write_atyp write_all
build_too_long buf name port h = rw (write_address_too_long name port h)

read_payload-whole :
    (header buf : List ℕ) (addr : Address)
    → read_payload (length (header ++ buf)) addr buf
      ≡ (ok (record { read = length buf; address = addr; buf = buf }), [])
unfolding read_payload
read_payload-whole header buf addr =
    let size : length (header ++ buf) - (length (header ++ buf) - length buf) ≡ length buf =
      omega (arith, length-append header buf) in
    let all : read_exact (length buf) buf ≡ (ok buf, []) =
      rw append-nil at (read_exact-append (length buf) buf [] refl) in
    rw (size, all)

parse_fields :
    (len frag : ℕ) (buf : List ℕ) (addr : Address)
    → IsAddress addr
    → IsWritable addr
    → parse_datagram len (0x00 ∷ 0x00 ∷ frag ∷ (Address.write_to_buf addr [] ++ buf)) ≡ (
        if frag == 0
        then read_payload len addr buf
        else (err (invalid_fragment_id frag), Address.write_to_buf addr [] ++ buf))
unfolding parse_datagram read_reserved read_fragment_id read_u8
parse_fields len frag buf addr h w = elim (Bool-cases (frag == 0)) [
  | inl zero_frag ↦ rw zero_frag (
      bind-ok read_address (read_payload len) (Address.write_to_buf addr [] ++ buf)
        (read_address-write addr buf h w))
  | inr other ↦ rw other
]

parse-fields :
    (buf : List ℕ) (frag : ℕ) (addr : Address)
    → IsAddress addr
    → IsWritable addr
    → parse_socks5_udp_response (packet buf frag addr)
      ≡ (if frag == 0
          then read_payload (length (packet buf frag addr)) addr buf
          else (err (invalid_fragment_id frag), Address.write_to_buf addr [] ++ buf)).0
unfolding parse_socks5_udp_response
parse-fields buf frag addr h w =
    ap (λ (bs : List ℕ). (parse_datagram (length (packet buf frag addr)) bs).0)
      (packet-eq buf frag addr)
    ∙ ap (λ (r : Result Error Datagram × List ℕ). r.0)
        (parse_fields (length (packet buf frag addr)) frag buf addr h w)

-- An unfragmented packet of the server's socket is taken apart into its address and its payload.
pub parse-packet :
    (buf : List ℕ) (addr : Address)
    → IsAddress addr
    → IsWritable addr
    → parse_socks5_udp_response (packet buf 0 addr)
      ≡ ok (record { read = length buf; address = addr; buf = buf })
parse-packet buf addr h w =
    parse-fields buf 0 addr h w
    ∙ ap (λ (bs : List ℕ). (read_payload (length bs) addr buf).0) (packet-eq buf 0 addr)
    ∙ ap (λ (r : Result Error Datagram × List ℕ). r.0)
        (read_payload-whole (0x00 ∷ 0x00 ∷ 0x00 ∷ Address.write_to_buf addr []) buf addr)

-- A packet of the server's socket that is marked as a fragment, with a writable address, is refused.
parse_fragment :
    (buf : List ℕ) (frag : ℕ) (addr : Address)
    → frag ≢ 0
    → IsAddress addr
    → IsWritable addr
    → parse_socks5_udp_response (packet buf frag addr) ≡ err (invalid_fragment_id frag)
parse_fragment buf frag addr other h w =
    let differs : (frag == 0) ≡ false = ground arith in
    rw differs at (parse-fields buf frag addr h w)
