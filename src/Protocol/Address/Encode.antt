-- ===== src/Protocol/Address/Encode.antt =====
-- src/protocol/address.rs: what `write_to_buf` writes, and the readers on it.
use socks5_impl.Prelude.{
  ℕ, ◌+◌, ◌%◌, ◌≡◌, refl, fun_ext, sym, ◌∙◌, List, [], ◌∷◌, ◌++◌, length, length-append,
  take-append_length, get_or, get_or-append, append_assoc, arith, to_be_bytes, from_be_bytes,
  from_be_bytes-to_be_bytes,
}
use socks5_impl.Net.{v4, v6}
use socks5_impl.Stream.{ok, Reader, pure, read_exact, read_u8}
use socks5_impl.Stream.Laws.{read_exact-append, read_exact-split, after_congr}
use socks5_impl.Protocol.AddressType
use socks5_impl.Protocol.AddressType.{AddressType, ipv4, ipv6, domain}
use socks5_impl.Protocol.Address.{
  Address, socket_address, domain_address, from_utf8, retrieve_body, retrieve_from_stream,
  retrieve_async_body, retrieve_from_async_stream, write_to_buf, len, IsAddress, IsWritable,
}

-- `write_to_buf` only appends.
pub write_to_buf-append :
    (x : Address) (buf : List ℕ) → write_to_buf x buf ≡ buf ++ write_to_buf x []
unfolding write_to_buf
write_to_buf-append (socket_address (v4 ip port)) buf = simp append_assoc
write_to_buf-append (socket_address (v6 ip port flowinfo scope)) buf = simp append_assoc
write_to_buf-append (domain_address name port) buf = simp append_assoc

-- `len` is the number of bytes written.
pub length-write_to_buf : (x : Address) → IsAddress x → length (write_to_buf x []) ≡ len x
unfolding write_to_buf len
length-write_to_buf (socket_address (v4 ip port)) h =
    omega (arith, length-append ip (to_be_bytes port))
length-write_to_buf (socket_address (v6 ip port flowinfo scope)) h =
    omega (arith, length-append ip (to_be_bytes port))
length-write_to_buf (domain_address name port) h =
    omega (arith, length-append name (to_be_bytes port))

-- The octets of a V4 address, one by one.
four_octets :
    (a b : List ℕ)
    → length a ≡ 4
    → ◌≡◌ {A = Reader Address}
        (pure (
          socket_address (
            v4
              (get_or (a ++ b) 0 0
                ∷ get_or (a ++ b) 1 0
                ∷ get_or (a ++ b) 2 0
                ∷ get_or (a ++ b) 3 0
                ∷ [])
              (from_be_bytes (get_or (a ++ b) 4 0) (get_or (a ++ b) 5 0)))))
        (pure (socket_address (v4 a (from_be_bytes (get_or b 0 0) (get_or b 1 0)))))
four_octets [] b h = absurd (omega arith)
four_octets (x ∷ []) b h = absurd (omega arith)
four_octets (x ∷ y ∷ []) b h = absurd (omega arith)
four_octets (x ∷ y ∷ z ∷ []) b h = absurd (omega arith)
four_octets (x ∷ y ∷ z ∷ w ∷ []) b h = refl
four_octets (x ∷ y ∷ z ∷ w ∷ v ∷ r) b h = absurd (omega arith)

retrieve_async_body-eq :
    (kind : AddressType) (bs : List ℕ) → retrieve_async_body kind bs ≡ retrieve_body kind bs
unfolding retrieve_body retrieve_async_body read_exact read_u8
retrieve_async_body-eq ipv4 bs = sym (read_exact-split 4 2 6 _ _ bs (omega arith) four_octets)
retrieve_async_body-eq domain [] = refl
retrieve_async_body-eq domain (b ∷ bs) = refl
retrieve_async_body-eq ipv6 bs = sym (
    read_exact-split 16 2 18 _ _ bs (omega arith) λ a b l. rw (
      take-append_length a b 16 (omega arith),
      get_or-append a b 16 0 0 (omega arith),
      get_or-append a b 17 1 0 (omega arith),
    ))

-- The async reader is the blocking one.
pub retrieve_from_async_stream-eq :
    (bs : List ℕ) → retrieve_from_async_stream bs ≡ retrieve_from_stream bs
unfolding retrieve_from_stream retrieve_from_async_stream read_exact read_u8
retrieve_from_async_stream-eq [] = refl
retrieve_from_async_stream-eq (b ∷ bs) =
    after_congr (AddressType.try_from b, bs) _ _ retrieve_async_body-eq

-- The async reader returns the address that was written, and leaves what follows it.
retrieve_written :
    (x : Address) (rest : List ℕ)
    → IsAddress x
    → IsWritable x
    → retrieve_from_async_stream (write_to_buf x [] ++ rest) ≡ (ok x, rest)
unfolding retrieve_from_async_stream retrieve_async_body write_to_buf read_u8 read_exact from_utf8
    AddressType.try_from AddressType.to_u8
retrieve_written (socket_address (v4 ip port)) rest h w =
    rw (append_assoc, read_exact-append 4 ip _ (omega arith), from_be_bytes-to_be_bytes port)
retrieve_written (socket_address (v6 ip port flowinfo scope)) rest h (f, s) =
    rw (append_assoc, read_exact-append 16 ip _ (omega arith), from_be_bytes-to_be_bytes port)
      (ground arith)
retrieve_written (domain_address name port) rest h w =
    let small : length name % 256 ≡ length name = omega arith in
    rw (small, read_exact-append (length name + 2) (name ++ to_be_bytes port) rest more)
      (rw (
        take-append_length name (to_be_bytes port) (length name) refl,
        get_or-append name (to_be_bytes port) (length name) 0 0 (omega arith),
        get_or-append name (to_be_bytes port) (length name + 1) 1 0 (omega arith),
        h.0,
        from_be_bytes-to_be_bytes port,
      ))
  where
    more : length name + 2 ≡ length (name ++ to_be_bytes port)
    more = omega (arith, length-append name (to_be_bytes port))

-- The blocking reader does the same.
pub retrieve-write :
    (x : Address) (rest : List ℕ)
    → IsAddress x
    → IsWritable x
    → retrieve_from_stream (write_to_buf x [] ++ rest) ≡ (ok x, rest)
retrieve-write x rest h w = sym (retrieve_from_async_stream-eq _) ∙ retrieve_written x rest h w

pub async-eq : retrieve_from_async_stream ≡ retrieve_from_stream
async-eq = fun_ext retrieve_from_async_stream-eq
