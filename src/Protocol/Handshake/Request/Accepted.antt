-- ===== src/Protocol/Handshake/Request/Accepted.antt =====
-- src/protocol/handshake/request.rs: the inputs that the reader accepts.
use socks5_impl.Prelude.{
  ℕ, ◌%◌, ◌≡◌, ◌↔◌, refl, List, [], ◌∷◌, ◌++◌, All, IsByte, get_or, map, length, length-map,
  All-front, arith,
}
use socks5_impl.Stream.{ok, lift, ◌>>=◌, pure, read_exact}
use socks5_impl.Stream.Laws.{>>=-elim, read_exact-elim}
use socks5_impl.Protocol.Version
use socks5_impl.Protocol.Version.{Version, v5, require_v5, require_v5-eq-ok, Version-IsCode}
use socks5_impl.Protocol.Handshake.AuthMethod
use socks5_impl.Protocol.Handshake.AuthMethod.{
  AuthMethod, IsCanonical, to_u8-from_u8, from_u8-IsCanonical,
}
use socks5_impl.Protocol.Handshake.Request.{Request, retrieve_from_stream, write_to_buf, IsWritable}
use socks5_impl.Protocol.Handshake.Request.Contract.{handshake_request_operation-Lawful}

to_u8-from_u8-All :
    (bs : List ℕ) → All IsByte bs → map AuthMethod.to_u8 (map AuthMethod.from_u8 bs) ≡ bs
to_u8-from_u8-All [] h = refl
to_u8-from_u8-All (b ∷ bs) h = rw (to_u8-from_u8 b h.0, to_u8-from_u8-All bs h.1)

from_u8-IsCanonical-All :
    (bs : List ℕ) → All IsByte bs → All IsCanonical (map AuthMethod.from_u8 bs)
from_u8-IsCanonical-All [] h = tt
from_u8-IsCanonical-All (b ∷ bs) h = (from_u8-IsCanonical b h.0, from_u8-IsCanonical-All bs h.1)

-- The list of methods, behind its length.
methods_taken :
    (ms rest : List ℕ)
    → All IsByte ms
    → IsByte (length ms)
    → (0x05 ∷ length ms ∷ (ms ++ rest)
        ≡ write_to_buf (record { methods = map AuthMethod.from_u8 ms }) [] ++ rest)
      × IsWritable (record { methods = map AuthMethod.from_u8 ms })
unfolding write_to_buf Version.to_u8
methods_taken ms rest h n =
    let same : length (map AuthMethod.from_u8 ms) % 256 ≡ length ms =
      omega (arith, length-map AuthMethod.from_u8 ms) in
    (
      rw (same, to_u8-from_u8-All ms h),
      (omega (arith, length-map AuthMethod.from_u8 ms), from_u8-IsCanonical-All ms h),
    )

after_version :
    (bs rest : List ℕ) (x : Request)
    → All IsByte bs
    → (do
      head ← read_exact 1
      methods ← read_exact (get_or head 0 0)
      pure (record { methods = map AuthMethod.from_u8 methods }))
        bs
      ≡ (ok x, rest)
    → (0x05 ∷ bs ≡ write_to_buf x [] ++ rest) × IsWritable x
unfolding read_exact
after_version [] rest x h e = cc
after_version (n ∷ bs) rest x h e =
    read_exact-elim n (λ ms. pure (record { methods = map AuthMethod.from_u8 ms })) bs e
      λ ms t s l e1.
        let value : record { methods = map AuthMethod.from_u8 ms } ≡ x = cc in
        let left : t ≡ rest = cc in
        let bytes : All IsByte ms = All-front IsByte ms t (rw s at h.1) in
        rw (← value, ← left, s, ← l) (methods_taken ms t bytes (rw (← l) at h.0))

handshake_request_taken :
    (bs rest : List ℕ) (x : Request)
    → All IsByte bs
    → retrieve_from_stream bs ≡ (ok x, rest)
    → (bs ≡ write_to_buf x [] ++ rest) × IsWritable x
unfolding retrieve_from_stream read_exact Version.to_u8
handshake_request_taken [] rest x h e = cc
handshake_request_taken (b ∷ bs) rest x h e =
    >>=-elim (lift (Version.try_from b)) _ bs e λ version t q e1.
      >>=-elim (require_v5 version) _ t e1 λ _ t' q' e2.
        let (five, same) = require_v5-eq-ok version t q' in
        let known : Version.try_from b ≡ ok v5 = cc in
        let left : t' ≡ bs = cc in
        rw (← Version-IsCode.exact b v5 known) (after_version bs rest x h.1 (rw left at e2))

-- On bytes, the reader of the method list accepts exactly the encodings of lists of at most 255 methods that are
-- numbered as their kinds say, and leaves what follows.
pub handshake_request_iff :
    (bs rest : List ℕ) (x : Request)
    → All IsByte bs
    → (retrieve_from_stream bs ≡ (ok x, rest)) ↔ ((bs ≡ write_to_buf x [] ++ rest) × IsWritable x)
handshake_request_iff bs rest x h = (
  handshake_request_taken bs rest x h,
  λ taken. rw (taken.0) (handshake_request_operation-Lawful.reads_back x rest tt (taken.1)),
)
