-- ===== src/Protocol/Request/Accepted.antt =====
-- src/protocol/request.rs: the inputs that the reader accepts.
use socks5_impl.Prelude.{ℕ, ◌≡◌, List, [], ◌∷◌, ◌++◌, All, IsByte, get_or}
use socks5_impl.Stream.{Reader, ok, lift, ◌>>=◌, pure, read_exact}
use socks5_impl.Stream.Laws.{>>=-elim}
use socks5_impl.Protocol.Version
use socks5_impl.Protocol.Version.{Version, v4, v5, require_v5, require_v5-eq-ok, Version-IsCode}
use socks5_impl.Protocol.Command
use socks5_impl.Protocol.Command.{Command, Command-IsCode}
use socks5_impl.Protocol.Address
use socks5_impl.Protocol.Address.{Address, IsAddress, IsWritable}
use socks5_impl.Protocol.Address.Decode.{retrieve-Took}
use socks5_impl.Protocol.Request.{
  Request, retrieve_from_stream, request_operation, IsRequest, IsWritableRequest,
}

abbrev made : Command → Address → Reader Request
made command address = pure (record { command = command; address = address })

-- What a request that was read began with: any byte may stand in the reserved place.
abbrev pub Took : List ℕ → Request → List ℕ → Type 0
Took bs x rest =
    (reserved : ℕ) × (bs
      ≡ 0x05 ∷ Command.to_u8 x.command ∷ reserved ∷ (Address.write_to_buf x.address [] ++ rest))
    × IsRequest x
    × IsWritableRequest x

after_version :
    (bs rest : List ℕ) (x : Request)
    → All IsByte bs
    → (do
      buf ← read_exact 2
      command ← lift (Command.try_from (get_or buf 0 0))
      address ← Address.retrieve_from_stream
      made command address)
        bs
      ≡ (ok x, rest)
    → Took (0x05 ∷ bs) x rest
unfolding read_exact
after_version [] rest x h e = cc
after_version (c ∷ []) rest x h e = cc
after_version (c ∷ r ∷ bs) rest x h e =
    >>=-elim (lift (Command.try_from c)) _ bs e λ command t q e1.
      >>=-elim Address.retrieve_from_stream _ t e1 λ address u q' e2.
        let known : Command.try_from c ≡ ok command = cc in
        let left : t ≡ bs = cc in
        let (s, v, w) = retrieve-Took bs u address h.1.1 (rw left at q') in
        let value : record { command = command; address = address } ≡ x = cc in
        let rest_eq : u ≡ rest = cc in
        rw (← value, ← rest_eq) (r, rw (Command-IsCode.exact c command known, s), v, w)

-- A request that was read is what the bytes of the input began with: the version, the command,
-- any reserved byte, and the encoding of a well-formed and writable address.
pub request-Took :
    (bs rest : List ℕ) (x : Request)
    → All IsByte bs
    → retrieve_from_stream bs ≡ (ok x, rest)
    → Took bs x rest
unfolding retrieve_from_stream read_exact Version.to_u8
request-Took [] rest x h e = cc
request-Took (b ∷ bs) rest x h e = >>=-elim (lift (Version.try_from b)) _ bs e λ version t q e1.
    >>=-elim (require_v5 version) _ t e1 λ _ t' q' e2.
      let (five, same) = require_v5-eq-ok version t q' in
      let known : Version.try_from b ≡ ok v5 = cc in
      let left : t' ≡ bs = cc in
      rw (← Version-IsCode.exact b v5 known) (after_version bs rest x h.1 (rw left at e2))
