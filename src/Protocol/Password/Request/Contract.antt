-- ===== src/Protocol/Password/Request/Contract.antt =====
-- src/protocol/handshake/password_method/request.rs: the contract of a message.
use socks5_impl.Prelude.{
  ℕ, ◌+◌, ◌%◌, ◌≡◌, refl, List, [], ◌∷◌, ◌++◌, length, length-append, take-append_length,
  get_or-append, append_assoc, arith,
}
use socks5_impl.Stream.{ok, read_exact, read_u8}
use socks5_impl.Stream.Laws.{after_congr, read_u8-eq, read_exact-append}
use socks5_impl.Stream.Framing.{Streams, streams_rules}
use socks5_impl.Protocol.Operation.{Lawful}
use socks5_impl.Protocol.Password.UserKey.{
  from_utf8, from_utf8-Streams, require_subnegotiation, require_subnegotiation-Streams,
}
use socks5_impl.Protocol.Password.Request.{
  Request, retrieve_from_stream, retrieve_from_async_stream, write_to_buf, len,
  password_request_operation, IsRequest, IsWritable,
}

appends : (x : Request) (buf : List ℕ) → write_to_buf x buf ≡ buf ++ write_to_buf x []
unfolding write_to_buf
appends x buf = simp append_assoc

measures : (x : Request) → IsRequest x → length (write_to_buf x []) ≡ len x
unfolding write_to_buf len
measures x h =
    let p : List ℕ = length x.user_key.password % 256 ∷ [] in
    omega (
      arith,
      length-append (x.user_key.username ++ p) x.user_key.password,
      length-append x.user_key.username p,
    )

reads_back :
    (x : Request) (rest : List ℕ)
    → IsRequest x
    → IsWritable x
    → retrieve_from_stream (write_to_buf x [] ++ rest) ≡ (ok x, rest)
unfolding write_to_buf retrieve_from_stream read_exact require_subnegotiation from_utf8
reads_back x rest h w =
    let name : List ℕ = x.user_key.username in
    let pass : List ℕ = x.user_key.password in
    let p : List ℕ = length pass ∷ [] in
    let n : length name % 256 ≡ length name = omega arith in
    let m : length pass % 256 ≡ length pass = omega arith in
    let head : length name + 1 ≡ length (name ++ p) = omega (arith, length-append name p) in
    rw (
      n,
      m,
      append_assoc (name ++ p) pass rest,
      read_exact-append (length name + 1) (name ++ p) (pass ++ rest) head,
      take-append_length name p (length name) refl,
      get_or-append name p (length name) 0 0 (omega arith),
      h.0,
      read_exact-append (length pass) pass rest refl,
      h.1,
    )

async_agrees : (bs : List ℕ) → retrieve_from_async_stream bs ≡ retrieve_from_stream bs
unfolding retrieve_from_stream retrieve_from_async_stream read_exact read_u8
async_agrees [] = refl
async_agrees (b ∷ bs) = after_congr (require_subnegotiation b bs) _ _ λ _ t. read_u8-eq _ t

streams : Streams retrieve_from_stream
unfolding retrieve_from_stream
streams = search (streams_rules, require_subnegotiation-Streams, from_utf8-Streams) depth 20

-- A user name and a password of at most 255 bytes each are read back from the front of any input;
-- the bytes are `len` many and appended; both readers agree on every input, and they leave what
-- follows alone.
pub password_request_operation-Lawful : Lawful password_request_operation IsRequest IsWritable
password_request_operation-Lawful = record {
  appends = appends;
  measures = measures;
  reads_back = reads_back;
  async_agrees = async_agrees;
  streams = streams;
}
