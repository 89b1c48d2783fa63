-- ===== src/Protocol/Password/Response/Contract.antt =====
-- src/protocol/handshake/password_method/response.rs: the contract of a message.
use socks5_impl.Prelude.{ℕ, ◌≡◌, refl, List, [], ◌∷◌, ◌++◌, length, append_assoc}
use socks5_impl.Stream.{ok, read_exact, read_u8}
use socks5_impl.Stream.Laws.{after_congr, read_u8-eq}
use socks5_impl.Stream.Framing.{Streams, streams_rules}
use socks5_impl.Protocol.Operation.{Lawful}
use socks5_impl.Protocol.Password.UserKey.{require_subnegotiation, require_subnegotiation-Streams}
use socks5_impl.Protocol.Password.Status.{Status-IsCode}
use socks5_impl.Protocol.Password.Response.{
  Response, retrieve_from_stream, retrieve_from_async_stream, write_to_buf, len,
  password_response_operation,
}

appends : (x : Response) (buf : List ℕ) → write_to_buf x buf ≡ buf ++ write_to_buf x []
unfolding write_to_buf
appends x buf = simp append_assoc

measures : (x : Response) → Unit {0} → length (write_to_buf x []) ≡ len x
unfolding write_to_buf len
measures x h = refl

reads_back :
    (x : Response) (rest : List ℕ)
    → Unit {0}
    → Unit {0}
    → retrieve_from_stream (write_to_buf x [] ++ rest) ≡ (ok x, rest)
unfolding write_to_buf retrieve_from_stream read_exact require_subnegotiation
reads_back x rest h w = rw (Status-IsCode.decodes x.status)

async_agrees : (bs : List ℕ) → retrieve_from_async_stream bs ≡ retrieve_from_stream bs
unfolding retrieve_from_stream retrieve_from_async_stream read_exact read_u8
async_agrees [] = refl
async_agrees (b ∷ bs) = after_congr (require_subnegotiation b bs) _ _ λ _ t. read_u8-eq _ t

streams : Streams retrieve_from_stream
unfolding retrieve_from_stream
streams = search (streams_rules, require_subnegotiation-Streams) depth 14

-- A response of the sub-negotiation is read back from the front of any input; its bytes are `len`
-- many and appended; both readers agree on every input, and they leave what follows alone.
pub password_response_operation-Lawful :
    Lawful password_response_operation (λ _. Unit {0}) (λ _. Unit {0})
password_response_operation-Lawful = record {
  appends = appends;
  measures = measures;
  reads_back = reads_back;
  async_agrees = async_agrees;
  streams = streams;
}
