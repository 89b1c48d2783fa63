-- ===== src/Server/Connection/Laws.antt =====
-- src/server/connection/mod.rs: the handshake and the request.
use mathlib.Core.Logic.Or
use mathlib.Core.List.{Mem, mem-cons, not-mem-nil}
use socks5_impl.Prelude.{
  ℕ, ◌≡◌, refl, ap, ◌↔◌, ◌⊎◌, inl, inr, sym, true, Bool-cases, List, [], ◌∷◌, ◌++◌, length, arith,
  if◌then◌else◌,
}
use socks5_impl.Error.{Error, io_error, text, unsupported}
use socks5_impl.Stream.{Result, ok, err, Conn}
use socks5_impl.Stream.Delivery.{sending, IsOpen, write_all_open}
use socks5_impl.Protocol.Operation.{write_to_async_stream}
use socks5_impl.Protocol.Version
use socks5_impl.Protocol.Handshake.AuthMethod
use socks5_impl.Protocol.Handshake.AuthMethod.{
  AuthMethod, method_eq, method_eq→eq, method_eq_refl, no_acceptable_methods,
}
use socks5_impl.Protocol.Handshake.Request as HandshakeRequest
use socks5_impl.Protocol.Handshake.Request.{any_method, evaluate_method}
use socks5_impl.Protocol.Handshake.Request.Contract.{handshake_request_operation-Lawful}
use socks5_impl.Protocol.Handshake.Response as HandshakeResponse
use socks5_impl.Protocol.Request
use socks5_impl.Protocol.Command.{Command}
use socks5_impl.Protocol.Address.{Address}
use socks5_impl.Server.Connection.{ClientConnection}
use socks5_impl.Protocol.Request.Contract.{request_operation-Lawful}
use socks5_impl.Protocol.Response
use socks5_impl.Server.Auth.{AuthExecutor}
use socks5_impl.Server.Connection.{
  Authenticated, execute, authenticate_on, client_connection, wait_request, wait_request_on,
  send_reply,
}

any_method-mem : (m : AuthMethod) (ms : List AuthMethod) → any_method m ms ≡ true → Mem m ms
unfolding any_method
any_method-mem m [] h = cc
any_method-mem m (n ∷ ms) h = elim (Bool-cases (method_eq n m)) [
  | inl same ↦ mem-cons.1 (Or.inl (sym (method_eq→eq n m same)))
  | inr differs ↦ mem-cons.1 (Or.inr (any_method-mem m ms (rw differs at h)))
]

mem-any_method : (m : AuthMethod) (ms : List AuthMethod) → Mem m ms → any_method m ms ≡ true
unfolding any_method
mem-any_method m [] h = absurd (not-mem-nil h)
mem-any_method m (n ∷ ms) h =
    Or.elim (hlevel) (mem-cons.0 h) (λ e. rw (← e, method_eq_refl m))
      (λ later. ground (arith, mem-any_method m ms later))

-- The server accepts a method exactly when the client's list has it.
pub evaluate_method_iff :
    (req : HandshakeRequest.Request) (m : AuthMethod)
    → (evaluate_method req m ≡ true) ↔ Mem m req.methods
unfolding evaluate_method
evaluate_method_iff req m = (any_method-mem m req.methods, mem-any_method m req.methods)

abbrev pub method_bytes : AuthMethod → List ℕ
method_bytes m = 0x05 ∷ AuthMethod.to_u8 m ∷ []

-- The answer, by the code's own test of the list.
pub authenticate_answers :
    {O : Type 0} (auth : AuthExecutor O) (req : HandshakeRequest.Request) (rest : List ℕ) (c : Conn)
    → HandshakeRequest.IsWritable req
    → c.input ≡ HandshakeRequest.write_to_buf req [] ++ rest
    → IsOpen 2 c.out
    → authenticate_on auth c ≡ (
        if evaluate_method req auth.auth_method
        then execute auth
            (record c { input = rest; out = sending (method_bytes auth.auth_method) c.out })
        else (
          err (io_error unsupported (text "No available handshake method provided by client")),
          record c { input = rest; out = sending (method_bytes no_acceptable_methods) c.out },
        ))
unfolding authenticate_on write_to_async_stream HandshakeResponse.write_to_buf Version.to_u8
authenticate_answers auth req rest c w e o =
    rw
      (
        e,
        handshake_request_operation-Lawful.async_agrees,
        handshake_request_operation-Lawful.reads_back req rest tt w,
      )
      (elim (Bool-cases (evaluate_method req auth.auth_method)) [
        | inl has ↦ rw (has, write_all_open (method_bytes auth.auth_method) c.out o)
        | inr lacks ↦ rw (lacks, write_all_open (method_bytes no_acceptable_methods) c.out o)
      ])

-- On a list of methods that was sent whole, over a connection that takes the two bytes of an answer:
-- either the method of the executor is a member of the list, that method is sent and the executor runs
-- on what follows; or it is not a member, 0xff is sent, the result is an error, and what follows is left
-- unread.
pub authenticate_by_list :
    {O : Type 0} (auth : AuthExecutor O) (req : HandshakeRequest.Request) (rest : List ℕ) (c : Conn)
    → HandshakeRequest.IsWritable req
    → c.input ≡ HandshakeRequest.write_to_buf req [] ++ rest
    → IsOpen 2 c.out
    → (Mem auth.auth_method req.methods
        × (authenticate_on auth c
            ≡ execute auth (record c {
              input = rest;
              out = sending (0x05 ∷ AuthMethod.to_u8 auth.auth_method ∷ []) c.out;
            })))
      ⊎ ((¬ Mem auth.auth_method req.methods)
          × (authenticate_on auth c ≡ (
            err (io_error unsupported (text "No available handshake method provided by client")),
            record c { input = rest; out = sending (0x05 ∷ 0xff ∷ []) c.out },
          )))
unfolding AuthMethod.to_u8
authenticate_by_list auth req rest c w e o =
    let answers = authenticate_answers auth req rest c w e o in
    elim (Bool-cases (evaluate_method req auth.auth_method)) [
      | inl has ↦ inl ((evaluate_method_iff req auth.auth_method).0 has, rw has at answers)
      | inr lacks ↦ inr (
        λ listed. absurd (ground (arith, (evaluate_method_iff req auth.auth_method).1 listed)),
        rw lacks at answers,
      )
    ]

-- The command that a connection is for, its address and its stream.
abbrev pub command_of : ClientConnection → Command
command_of (ClientConnection.udp_associate conn address) = Command.udp_associate
command_of (ClientConnection.bind conn address) = Command.bind
command_of (ClientConnection.connect conn address) = Command.connect

abbrev pub target_of : ClientConnection → Address
target_of (ClientConnection.udp_associate conn address) = address
target_of (ClientConnection.bind conn address) = address
target_of (ClientConnection.connect conn address) = address

abbrev pub stream_of : ClientConnection → Conn
stream_of (ClientConnection.udp_associate conn address) = conn.stream
stream_of (ClientConnection.bind conn address) = conn.stream
stream_of (ClientConnection.connect conn address) = conn.stream

-- A connection for a command, with its address and its stream.
abbrev pub IsFor : Command → Address → Conn → ClientConnection → Type 0
IsFor command address c conn =
    (command_of conn ≡ command) × (target_of conn ≡ address) × (stream_of conn ≡ c)

pub client_connection-IsFor :
    (command : Command) (address : Address) (c : Conn)
    → IsFor command address c (client_connection command address c)
unfolding client_connection
client_connection-IsFor Command.udp_associate address c = (refl, refl, refl)
client_connection-IsFor Command.bind address c = (refl, refl, refl)
client_connection-IsFor Command.connect address c = (refl, refl, refl)

pub wait_request_on_reads :
    (req : Request.Request) (rest : List ℕ) (c : Conn)
    → Request.IsRequest req
    → Request.IsWritableRequest req
    → c.input ≡ Request.write_to_buf req [] ++ rest
    → wait_request_on c ≡ (
      ok (client_connection req.command req.address (record c { input = rest })),
      record c { input = rest },
    )
unfolding wait_request_on
wait_request_on_reads req rest c h w e =
    rw (e, request_operation-Lawful.async_agrees, request_operation-Lawful.reads_back req rest h w)

-- A request with a writable address that was sent whole becomes a connection for its command, with
-- its address, and what follows it is left unread; nothing is written.
pub wait_request_dispatches :
    (req : Request.Request) (rest : List ℕ) (conn : Authenticated)
    → Request.IsRequest req
    → Request.IsWritableRequest req
    → conn.stream.input ≡ Request.write_to_buf req [] ++ rest
    → (next : ClientConnection) × (wait_request conn ≡ ok next)
      × IsFor req.command req.address (record (conn.stream) { input = rest }) next
unfolding wait_request
wait_request_dispatches req rest conn h w e = (
  client_connection req.command req.address (record (conn.stream) { input = rest }),
  ap (λ (r : Result Error ClientConnection × Conn). r.0)
      (wait_request_on_reads req rest conn.stream h w e),
  client_connection-IsFor req.command req.address _,
)

-- Over a connection with room for it, sending a reply appends the bytes of the response, and does
-- nothing else.
pub send_reply_sends :
    (r : Response.Response) (c : Conn)
    → IsOpen (length (Response.write_to_buf r [])) c.out
    → send_reply r.reply r.address c
      ≡ (ok tt, record c { out = sending (Response.write_to_buf r []) c.out })
unfolding send_reply write_to_async_stream
send_reply_sends r c o = rw (write_all_open (Response.write_to_buf r []) c.out o)
