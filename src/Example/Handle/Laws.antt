-- ===== src/Example/Handle/Laws.antt =====
-- examples/s5-server.rs: whom `handle` serves, and what it answers.
use mathlib.Core.List.{Mem}
use Prim.Native.String.{String}
use socks5_impl.Prelude.{ℕ, ◌≡◌, refl, Bool, true, List, Option, some, none, arith}
use socks5_impl.Error.{Error, IoError}
use socks5_impl.Stream.{Result, ok, err, Act, lift, as_error, Conn, receive, emit}
use socks5_impl.Stream.Laws.{as_error-eq-ok, >>=-elim, receive-eq-ok, emit-eq-ok}
use socks5_impl.Protocol.Operation.{write_to_async_stream}
use socks5_impl.Protocol.Handshake.AuthMethod.{AuthMethod, user_pass}
use socks5_impl.Protocol.Handshake.Request as HandshakeRequest
use socks5_impl.Protocol.Handshake.Request.Contract.{handshake_request_operation-Lawful}
use socks5_impl.Protocol.Password.UserKey.{UserKey}
use socks5_impl.Protocol.Password.Request as PasswordRequest
use socks5_impl.Server.Auth.{AuthExecutor, check_user_key, user_key_auth}
use socks5_impl.Server.Auth.Laws.{check_user_key_sound}
use socks5_impl.Server.Connection.{authenticate_on, evaluate_request, answer, execute}
use socks5_impl.Server.Connection.Laws.{evaluate_method_iff}
use socks5_impl.Example.Handle.{Os, handle, admitted}

-- What a client sent that has passed the password check for `own`.
abbrev pub Passed : UserKey → List ℕ → Type 0
Passed own bytes =
    (offer : HandshakeRequest.Request) × (rest behind : List ℕ)
    × (HandshakeRequest.retrieve_from_stream bytes ≡ (ok offer, rest))
    × Mem user_pass offer.methods
    × (PasswordRequest.retrieve_from_stream rest
        ≡ (ok (PasswordRequest.new own.username own.password), behind))

execute-eq-ok :
    {O : Type 0} (auth : AuthExecutor O) (c c' : Conn) (o : O)
    → execute auth c ≡ (ok o, c')
    → auth.execute c ≡ (o, c')
execute-eq-ok auth c c' o h = cc

answer-eq-ok :
    {O : Type 0} (auth : AuthExecutor O) (found : Option AuthMethod) (c c' : Conn) (o : O)
    → answer auth found c ≡ (ok o, c')
    → (m : AuthMethod) × (started : Conn) × (found ≡ some m)
      × (started.input ≡ c.input)
      × (auth.execute started ≡ (o, c'))
unfolding answer
answer-eq-ok auth none c c' o h =
    >>=-elim (emit (write_to_async_stream ⦃op = _⦄ _)) _ c h λ u t q e. cc
answer-eq-ok auth (some m) c c' o h =
    >>=-elim (emit (write_to_async_stream ⦃op = _⦄ _)) _ c h λ u t q e.
      let (_, unread) = emit-eq-ok (write_to_async_stream ⦃op = _⦄ _) c q in
      (m, t, refl, unread, execute-eq-ok auth t c' o e)

evaluate_request-eq-some :
    {O : Type 0} (auth : AuthExecutor O) (offer : HandshakeRequest.Request) (m : AuthMethod)
    → evaluate_request auth offer ≡ some m
    → HandshakeRequest.evaluate_method offer auth.auth_method ≡ true
unfolding evaluate_request
evaluate_request-eq-some auth offer m h = ground arith

-- The executor ran: its method was on the list, and it ran on what stood behind the list.
authenticate_on-eq-ok :
    {O : Type 0} (auth : AuthExecutor O) (c c' : Conn) (o : O)
    → authenticate_on auth c ≡ (ok o, c')
    → (offer : HandshakeRequest.Request) × (started : Conn) × (HandshakeRequest.retrieve_from_stream
          c.input
        ≡ (ok offer, started.input))
      × (HandshakeRequest.evaluate_method offer auth.auth_method ≡ true)
      × (auth.execute started ≡ (o, c'))
unfolding authenticate_on
authenticate_on-eq-ok auth c c' o h =
    >>=-elim (receive HandshakeRequest.retrieve_from_async_stream) _ c h λ offer t q e.
      let (read, _) = receive-eq-ok HandshakeRequest.retrieve_from_async_stream c q in
      let (m, started, found, same, ran) = answer-eq-ok auth _ t c' o e in
      (
        offer,
        started,
        rw (same, ← handshake_request_operation-Lawful.async_agrees c.input) read,
        evaluate_request-eq-some auth offer m found,
        ran,
      )

admitted-passes :
    (describe : IoError → String) (own : UserKey) (c c' : Conn) (o : Result IoError Bool)
    (go_on : Bool)
    → check_user_key own c ≡ (o, c')
    → admitted describe (some o) ≡ ok go_on
    → PasswordRequest.retrieve_from_stream c.input
      ≡ (ok (PasswordRequest.new own.username own.password), c'.input)
unfolding admitted
admitted-passes describe own c c' (ok b) go_on h e = (check_user_key_sound own c c' b h).1
admitted-passes describe own c c' (err x) go_on h e = cc

-- Whatever a client sends: where `handle` with the password check of `own` succeeds, the client has
-- sent a list with the password method, and right behind it exactly the credentials `own`.
pub handle_authenticates :
    (os : Os) (associate : Act Conn Error (Unit {0})) (own : UserKey) (c c' : Conn)
    → handle os associate some (user_key_auth own) c ≡ (ok tt, c')
    → Passed own c.input
unfolding handle user_key_auth
handle_authenticates os associate own c c' h =
    >>=-elim (as_error (authenticate_on (user_key_auth own))) _ c h λ o t q e.
      let ran = as_error-eq-ok (authenticate_on (user_key_auth own)) c q in
      let (offer, started, read, has, checked) =
        authenticate_on-eq-ok (user_key_auth own) c t o ran in
      >>=-elim (lift (admitted os.describe (some o))) _ t e λ go_on t' q' e'. (
        offer,
        started.input,
        t.input,
        read,
        (evaluate_method_iff offer user_pass).0 has,
        admitted-passes os.describe own started t o go_on checked (cc),
      )
