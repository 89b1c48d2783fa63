-- ===== src/Client/Init/Steps.antt =====
-- src/client/mod.rs: the steps of `init`, on a connection that takes what is written.
use socks5_impl.Prelude.{ℕ, ◌≡◌, ap, fun_ext, ◌∙◌, List, [], ◌∷◌, length, arith}
use socks5_impl.Error.{Error, IoError, invalid_auth_status}
use socks5_impl.Stream.{
  Result, ok, err, Act, after, ◌>>◌, as_error, convert, write_all, flush, Sink, Conn, receive, emit,
  with_out, read_u8,
}
use socks5_impl.Stream.Delivery.{sending, IsReady, write_all-flush, flush_nothing}
use socks5_impl.Protocol.Command.{Command}
use socks5_impl.Protocol.Address.{Address, IsWritable}
use socks5_impl.Protocol.Request
use socks5_impl.Protocol.Handshake.AuthMethod.{AuthMethod}
use socks5_impl.Protocol.Handshake.Request as HandshakeRequest
use socks5_impl.Protocol.Password.UserKey.{UserKey, IsWritableKey}
use socks5_impl.Protocol.Password.Request as PasswordRequest
use socks5_impl.Client.Reader.{read_auth_version, read_auth_status}
use socks5_impl.Client.Writer.{
  ClientWriter, put, write_auth_version, write_string, write_selection_msg, write_final,
}
use socks5_impl.Client.Writer.Laws.{
  as_error-then, then_assoc_four, write_selection_msg-eq, write_final-eq, write_credentials-eq,
}
use socks5_impl.Client.Init.{username_password_auth}

-- The connection after `bs` have gone out.
abbrev pub told : List ℕ → Conn → Conn
told bs c = record c { out = sending bs c.out }

pub emit_flushed :
    (bs : List ℕ) (c : Conn)
    → IsReady (length bs) c.out
    → emit (put bs >> as_error flush) c ≡ (ok tt, told bs c)
emit_flushed bs c h =
    ap (with_out c)
      (as_error-then (write_all bs) flush c.out ∙ ap convert (write_all-flush bs c.out h))

-- The second flush of `init` finds nothing to send.
pub emit-flush : (c : Conn) → c.out.pending ≡ [] → emit (as_error flush) c ≡ (ok tt, c)
emit-flush c h =
    ap (λ (r : Result IoError (Unit {0}) × Sink). with_out c (convert r)) (flush_nothing c.out h)

pub emit_selection :
    (ms : List AuthMethod) (c : Conn)
    → IsReady (length (HandshakeRequest.write_to_buf (HandshakeRequest.new ms) [])) c.out
    → emit (write_selection_msg ms) c
      ≡ (ok tt, told (HandshakeRequest.write_to_buf (HandshakeRequest.new ms) []) c)
emit_selection ms c h = rw (write_selection_msg-eq ms) (emit_flushed _ c h)

pub emit_final :
    (command : Command) (addr : Address) (c : Conn)
    → IsWritable addr
    → IsReady (length (Request.write_to_buf (Request.new command addr) [])) c.out
    → emit (write_final command addr) c
      ≡ (ok tt, told (Request.write_to_buf (Request.new command addr) []) c)
emit_final command addr c w h = rw (write_final-eq command addr w) (emit_flushed _ c h)

-- Two writers on a connection are one.
emit-emit :
    {B : Type 0} (m n : ClientWriter) (k : Act Conn Error B)
    → (emit m >> (emit n >> k)) ≡ (emit (m >> n) >> k)
emit-emit m n k = fun_ext λ c. ground arith

abbrev pub credentials : UserKey → List ℕ
credentials key = PasswordRequest.write_to_buf (PasswordRequest.new key.username key.password) []

-- The credentials go out in one piece, and then the answer is read.
pub username_password_auth-eq :
    (key : UserKey) (c : Conn)
    → IsWritableKey key
    → IsReady (length (credentials key)) c.out
    → username_password_auth key c
      ≡ (receive read_auth_version >> receive read_auth_status) (told (credentials key) c)
unfolding username_password_auth
username_password_auth-eq key c w h =
    ap (λ (m : Act Conn Error (Unit {0})). m c) pieces
    ∙ ap (λ (m : ClientWriter). (emit m >> answer) c) (write_credentials-eq key (as_error flush) w)
    ∙ ap (after (λ _. answer)) (emit_flushed (credentials key) c h)
  where
    answer : Act Conn Error (Unit {0})
    answer = receive read_auth_version >> receive read_auth_status

    pieces :
        (emit write_auth_version
          >> (emit (write_string key.username)
              >> (emit (write_string key.password) >> (emit (as_error flush) >> answer))))
        ≡ (emit (
              write_auth_version
              >> (write_string key.username >> (write_string key.password >> as_error flush)))
            >> answer)
    pieces =
        rw (emit-emit, emit-emit, emit-emit)
          (ap (λ (m : ClientWriter). emit m >> answer)
            (then_assoc_four write_auth_version (write_string key.username)
              (write_string key.password) (as_error flush)))

-- The answer to the credentials: a status byte of 0 passes.
pub status_passed :
    (rest : List ℕ) (c : Conn)
    → c.input ≡ 0x01 ∷ 0x00 ∷ rest
    → (receive read_auth_version >> receive read_auth_status) c ≡ (ok tt, record c { input = rest })
unfolding read_auth_version read_auth_status read_u8
status_passed rest c e = rw e

-- Any other status byte is an error.
pub status_failed :
    (rest : List ℕ) (c : Conn)
    → c.input ≡ 0x01 ∷ 0xff ∷ rest
    → (receive read_auth_version >> receive read_auth_status) c
      ≡ (err (invalid_auth_status 0xff), record c { input = rest })
unfolding read_auth_version read_auth_status read_u8
status_failed rest c e = rw e
