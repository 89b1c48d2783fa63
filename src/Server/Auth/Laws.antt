-- ===== src/Server/Auth/Laws.antt =====
-- src/server/auth.rs: the password check.
use socks5_impl.Prelude.{
  ℕ, ◌≡◌, inl, inr, ap, Bool, true, false, Bool-cases, List, [], ◌∷◌, ◌++◌, arith, if◌then◌else◌,
}
use socks5_impl.Error.{IoError, io_error, text, other}
use socks5_impl.Stream.{Result, ok, err, Conn, receive, emit}
use socks5_impl.Stream.Laws.{>>=-elim, receive-eq-ok, emit-eq-ok}
use socks5_impl.Stream.Delivery.{sending, IsOpen, write_all_open}
use socks5_impl.Protocol.Operation.{write_to_async_stream}
use socks5_impl.Protocol.Password.UserKey.{UserKey, key_eq, key_eq→eq}
use socks5_impl.Protocol.Password.Status
use socks5_impl.Protocol.Password.Request
use socks5_impl.Protocol.Password.Request.Contract.{password_request_operation-Lawful}
use socks5_impl.Protocol.Password.Response
use socks5_impl.Server.Auth.{check_user_key, verdict}

-- The reply to a check: the version of the sub-negotiation and the status.
abbrev pub status_bytes : Bool → List ℕ
status_bytes passed = 0x01 ∷ (if passed then 0x00 else 0xff) ∷ []

-- What a check returns.
abbrev pub outcome : Bool → Result IoError Bool
outcome passed =
    if passed then ok true else err (io_error other (text "username or password is incorrect"))

-- On credentials that were sent whole, over a connection that takes the two bytes of an answer, the
-- peer is told `Succeeded` or `Failed` by whether its credentials are the configured ones, the
-- result is `Ok(true)` or an error accordingly, and what follows the request is left unread.
pub check_user_key_answers :
    (key : UserKey) (req : Request.Request) (rest : List ℕ) (c : Conn)
    → Request.IsRequest req
    → Request.IsWritable req
    → c.input ≡ Request.write_to_buf req [] ++ rest
    → IsOpen 2 c.out
    → check_user_key key c ≡ (
      outcome (key_eq req.user_key key),
      record c { input = rest; out = sending (status_bytes (key_eq req.user_key key)) c.out },
    )
unfolding check_user_key verdict write_to_async_stream Response.write_to_buf Status.to_u8
check_user_key_answers key req rest c h w e o =
    rw
      (
        e,
        password_request_operation-Lawful.async_agrees,
        password_request_operation-Lawful.reads_back req rest h w,
      )
      (elim (Bool-cases (key_eq req.user_key key)) [
        | inl same ↦ rw (same, write_all_open (status_bytes true) c.out o)
        | inr differs ↦ rw (differs, write_all_open (status_bytes false) c.out o)
      ])

verdict-eq-ok :
    (passed : Bool) (c : Conn) {b : Bool} {c' : Conn}
    → verdict passed c ≡ (ok b, c')
    → (passed ≡ true) × (b ≡ true) × (c' ≡ c)
unfolding verdict
verdict-eq-ok passed c h = ground arith

-- Whatever the peer sends: the check passes only if it is exactly the configured credentials, and
-- then its output is `true`.
pub check_user_key_sound :
    (key : UserKey) (c c' : Conn) (b : Bool)
    → check_user_key key c ≡ (ok b, c')
    → (b ≡ true)
      × (Request.retrieve_from_stream c.input
          ≡ (ok (Request.new key.username key.password), c'.input))
unfolding check_user_key
check_user_key_sound key c c' b h =
    >>=-elim (receive Request.retrieve_from_async_stream) _ c h λ req t q e.
      let (read, _) = receive-eq-ok Request.retrieve_from_async_stream c q in
      >>=-elim (emit (write_to_async_stream ⦃op = _⦄ _)) _ t e λ u t' q' e'.
        let (_, unread) = emit-eq-ok (write_to_async_stream ⦃op = _⦄ _) t q' in
        let (passed, value, left) = verdict-eq-ok (key_eq req.user_key key) t' e' in
        (
          value,
          rw (left, unread, ← password_request_operation-Lawful.async_agrees c.input)
              (rw read (
                ap (λ (k : UserKey). (ok (record { user_key = k }), t.input))
                  (key_eq→eq req.user_key key passed))),
        )
