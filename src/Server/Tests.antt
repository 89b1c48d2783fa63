-- ===== src/Server/Tests.antt =====
-- src/server/ on concrete bytes.
use socks5_impl.Prelude.{◌⊎◌, ℕ, ◌≤◌, ◌≡◌, refl, true, List, [], ◌∷◌, ◌++◌, length, arith}
use socks5_impl.Error.{IoError, io_error, text, unsupported}
use socks5_impl.Stream.{Result, ok, err, Conn}
use socks5_impl.Stream.Delivery.{sending}
use socks5_impl.Protocol.Address
use socks5_impl.Protocol.Command
use socks5_impl.Protocol.Reply
use socks5_impl.Protocol.Request
use socks5_impl.Protocol.Response
use socks5_impl.Protocol.Udp
use socks5_impl.Protocol.Handshake.AuthMethod.{no_auth, gss_api, no_acceptable_methods}
use socks5_impl.Protocol.Handshake.Request as HandshakeRequest
use socks5_impl.Protocol.Password.UserKey.{key_eq_refl}
use socks5_impl.Protocol.Password.Request as PasswordRequest
use socks5_impl.Server.Auth.{check_user_key, user_key_auth}
use socks5_impl.Server.Auth.Laws.{check_user_key_answers, check_user_key_sound, status_bytes}
use socks5_impl.Server.Connection.{
  Connect, NeedReply, Authenticated, authenticate_on, execute, wait_request, ClientConnection,
  send_reply,
}
use socks5_impl.Server.Connection.Laws.{IsFor, authenticate_by_list, wait_request_dispatches}
use socks5_impl.Stream.{write_all, transmit}
use socks5_impl.Protocol.Operation.{write_to_async_stream}
use socks5_impl.Client.Init.Steps.{told}
use socks5_impl.Server.Connection.{
  NeedReplies, Bind, need_first_reply, need_second_reply, bind_first_reply, bind_second_reply,
}
use socks5_impl.Server.Connection.Life.{
  Stage, binding, Reaches, here, after_reply, listens, binds, replies_are_sent,
}
use socks5_impl.Server.Udp.{Arrival, datagram, packet, send}
use socks5_impl.Server.Udp.Laws.{send_reports}
use mathlib.Core.List.{Mem}
use socks5_impl.Protocol.Handshake.AuthMethod as AuthMethod
use socks5_impl.Samples.{
  site, site-IsAddress, site-IsWritable, relay, bound, me, me-IsUserKey, me-IsWritableKey, fresh,
}

abbrev login : PasswordRequest.Request
login = PasswordRequest.new me.username me.password

abbrev logging_in : Conn
logging_in = fresh (PasswordRequest.write_to_buf login [] ++ (5 ∷ []))

abbrev logged_in : Conn
logged_in = record logging_in { input = 5 ∷ []; out = sending (status_bytes true) logging_in.out }

passes : check_user_key me logging_in ≡ (ok true, logged_in)
passes = rw (key_eq_refl me) at (
    check_user_key_answers me login (5 ∷ []) logging_in me-IsUserKey me-IsWritableKey refl
      (refl, omega arith))

check_user_key_sound_example :
    (true ≡ true) × (PasswordRequest.retrieve_from_stream logging_in.input ≡ (ok login, 5 ∷ []))
check_user_key_sound_example = check_user_key_sound me logging_in logged_in true passes

abbrev offer : HandshakeRequest.Request
offer = HandshakeRequest.new (no_auth ∷ gss_api ∷ [])

abbrev offering : Conn
offering = fresh (HandshakeRequest.write_to_buf offer [] ++ (9 ∷ []))

authenticate_by_list_example :
    (Mem (user_key_auth me).auth_method offer.methods
      × (authenticate_on (user_key_auth me) offering
          ≡ execute (user_key_auth me) (record offering {
            input = 9 ∷ [];
            out =
                sending (0x05 ∷ AuthMethod.to_u8 (user_key_auth me).auth_method ∷ []) offering.out;
          })))
    ⊎ ((¬ Mem (user_key_auth me).auth_method offer.methods)
        × (authenticate_on (user_key_auth me) offering ≡ (
          err (io_error unsupported (text "No available handshake method provided by client")),
          record offering { input = 9 ∷ []; out = sending (0x05 ∷ 0xff ∷ []) offering.out },
        )))
authenticate_by_list_example =
    authenticate_by_list (user_key_auth me) offer (9 ∷ []) offering (omega arith, (tt, (tt, tt)))
      refl (refl, omega arith)

abbrev to_site : Request.Request
to_site = Request.new Command.bind site

abbrev waiting : Authenticated
waiting = record { stream = fresh (Request.write_to_buf to_site [] ++ (4 ∷ [])) }

wait_request_dispatches_example :
    (next : ClientConnection) × (wait_request waiting ≡ ok next)
    × IsFor Command.bind site (fresh (4 ∷ [])) next
wait_request_dispatches_example =
    wait_request_dispatches to_site (4 ∷ []) waiting site-IsAddress site-IsWritable refl

-- A datagram that ends within the header.
abbrev junk : List Arrival
junk = datagram (0 ∷ 0 ∷ []) relay ∷ []

-- A socket that sends everything.
abbrev willing : List ℕ → Result IoError ℕ
willing bs = ok (length bs)

willing-SendsWhole : (bs : List ℕ) (n : ℕ) → willing bs ≡ ok n → n ≡ length bs
willing-SendsWhole bs n h = cc

send_reports_example :
    (send willing (1 ∷ 2 ∷ []) 0 site ≡ ok 2)
    × (Udp.len (Udp.new 0 site) ≤ length (packet (1 ∷ 2 ∷ []) 0 site))
send_reports_example =
    send_reports willing (1 ∷ 2 ∷ []) 0 site _ willing-SendsWhole site-IsAddress refl

-- A connection that asked for BIND, and its two replies.
abbrev first_reply : Response.Response
first_reply = Response.new Reply.succeeded bound

abbrev second_reply : Response.Response
second_reply = Response.new Reply.connection_refused site

abbrev asked_bind : Bind need_first_reply
asked_bind = record { stream = fresh [] }

abbrev replied_once : Bind need_second_reply
replied_once = record { stream = told (Response.write_to_buf first_reply []) asked_bind.stream }

abbrev replied_twice : Bind NeedReplies.ready
replied_twice = record { stream = told (Response.write_to_buf second_reply []) replied_once.stream }

first_goes_out : bind_first_reply asked_bind Reply.succeeded bound ≡ ok replied_once
unfolding bind_first_reply send_reply write_to_async_stream write_all transmit Response.write_to_buf
    Address.write_to_buf
first_goes_out = refl

second_goes_out : bind_second_reply replied_once Reply.connection_refused site ≡ ok replied_twice
unfolding bind_second_reply send_reply write_to_async_stream write_all transmit
    Response.write_to_buf Address.write_to_buf
second_goes_out = refl

both_replies :
    Reaches (binding asked_bind) (first_reply ∷ second_reply ∷ []) (Stage.bound replied_twice)
both_replies =
    after_reply (listens Reply.succeeded bound first_goes_out)
      (after_reply (binds Reply.connection_refused site second_goes_out) here)

replies_are_sent_example :
    (replied_twice.stream.out.sent
      ≡ []
        ++ (Response.write_to_buf first_reply [] ++ (Response.write_to_buf second_reply [] ++ [])))
    × (replied_twice.stream.input ≡ [])
replies_are_sent_example =
    replies_are_sent (binding asked_bind) (Stage.bound replied_twice) _ both_replies refl

-- One that asked for CONNECT, and its reply.
abbrev asked_connect : Connect NeedReply.need_reply
asked_connect = record { stream = fresh [] }

abbrev replied : Connect NeedReply.ready
replied = record { stream = told (Response.write_to_buf first_reply []) asked_connect.stream }
