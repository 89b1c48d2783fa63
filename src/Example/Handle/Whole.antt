-- ===== src/Example/Handle/Whole.antt =====
-- examples/s5-server.rs: `handle` with `handle_s5_upd_associate` in its place.
--
-- The relay of an association may still be waiting when its events are over; so may `handle` then.
use socks5_impl.Prelude.{
  ◌≡◌, refl, ap, ◌∙◌, Bool, true, false, if◌then◌else◌, List, Option, some, none,
}
use socks5_impl.Error.{Error, IoError}
use socks5_impl.Stream.{Result, ok, err, Act, after, ◌>>=◌, pure, lift, as_error, Conn}
use socks5_impl.Server.Auth.{AuthExecutor}
use socks5_impl.Server.Connection.{
  ClientConnection, udp_associate, bind, connect, authenticate_on, wait_request_on,
}
use socks5_impl.Example.Handle.{Os, admitted, serve, handle}
use socks5_impl.Example.Relay.{Sockets, Event, Relay, fresh_relay, handle_s5_upd_associate}

-- The result, if there is one; the connection; and what the relay has sent.
abbrev pub Whole : Type 0
Whole = Option (Result Error (Unit {0})) × Conn × Relay

module _ (os : Os) (sockets : Sockets) (events : List Event) where
  -- Without an association.
  abbrev pub ended : Result Error (Unit {0}) × Conn → Whole
  ended (r, c) = (some r, c, fresh_relay sockets)

  abbrev pub serve_whole : ClientConnection → Conn → Whole
  serve_whole (udp_associate conn address) c = handle_s5_upd_associate sockets events c
  serve_whole (bind conn address) c = ended (serve os (pure tt) (bind conn address) c)
  serve_whole (connect conn address) c = ended (serve os (pure tt) (connect conn address) c)

  abbrev pub requested_whole : Result Error ClientConnection × Conn → Whole
  requested_whole (ok next, c) = serve_whole next c
  requested_whole (err e, c) = ended (err e, c)

  abbrev pub admitted_whole : Result Error Bool → Conn → Whole
  admitted_whole (ok true) c = requested_whole (wait_request_on c)
  admitted_whole (ok false) c = ended (ok tt, c)
  admitted_whole (err e) c = ended (err e, c)

  module _ {O : Type 0} (downcast : O → Option (Result IoError Bool)) (auth : AuthExecutor O) where
    abbrev pub authenticated_whole : Result Error O × Conn → Whole
    authenticated_whole (ok res, c) = admitted_whole (admitted os.describe (downcast res)) c
    authenticated_whole (err e, c) = ended (err e, c)

    unfoldable pub handle_whole : Conn → Whole
    unfolding serve handle_s5_upd_associate
    handle_whole c = authenticated_whole (as_error (authenticate_on auth) c)

-- What a whole run comes to; one that is waiting still counts as a success.
abbrev over : Whole → Result Error (Unit {0}) × Conn
over (some r, c, s) = (r, c)
over (none, c, s) = (ok tt, c)

module _ (os : Os) (sockets : Sockets) (events : List Event) where
  abbrev relayed : Act Conn Error (Unit {0})
  relayed c = over (handle_s5_upd_associate sockets events c)

  serve-over :
      (next : ClientConnection) (c : Conn)
      → serve os relayed next c ≡ over (serve_whole os sockets events next c)
  unfolding serve
  serve-over (udp_associate conn address) c = refl
  serve-over (bind conn address) c = refl
  serve-over (connect conn address) c = refl

  requested-over :
      (r : Result Error ClientConnection × Conn)
      → after (serve os relayed) r ≡ over (requested_whole os sockets events r)
  requested-over (ok next, c) = serve-over next c
  requested-over (err e, c) = refl

  go : Bool → Act Conn Error (Unit {0})
  go go_on = if go_on then (wait_request_on >>= serve os relayed) else pure tt

  admitted-over :
      (r : Result Error Bool) (c : Conn)
      → after go (r, c) ≡ over (admitted_whole os sockets events r c)
  unfolding go
  admitted-over (ok true) c = requested-over (wait_request_on c)
  admitted-over (ok false) c = refl
  admitted-over (err e) c = refl

  module _ {O : Type 0} (downcast : O → Option (Result IoError Bool)) (auth : AuthExecutor O) where
    authenticated-over :
        (r : Result Error O × Conn)
        → after (λ res. lift (admitted os.describe (downcast res)) >>= go) r
          ≡ over (authenticated_whole os sockets events downcast auth r)
    authenticated-over (ok res, c) = admitted-over (admitted os.describe (downcast res)) c
    authenticated-over (err e, c) = refl

    -- Where a whole run of `handle` has ended, it is `handle` with the relay as its association: the same
    -- result, and the same connection.
    handle-whole :
        (c c' : Conn) (r : Result Error (Unit {0})) (s : Relay)
        → handle_whole os sockets events downcast auth c ≡ (some r, c', s)
        → handle os relayed downcast auth c ≡ (r, c')
    unfolding handle handle_whole go
    handle-whole c c' r s h = authenticated-over (as_error (authenticate_on auth) c) ∙ ap over h
