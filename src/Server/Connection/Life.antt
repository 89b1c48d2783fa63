-- ===== src/Server/Connection/Life.antt =====
-- src/server/connection/{connect,bind,associate}.rs: the replies of a connection, from the request to
-- the point where it is a plain stream.
pub mod Ready
use socks5_impl.Prelude.{
  ℕ, ◌+◌, ◌≡◌, refl, sym, ap, ◌∙◌, Bool, true, false, List, [], ◌∷◌, ◌++◌, length, append-nil,
  append_assoc, arith,
}
use socks5_impl.Error.{IoError}
use socks5_impl.Stream.Laws.{emit-eq-ok}
use socks5_impl.Stream.{Result, ok, err, Conn, Sink, transmit, write_all}
use socks5_impl.Protocol.Operation.{write_to_async_stream}
use socks5_impl.Protocol.Reply.{Reply}
use socks5_impl.Protocol.Address.{Address}
use socks5_impl.Protocol.Response
use socks5_impl.Protocol.Response.{Response}
use socks5_impl.Server.Connection.{
  NeedReply, NeedReplies, Connect, UdpAssociate, Bind, need_first_reply, need_second_reply,
  send_reply, connect_reply, associate_reply, bind_first_reply, bind_second_reply, moved,
  moved_or_back,
}

-- A connection with its place among the marker types.
pub data Stage : Type 0 where
  connecting : Connect NeedReply.need_reply → Stage
  connected : Connect NeedReply.ready → Stage
  associating : UdpAssociate NeedReply.need_reply → Stage
  associated : UdpAssociate NeedReply.ready → Stage
  binding : Bind need_first_reply → Stage
  listening : Bind need_second_reply → Stage
  bound : Bind NeedReplies.ready → Stage

abbrev pub stream_at : Stage → Conn
stream_at (connecting c) = c.stream
stream_at (connected c) = c.stream
stream_at (associating c) = c.stream
stream_at (associated c) = c.stream
stream_at (binding c) = c.stream
stream_at (listening c) = c.stream
stream_at (bound c) = c.stream

-- A call of `reply` that succeeded. That of `UdpAssociate` stands for every marker type, so that it can
-- be called again.
pub data Step : Stage → Response → Stage → Type 0 where
  connects :
      {c : Connect NeedReply.need_reply} {d : Connect NeedReply.ready} (r : Reply) (addr : Address)
      → connect_reply c r addr ≡ ok d
      → Step (connecting c) (Response.new r addr) (connected d)
  associates :
      {c : UdpAssociate NeedReply.need_reply} {d : UdpAssociate NeedReply.ready} (r : Reply)
      (addr : Address)
      → associate_reply c r addr ≡ ok d
      → Step (associating c) (Response.new r addr) (associated d)
  associates_again :
      {c d : UdpAssociate NeedReply.ready} (r : Reply) (addr : Address)
      → associate_reply c r addr ≡ ok d
      → Step (associated c) (Response.new r addr) (associated d)
  listens :
      {c : Bind need_first_reply} {d : Bind need_second_reply} (r : Reply) (addr : Address)
      → bind_first_reply c r addr ≡ ok d
      → Step (binding c) (Response.new r addr) (listening d)
  binds :
      {c : Bind need_second_reply} {d : Bind NeedReplies.ready} (r : Reply) (addr : Address)
      → bind_second_reply c r addr ≡ ok d
      → Step (listening c) (Response.new r addr) (bound d)

-- A run of replies.
pub data Reaches : Stage → List Response → Stage → Type 0 where
  here : {s : Stage} → Reaches s [] s
  after_reply :
      {s t u : Stage} {x : Response} {xs : List Response}
      → Step s x t
      → Reaches t xs u
      → Reaches s (x ∷ xs) u

-- The bytes of the replies, in their order.
abbrev pub wire : List Response → List ℕ
wire [] = []
wire (x ∷ xs) = Response.write_to_buf x [] ++ wire xs

-- What a reply that succeeded does to a connection without a buffer.
abbrev Sends : Response → Conn → Conn → Type 0
Sends x c c' =
    (c'.out.buffered ≡ false)
    × (c'.out.sent ≡ c.out.sent ++ Response.write_to_buf x [])
    × (c'.input ≡ c.input)

write_all-eq-ok :
    (bs : List ℕ) (s s' : Sink)
    → s.buffered ≡ false
    → write_all bs s ≡ (ok tt, s')
    → (s'.buffered ≡ false) × (s'.sent ≡ s.sent ++ bs)
unfolding write_all transmit
write_all-eq-ok bs s s' plain h = ground arith

send_reply-Sends :
    (r : Reply) (addr : Address) (c c' : Conn)
    → c.out.buffered ≡ false
    → send_reply r addr c ≡ (ok tt, c')
    → Sends (Response.new r addr) c c'
unfolding send_reply write_to_async_stream
send_reply-Sends r addr c c' plain h =
    let bytes : List ℕ = Response.write_to_buf (Response.new r addr) [] in
    let (written, unread) = emit-eq-ok (write_all bytes) c h in
    let (b, sent) = write_all-eq-ok bytes c.out c'.out plain written in (b, sent, unread)

moved-Sends :
    {T : Type 0} (x : Response) (f : Conn → T) (stream : T → Conn)
    (m : Result IoError (Unit {0}) × Conn) (c : Conn) (d : T)
    → ((c' : Conn) → stream (f c') ≡ c')
    → ((c' : Conn) → m ≡ (ok tt, c') → Sends x c c')
    → moved f m ≡ ok d
    → Sends x c (stream d)
moved-Sends x f stream (ok u, c') c d back sends h =
    let same : f c' ≡ d = cc in rw (← same, back c') (sends c' refl)
moved-Sends x f stream (err e, c') c d back sends h = cc

moved_or_back-Sends :
    {T : Type 0} (x : Response) (f : Conn → T) (stream : T → Conn)
    (m : Result IoError (Unit {0}) × Conn) (c : Conn) (d : T)
    → ((c' : Conn) → stream (f c') ≡ c')
    → ((c' : Conn) → m ≡ (ok tt, c') → Sends x c c')
    → moved_or_back f m ≡ ok d
    → Sends x c (stream d)
moved_or_back-Sends x f stream (ok u, c') c d back sends h =
    let same : f c' ≡ d = cc in rw (← same, back c') (sends c' refl)
moved_or_back-Sends x f stream (err e, c') c d back sends h = cc

Step-Sends :
    {s t : Stage} {x : Response}
    → Step s x t
    → (stream_at s).out.buffered ≡ false
    → Sends x (stream_at s) (stream_at t)
unfolding connect_reply associate_reply bind_first_reply bind_second_reply
Step-Sends (connects {c = c} {d = d} r addr h) plain =
    moved-Sends _ _ (λ k. k.stream) _ c.stream d (λ k. refl)
      (λ c'. send_reply-Sends r addr c.stream c' plain) h
Step-Sends (associates {c = c} {d = d} r addr h) plain =
    moved-Sends _ _ (λ k. k.stream) _ c.stream d (λ k. refl)
      (λ c'. send_reply-Sends r addr c.stream c' plain) h
Step-Sends (associates_again {c = c} {d = d} r addr h) plain =
    moved-Sends _ _ (λ k. k.stream) _ c.stream d (λ k. refl)
      (λ c'. send_reply-Sends r addr c.stream c' plain) h
Step-Sends (listens {c = c} {d = d} r addr h) plain =
    moved-Sends _ _ (λ k. k.stream) _ c.stream d (λ k. refl)
      (λ c'. send_reply-Sends r addr c.stream c' plain) h
Step-Sends (binds {c = c} {d = d} r addr h) plain =
    moved_or_back-Sends _ _ (λ k. k.stream) _ c.stream d (λ k. refl)
      (λ c'. send_reply-Sends r addr c.stream c' plain) h

-- On a connection without a buffer, a run of replies sends exactly their bytes, in their order, and
-- reads nothing.
pub replies_are_sent :
    (s t : Stage) (xs : List Response)
    → Reaches s xs t
    → (stream_at s).out.buffered ≡ false
    → ((stream_at t).out.sent ≡ (stream_at s).out.sent ++ wire xs)
      × ((stream_at t).input ≡ (stream_at s).input)
replies_are_sent s _ [] here plain = (sym (append-nil (stream_at s).out.sent), refl)
replies_are_sent s t (x ∷ xs) (after_reply {t = m} step run) plain =
    let (plain', sent, unread) = Step-Sends step plain in
    let (sent', unread') = replies_are_sent m t xs run plain' in
    (
      sent'
          ∙ ap (λ (bs : List ℕ). bs ++ wire xs) sent
          ∙ append_assoc (stream_at s).out.sent (Response.write_to_buf x []) (wire xs),
      unread' ∙ unread,
    )
