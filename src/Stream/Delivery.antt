-- ===== src/Stream/Delivery.antt =====
-- Writing to a peer that takes what is written.
use socks5_impl.Prelude.{ℕ, ◌-◌, ◌≤◌, ◌≡◌, true, false, List, [], ◌++◌, length, arith, append-nil}
use socks5_impl.Stream.{ok, ◌>>◌, Sink, transmit, write_all, flush}

-- The sink after `bs` have gone out.
abbrev pub sending : List ℕ → Sink → Sink
sending bs s = record s { sent = s.sent ++ bs; room = s.room - length bs }

-- A stream without a buffer that takes `n` more bytes.
abbrev pub IsOpen : ℕ → Sink → Type 0
IsOpen n s = (s.buffered ≡ false) × (n ≤ s.room)

pub write_all_open :
    (bs : List ℕ) (s : Sink) → IsOpen (length bs) s → write_all bs s ≡ (ok tt, sending bs s)
unfolding write_all transmit
write_all_open bs s h = ground arith

-- A buffered stream only keeps what is written, and a flush sends it.
abbrev pub keeping : List ℕ → Sink → Sink
keeping bs s = record s { pending = s.pending ++ bs }

write_all_buffered :
    (bs : List ℕ) (s : Sink) → s.buffered ≡ true → write_all bs s ≡ (ok tt, keeping bs s)
unfolding write_all
write_all_buffered bs s h = ground arith

flush_buffered :
    (s : Sink)
    → length s.pending ≤ s.room
    → flush s ≡ (ok tt, sending s.pending (record s { pending = [] }))
unfolding flush transmit
flush_buffered s h = ground arith

-- Nothing is held back, and `n` more bytes are taken.
abbrev pub IsReady : ℕ → Sink → Type 0
IsReady n s = (s.pending ≡ []) × (n ≤ s.room)

-- On any stream a write and a flush bring the bytes to the peer.
pub write_all-flush :
    (bs : List ℕ) (s : Sink)
    → IsReady (length bs) s
    → (write_all bs >> flush) s ≡ (ok tt, sending bs s)
unfolding write_all flush transmit
write_all-flush bs s h = ground (arith, append-nil (s.sent ++ bs))

pub flush_nothing : (s : Sink) → s.pending ≡ [] → flush s ≡ (ok tt, s)
unfolding flush transmit
flush_nothing s h = ground (arith, append-nil s.sent)
