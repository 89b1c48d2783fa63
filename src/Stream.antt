-- ===== src/Stream.antt =====
-- The byte streams that the library reads from and writes to, and the `?` operator.
--
-- A reader runs on the bytes that its source will still deliver before it ends (a cursor, a
-- packet or one direction of a connection). A writer runs on a `Sink`, which breaks after `room`
-- more bytes have gone out; a buffered one (tokio's `BufStream`, a cursor over a vector) keeps
-- what is written until it is flushed. A `Conn` is both directions of a connection.
pub mod Laws
pub mod Framing
pub mod Delivery
pub mod Utf8
use Prim.Native.Nat.{min}
use socks5_impl.Prelude.{
  ℕ, zero, suc, ◌-◌, ◌≤◌, Bool, true, false, List, [], ◌∷◌, ◌++◌, leb, if◌then◌else◌, length, take,
  get_or, from_be_bytes,
}
use socks5_impl.Error.{Error, IoError, io, io_error, text, unexpected_eof, broken_pipe}

pub data Result {ℓ κ} (E : Type ℓ) (A : Type κ) : Type (ℓ ⊔ κ) where
  ok : A → Result E A
  err : E → Result E A

-- An action on a state of type `S`: the result, and the state it leaves, also on an error.
abbrev pub Act : Type 0 → Type 0 → Type 0 → Type 0
Act S E A = S → Result E A × S

-- `?`: go on with the value, or return the error.
abbrev pub after : {S E A B : Type 0} → (A → Act S E B) → Result E A × S → Result E B × S
after f (ok a, s) = f a s
after f (err e, s) = (err e, s)

infixl 5 ◌>>=◌ ◌>>◌
abbrev pub ◌>>=◌ : {S E A B : Type 0} → Act S E A → (A → Act S E B) → Act S E B
◌>>=◌ m f s = after f (m s)

abbrev pub ◌>>◌ : {S E B : Type 0} → Act S E (Unit {0}) → Act S E B → Act S E B
◌>>◌ m k s = after (λ _. k) (m s)

abbrev pub pure : {S E A : Type 0} → A → Act S E A
pure a s = (ok a, s)

abbrev pub raise : {S E A : Type 0} → E → Act S E A
raise e s = (err e, s)

-- `Result` as an action, for `try_from(x)?`.
abbrev pub lift : {S E A : Type 0} → Result E A → Act S E A
lift r s = (r, s)

-- `?` where the caller returns `crate::Error`: `impl From<io::Error> for Error`.
abbrev pub convert : {S A : Type 0} → Result IoError A × S → Result Error A × S
convert (ok a, s) = (ok a, s)
convert (err e, s) = (err (io e), s)

abbrev pub as_error : {S A : Type 0} → Act S IoError A → Act S Error A
as_error m s = convert (m s)

abbrev pub Reader : Type 0 → Type 0
Reader A = Act (List ℕ) IoError A

abbrev pub eof : IoError
eof = io_error unexpected_eof (text "failed to fill whole buffer")

-- `read_exact` into a buffer of `n` bytes. A source that ends early is used up.
abbrev pub keep : ℕ → Result IoError (List ℕ) × List ℕ → Result IoError (List ℕ) × List ℕ
keep b (ok bs, rest) = (ok (b ∷ bs), rest)
keep b (err e, rest) = (err e, rest)

unfoldable pub read_exact : ℕ → Reader (List ℕ)
read_exact zero bs = (ok [], bs)
read_exact (suc n) [] = (err eof, [])
read_exact (suc n) (b ∷ bs) = keep b (read_exact n bs)

-- `read_u8`
unfoldable pub read_u8 : Reader ℕ
read_u8 [] = (err eof, [])
read_u8 (b ∷ bs) = (ok b, bs)

-- `read_u16`
unfoldable pub read_u16 : Reader ℕ
read_u16 = do buf ← read_exact 2; pure (from_be_bytes (get_or buf 0 0) (get_or buf 1 0))

pub record Sink : Type 0 where
  pub buffered : Bool
  pub pending : List ℕ
  pub sent : List ℕ
  pub room : ℕ

abbrev pub Writer : Type 0
Writer = Act Sink IoError (Unit {0})

-- Bytes go out until the peer stops taking them.
unfoldable pub transmit : List ℕ → Writer
transmit bs s =
    if leb (length bs) s.room
    then (ok tt, record s { sent = s.sent ++ bs; room = s.room - length bs })
    else (
      err (io_error broken_pipe (text "broken pipe")),
      record s { sent = s.sent ++ take s.room bs; room = 0 },
    )

unfoldable pub write_all : List ℕ → Writer
write_all bs s =
    if s.buffered then (ok tt, record s { pending = s.pending ++ bs }) else transmit bs s

unfoldable pub flush : Writer
flush s = transmit s.pending (record s { pending = [] })

-- `handle` names the socket to the operations of tokio that the model takes as parameters.
pub record Conn : Type 0 where
  pub handle : ℕ
  pub input : List ℕ
  pub out : Sink

-- Reading and writing on one connection.
abbrev pub with_input : {E A : Type 0} → Conn → Result E A × List ℕ → Result E A × Conn
with_input c (r, bs) = (r, record c { input = bs })

abbrev pub receive : {E A : Type 0} → Act (List ℕ) E A → Act Conn E A
receive p c = with_input c (p c.input)

abbrev pub with_out : {E A : Type 0} → Conn → Result E A × Sink → Result E A × Conn
with_out c (r, s) = (r, record c { out = s })

abbrev pub emit : {E A : Type 0} → Act Sink E A → Act Conn E A
emit p c = with_out c (p c.out)
