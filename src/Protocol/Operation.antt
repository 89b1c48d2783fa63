-- ===== src/Protocol/Operation.antt =====
-- src/protocol/mod.rs: the traits `StreamOperation` and `AsyncStreamOperation`.
pub mod Framing
use socks5_impl.Prelude.{ℕ, ◌+◌, ◌≤◌, Bool, List, [], ◌∷◌, ◌++◌, ◌==◌, length, to_be_bytes, ◌≡◌}
use socks5_impl.Stream.{Reader, Writer, ok, write_all}
use socks5_impl.Stream.Framing.{Streams}

-- The methods of `bytes::BufMut` at the end of a growing buffer.
abbrev pub put_u8 : ℕ → List ℕ → List ℕ
put_u8 b buf = buf ++ (b ∷ [])

abbrev pub put_slice : List ℕ → List ℕ → List ℕ
put_slice bs buf = buf ++ bs

abbrev pub put_u16 : ℕ → List ℕ → List ℕ
put_u16 n buf = buf ++ to_be_bytes n

-- `buf.put_u8(x); buf.put_slice(y);` is `buf ▹ put_u8 x ▹ put_slice y`.
infixl 10 ◌▹◌
abbrev pub ◌▹◌ : List ℕ → (List ℕ → List ℕ) → List ℕ
buf ▹ put = put buf

pub record StreamOperation (T : Type 0) : Type 0 where
  pub retrieve_from_stream : Reader T
  pub retrieve_from_async_stream : Reader T
  pub write_to_buf : T → List ℕ → List ℕ
  pub len : T → ℕ

module _ {T : Type 0} ⦃op : StreamOperation T⦄ where
  -- What the message is on the wire.
  abbrev pub to_bytes : T → List ℕ
  to_bytes x = op.write_to_buf x []

  -- The default methods of the traits; the blocking and the async one have one body.
  unfoldable pub write_to_stream : T → Writer
  write_to_stream x = write_all (op.write_to_buf x [])

  unfoldable pub write_to_async_stream : T → Writer
  write_to_async_stream x = write_all (op.write_to_buf x [])

  unfoldable pub is_empty : T → Bool
  is_empty x = op.len x == 0

-- The contract of the traits: `IsValid` is what the types of the source give, and `IsWritable` what
-- the wire format can carry.
pub record Lawful {T : Type 0} (op : StreamOperation T) (IsValid IsWritable : T → Type 0)
    : Type 0 where
  pub appends : (x : T) (buf : List ℕ) → op.write_to_buf x buf ≡ buf ++ op.write_to_buf x []
  pub measures : (x : T) → IsValid x → length (op.write_to_buf x []) ≡ op.len x
  pub reads_back :
      (x : T) (rest : List ℕ)
      → IsValid x
      → IsWritable x
      → op.retrieve_from_stream (op.write_to_buf x [] ++ rest) ≡ (ok x, rest)
  pub async_agrees : (bs : List ℕ) → op.retrieve_from_async_stream bs ≡ op.retrieve_from_stream bs
  pub streams : Streams op.retrieve_from_stream
