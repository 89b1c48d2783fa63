-- ===== src/Protocol/Code.antt =====
-- src/protocol/: the conversions between an enumeration and its byte.
use socks5_impl.Prelude.{ℕ, ◌≡◌, IsByte}
use socks5_impl.Error.{IoError}
use socks5_impl.Stream.{Result, ok}

pub record IsCode {T : Type 0} (to_u8 : T → ℕ) (try_from : ℕ → Result IoError T) : Type 0 where
  pub decodes : (x : T) → try_from (to_u8 x) ≡ ok x
  pub exact : (b : ℕ) (x : T) → try_from b ≡ ok x → to_u8 x ≡ b
  pub in_range : (x : T) → IsByte (to_u8 x)
