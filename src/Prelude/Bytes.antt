-- ===== src/Prelude/Bytes.antt =====
-- Bytes and 16-bit numbers as native numbers: `as u8`, `put_u16` and `u16::from_be_bytes`.
use Prim.Native.Nat.{ℕ, ◌+◌, ◌*◌, ◌/◌, ◌%◌, ◌<◌}
use mathlib.Core.Path.{◌≡◌}
use mathlib.Core.List.{List, [], ◌∷◌}
use native.Mathlib.Omega.{arith}

abbrev pub IsByte : ℕ → Type 0
IsByte b = b < 256

abbrev pub IsU16 : ℕ → Type 0
IsU16 n = n < 65536

-- `n as u8`
abbrev pub as_u8 : ℕ → ℕ
as_u8 n = n % 256

abbrev pub from_be_bytes : ℕ → ℕ → ℕ
from_be_bytes hi lo = hi * 256 + lo

-- The two bytes of a u16, most significant first.
abbrev pub to_be_bytes : ℕ → List ℕ
to_be_bytes n = (n / 256) ∷ (n % 256) ∷ []

pub from_be_bytes-to_be_bytes : (n : ℕ) → from_be_bytes (n / 256) (n % 256) ≡ n
from_be_bytes-to_be_bytes n = omega arith

pub to_be_bytes-from_be_bytes :
    (hi lo : ℕ) → IsByte lo → to_be_bytes (from_be_bytes hi lo) ≡ hi ∷ lo ∷ []
to_be_bytes-from_be_bytes hi lo h = ground arith
