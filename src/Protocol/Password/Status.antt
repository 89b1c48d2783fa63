-- ===== src/Protocol/Password/Status.antt =====
-- src/protocol/handshake/password_method/response.rs: the status of the sub-negotiation.
use socks5_impl.Prelude.{ℕ, ◌==◌, if◌then◌else◌, arith, refl}
use socks5_impl.Error.{IoError, io_error, format, invalid_data}
use socks5_impl.Stream.{Result, ok, err}
use socks5_impl.Protocol.Code.{IsCode}

pub data Status : Type 0 where
  succeeded failed : Status

unfoldable pub to_u8 : Status → ℕ
to_u8 succeeded = 0x00
to_u8 failed = 0xff

unfoldable pub try_from : ℕ → Result IoError Status
try_from value =
    if value == 0x00
    then ok succeeded
    else if value == 0xff
    then ok failed
    else err (io_error invalid_data (format "Invalid sub-negotiation status {0:#x}" value))

pub Status-IsCode : IsCode to_u8 try_from
unfolding to_u8 try_from
Status-IsCode = record {
  decodes = elim [ succeeded ↦ refl | failed ↦ refl ];
  exact = λ b. elim [ succeeded ↦ λ h. ground arith | failed ↦ λ h. ground arith ];
  in_range = elim [ succeeded ↦ omega arith | failed ↦ omega arith ];
}
