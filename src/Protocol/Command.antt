-- ===== src/Protocol/Command.antt =====
-- src/protocol/command.rs
use socks5_impl.Prelude.{ℕ, ◌==◌, if◌then◌else◌, arith, refl}
use socks5_impl.Error.{IoError, io_error, format, invalid_input}
use socks5_impl.Stream.{Result, ok, err}
use socks5_impl.Protocol.Code.{IsCode}

pub data Command : Type 0 where
  connect bind udp_associate : Command

unfoldable pub try_from : ℕ → Result IoError Command
try_from code =
    if code == 0x01
    then ok connect
    else if code == 0x02
    then ok bind
    else if code == 0x03
    then ok udp_associate
    else err (io_error invalid_input (format "Unsupported command code {0:#x}" code))

unfoldable pub to_u8 : Command → ℕ
to_u8 connect = 0x01
to_u8 bind = 0x02
to_u8 udp_associate = 0x03

pub Command-IsCode : IsCode to_u8 try_from
unfolding to_u8 try_from
Command-IsCode = record {
  decodes = elim [ connect ↦ refl | bind ↦ refl | udp_associate ↦ refl ];
  exact = λ b. elim [
    | connect ↦ λ h. ground arith
    | bind ↦ λ h. ground arith
    | udp_associate ↦ λ h. ground arith
  ];
  in_range = elim [ connect ↦ omega arith | bind ↦ omega arith | udp_associate ↦ omega arith ];
}
