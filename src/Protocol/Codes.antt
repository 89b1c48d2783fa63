-- ===== src/Protocol/Codes.antt =====
-- The bytes of the enumerations of src/protocol/, in both directions.
use socks5_impl.Prelude.{ℕ, ◌≡◌, ◌↔◌, ap, ◌∙◌, sym, IsByte}
use socks5_impl.Error.{IoError}
use socks5_impl.Stream.{Result, ok}
use socks5_impl.Protocol.Code.{IsCode}
use socks5_impl.Protocol.Version
use socks5_impl.Protocol.Version.{Version, Version-IsCode}
use socks5_impl.Protocol.Command
use socks5_impl.Protocol.Command.{Command, Command-IsCode}
use socks5_impl.Protocol.Reply
use socks5_impl.Protocol.Reply.{Reply, Reply-IsCode}
use socks5_impl.Protocol.AddressType
use socks5_impl.Protocol.AddressType.{AddressType, AddressType-IsCode}
use socks5_impl.Protocol.Password.Status
use socks5_impl.Protocol.Password.Status.{Status, Status-IsCode}
use socks5_impl.Protocol.Handshake.AuthMethod
use socks5_impl.Protocol.Handshake.AuthMethod.{
  AuthMethod, IsCanonical, from_u8-to_u8, to_u8-from_u8,
}

code_iff :
    {T : Type 0} {to_u8 : T → ℕ} {try_from : ℕ → Result IoError T}
    → IsCode to_u8 try_from
    → (b : ℕ) (x : T) → (try_from b ≡ ok x) ↔ (to_u8 x ≡ b)
code_iff {try_from = try_from} code b x =
    (code.exact b x, λ e. ap try_from (sym e) ∙ code.decodes x)

-- A byte is converted to a version, a command, a reply, an address type or a status exactly when
-- it is the byte of that value.
pub codes_iff :
    (b : ℕ) (version : Version) (command : Command) (reply : Reply) (kind : AddressType)
    (status : Status)
    → ((Version.try_from b ≡ ok version) ↔ (Version.to_u8 version ≡ b))
      × ((Command.try_from b ≡ ok command) ↔ (Command.to_u8 command ≡ b))
      × ((Reply.try_from b ≡ ok reply) ↔ (Reply.to_u8 reply ≡ b))
      × ((AddressType.try_from b ≡ ok kind) ↔ (AddressType.to_u8 kind ≡ b))
      × ((Status.try_from b ≡ ok status) ↔ (Status.to_u8 status ≡ b))
codes_iff b version command reply kind status = (
  code_iff Version-IsCode b version,
  code_iff Command-IsCode b command,
  code_iff Reply-IsCode b reply,
  code_iff AddressType-IsCode b kind,
  code_iff Status-IsCode b status,
)

-- A byte is converted to a method, numbered as its kind says, exactly when it is the byte of that
-- method.
method_code_iff :
    (b : ℕ) (m : AuthMethod)
    → IsByte b
    → IsCanonical m
    → (AuthMethod.from_u8 b ≡ m) ↔ (AuthMethod.to_u8 m ≡ b)
method_code_iff b m h c = (
  λ e. ap AuthMethod.to_u8 (sym e) ∙ to_u8-from_u8 b h,
  λ e. ap AuthMethod.from_u8 (sym e) ∙ from_u8-to_u8 m c,
)
