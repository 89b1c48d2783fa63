-- ===== src/Protocol/Version.antt =====
-- src/protocol/mod.rs: the protocol version.
use socks5_impl.Prelude.{ℕ, ◌==◌, ◌≡◌, List, if◌then◌else◌, arith, refl}
use socks5_impl.Error.{IoError, io_error, text, format, invalid_data, unsupported}
use socks5_impl.Stream.{Result, ok, err}
use socks5_impl.Stream.Framing.{Streams, streams_rules}
use socks5_impl.Protocol.Code.{IsCode}

pub data Version : Type 0 where
  v4 v5 : Version

unfoldable pub to_u8 : Version → ℕ
to_u8 v4 = 4
to_u8 v5 = 5

unfoldable pub try_from : ℕ → Result IoError Version
try_from value =
    if value == 4
    then ok v4
    else if value == 5
    then ok v5
    else err (io_error invalid_data (text "invalid version"))

pub Version-IsCode : IsCode to_u8 try_from
unfolding to_u8 try_from
Version-IsCode = record {
  decodes = elim [ v4 ↦ refl | v5 ↦ refl ];
  exact = λ b. elim [ v4 ↦ λ h. ground arith | v5 ↦ λ h. ground arith ];
  in_range = elim [ v4 ↦ omega arith | v5 ↦ omega arith ];
}

-- `if ver != Version::v5 { return Err(..) }`, with which the messages begin.
unfoldable pub require_v5 : {S : Type 0} → Version → S → Result IoError (Unit {0}) × S
unfolding to_u8
require_v5 v4 s =
    (err (io_error unsupported (format "Unsupported SOCKS version {0:#x}" (to_u8 v4))), s)
require_v5 v5 s = (ok tt, s)

pub require_v5-Streams : (version : Version) → Streams (require_v5 version)
unfolding require_v5
require_v5-Streams v4 = search streams_rules
require_v5-Streams v5 = search streams_rules

pub require_v5-eq-ok :
    (version : Version) (s : List ℕ) {u : Unit {0}} {s' : List ℕ}
    → require_v5 version s ≡ (ok u, s')
    → (version ≡ v5) × (s' ≡ s)
unfolding require_v5
require_v5-eq-ok v4 s h = cc
require_v5-eq-ok v5 s h = (refl, cc)
