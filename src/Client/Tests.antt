-- ===== src/Client/Tests.antt =====
-- src/client/mod.rs on concrete bytes.
use socks5_impl.Prelude.{◌≡◌, refl, [], ◌∷◌, ◌++◌, none, arith}
use socks5_impl.Error.{invalid_auth_method}
use socks5_impl.Stream.{err, Conn}
use socks5_impl.Protocol.Command
use socks5_impl.Protocol.Handshake.AuthMethod
use socks5_impl.Protocol.Handshake.AuthMethod.{no_auth, user_pass, no_acceptable_methods}
use socks5_impl.Client.Init.{init}
use socks5_impl.Client.Init.Steps.{told}
use socks5_impl.Client.Init.Laws.{chosen, init_not_offered}
use socks5_impl.Samples.{site, fresh}

abbrev rejected_client : Conn
rejected_client = fresh (chosen no_acceptable_methods ++ [])

init_not_offered_example : init Command.connect site none rejected_client ≡ (
  err (invalid_auth_method (AuthMethod.to_u8 no_acceptable_methods)),
  told (0x05 ∷ 0x01 ∷ 0x00 ∷ []) (fresh []),
)
init_not_offered_example =
    init_not_offered Command.connect site no_acceptable_methods [] rejected_client tt (λ e. cc) refl
      (refl, omega arith)
