-- ===== src/Server/Connection/Closing.antt =====
-- src/server/connection/associate.rs: `wait_until_closed`.
use socks5_impl.Prelude.{ℕ, zero, suc, ◌≡◌, ◌↔◌, refl, List, [], ◌∷◌, Option, none, some, All}
use socks5_impl.Error.{IoError}
use socks5_impl.Stream.{Result, ok, err}

-- What the reads of one byte return, one after the other; at the end of the list it is still waiting.
unfoldable pub wait_until_closed : List (Result IoError ℕ) → Option (Result IoError (Unit {0}))
wait_until_closed [] = none
wait_until_closed (ok zero ∷ rs) = some (ok tt)
wait_until_closed (ok (suc n) ∷ rs) = wait_until_closed rs
wait_until_closed (err e ∷ rs) = some (err e)

-- A read that has got something.
abbrev pub IsData : Result IoError ℕ → Type 0
IsData (ok zero) = ⊥
IsData (ok (suc n)) = Unit {0}
IsData (err e) = ⊥

waits : (rs : List (Result IoError ℕ)) → wait_until_closed rs ≡ none → All IsData rs
unfolding wait_until_closed
waits [] h = tt
waits (ok zero ∷ rs) h = cc
waits (ok (suc n) ∷ rs) h = (tt, waits rs h)
waits (err e ∷ rs) h = cc

only_data : (rs : List (Result IoError ℕ)) → All IsData rs → wait_until_closed rs ≡ none
unfolding wait_until_closed
only_data [] h = refl
only_data (ok zero ∷ rs) (h, hs) = absurd h
only_data (ok (suc n) ∷ rs) (h, hs) = only_data rs hs
only_data (err e ∷ rs) (h, hs) = absurd h

-- `wait_until_closed` keeps waiting exactly as long as each read gets data: the first end of the
-- stream or error makes it return.
wait_until_closed_iff :
    (rs : List (Result IoError ℕ)) → (wait_until_closed rs ≡ none) ↔ All IsData rs
wait_until_closed_iff rs = (waits rs, only_data rs)
