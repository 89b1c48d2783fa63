-- ===== src/Stream/Utf8.antt =====
-- `String::from_utf8`: the check of the standard library, byte by byte. A Rust string is kept as
-- the list of its bytes.
use socks5_impl.Prelude.{
  ℕ, suc, zero, Bool, true, false, ◌&&◌, List, [], ◌∷◌, leb, if◌then◌else◌, ◌≡◌, refl,
}

-- Between characters, or inside one that wants more bytes, the next of them from `lo` to `hi`.
pub data Utf8State : Type 0 where
  start bad : Utf8State
  inside : ℕ → ℕ → ℕ → Utf8State

between : ℕ → ℕ → ℕ → Bool
between lo hi b = leb lo b && leb b hi

lead : ℕ → Utf8State
unfolding between
lead b =
    if leb b 0x7f
    then start
    else if between 0xc2 0xdf b
    then inside 1 0x80 0xbf
    else if between 0xe0 0xe0 b
    then inside 2 0xa0 0xbf
    else if between 0xed 0xed b
    then inside 2 0x80 0x9f
    else if between 0xe1 0xef b
    then inside 2 0x80 0xbf
    else if between 0xf0 0xf0 b
    then inside 3 0x90 0xbf
    else if between 0xf1 0xf3 b
    then inside 3 0x80 0xbf
    else if between 0xf4 0xf4 b
    then inside 3 0x80 0x8f
    else bad

step : Utf8State → ℕ → Utf8State
unfolding lead between
step start b = lead b
step bad b = bad
step (inside zero lo hi) b = bad
step (inside (suc zero) lo hi) b = if between lo hi b then start else bad
step (inside (suc (suc n)) lo hi) b = if between lo hi b then inside (suc n) 0x80 0xbf else bad

ends : Utf8State → List ℕ → Bool
unfolding step
ends start [] = true
ends bad [] = false
ends (inside n lo hi) [] = false
ends s (b ∷ bs) = ends (step s b) bs

unfoldable pub is_utf8 : List ℕ → Bool
unfolding ends
is_utf8 bs = ends start bs

ascii : is_utf8 (0x73 ∷ 0x65 ∷ 0x78 ∷ []) ≡ true
unfolding is_utf8
ascii = refl

euro : is_utf8 (0xe2 ∷ 0x82 ∷ 0xac ∷ []) ≡ true
unfolding is_utf8
euro = refl

surrogate : is_utf8 (0xed ∷ 0xa0 ∷ 0x80 ∷ []) ≡ false
unfolding is_utf8
surrogate = refl

cut_short : is_utf8 (0xe2 ∷ 0x82 ∷ []) ≡ false
unfolding is_utf8
cut_short = refl
