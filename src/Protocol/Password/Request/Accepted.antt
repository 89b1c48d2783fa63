-- ===== src/Protocol/Password/Request/Accepted.antt =====
-- src/protocol/handshake/password_method/request.rs: the inputs that the reader accepts.
use socks5_impl.Prelude.{
  ℕ, zero, suc, ◌+◌, ◌%◌, ◌≡◌, ◌↔◌, refl, ap, ◌∙◌, true, List, [], ◌∷◌, ◌++◌, All, IsByte, get_or,
  take, length, append_assoc, All-front, All-back, arith,
}
use socks5_impl.Stream.{Reader, ok, ◌>>=◌, pure, read_exact}
use socks5_impl.Stream.Laws.{>>=-elim, read_exact-elim}
use socks5_impl.Stream.Utf8.{is_utf8}
use socks5_impl.Protocol.Password.UserKey.{require_subnegotiation, from_utf8}
use socks5_impl.Protocol.Password.Request.{
  Request, retrieve_from_stream, write_to_buf, IsRequest, IsWritable,
}
use socks5_impl.Protocol.Password.Request.Contract.{password_request_operation-Lawful}

-- A buffer of one byte more than `n`: the first `n` and the last.
take-last :
    (n : ℕ) (buf : List ℕ)
    → length buf ≡ n + 1
    → (buf ≡ take n buf ++ (get_or buf n 0 ∷ [])) × (length (take n buf) ≡ n)
take-last zero [] l = absurd (omega arith)
take-last zero (b ∷ []) l = (refl, refl)
take-last zero (b ∷ c ∷ bs) l = absurd (omega arith)
take-last (suc n) [] l = absurd (omega arith)
take-last (suc n) (b ∷ bs) l =
    let (s, k) = take-last n bs (omega arith) in (ap (λ (t : List ℕ). b ∷ t) s, ap suc k)

from_utf8-eq-ok :
    (buf rest rest' : List ℕ) (s : List ℕ)
    → from_utf8 buf rest ≡ (ok s, rest')
    → (is_utf8 buf ≡ true) × (s ≡ buf) × (rest' ≡ rest)
unfolding from_utf8
from_utf8-eq-ok buf rest rest' s h = ground arith

-- The two strings, behind their lengths.
strings_taken :
    (name pass rest : List ℕ)
    → IsByte (length name)
    → IsByte (length pass)
    → 0x01 ∷ length name ∷ (name ++ (length pass ∷ (pass ++ rest)))
      ≡ write_to_buf (record { user_key = record { username = name; password = pass } }) [] ++ rest
unfolding write_to_buf
strings_taken name pass rest n m =
    let n' : length name % 256 ≡ length name = omega arith in
    let m' : length pass % 256 ≡ length pass = omega arith in rw (n', m') (simp append_assoc)

-- What the reader does when it has the length of the user name.
abbrev strings : ℕ → Reader Request
strings ulen = do
  buf ← read_exact (ulen + 1)
  username ← from_utf8 (take ulen buf)
  password ← read_exact (get_or buf ulen 0)
  pwd ← from_utf8 password
  pure (record { user_key = record { username = username; password = pwd } })

Accepts : List ℕ → List ℕ → Request → Type 0
Accepts bs rest x = (bs ≡ write_to_buf x [] ++ rest) × IsRequest x × IsWritable x

after_name :
    (name : List ℕ) (plen : ℕ) (t rest : List ℕ) (x : Request)
    → IsByte (length name)
    → IsByte plen
    → is_utf8 name ≡ true
    → (do
      password ← read_exact plen
      pwd ← from_utf8 password
      pure (record { user_key = record { username = name; password = pwd } }))
        t
      ≡ (ok x, rest)
    → Accepts (0x01 ∷ length name ∷ (name ++ (plen ∷ t))) rest x
unfolding Accepts
after_name name plen t rest x n p utf8 e =
    read_exact-elim plen
      (λ password. from_utf8 password >>= λ pwd.
        pure (record { user_key = record { username = name; password = pwd } }))
      t e
      λ pass r s l e1. >>=-elim (from_utf8 pass) _ r e1 λ pwd r' q e2.
        let (utf8', same, same_rest) = from_utf8-eq-ok pass r r' pwd q in
        let value : record { user_key = record { username = name; password = pwd } } ≡ x = cc in
        let left : r' ≡ rest = cc in
        rw (← value, ← left, same, same_rest, s, ← l)
          (strings_taken name pass r n (rw (← l) at p), (utf8, utf8'), omega arith)

after_length :
    (ulen : ℕ) (bs rest : List ℕ) (x : Request)
    → IsByte ulen
    → All IsByte bs
    → strings ulen bs ≡ (ok x, rest)
    → Accepts (0x01 ∷ ulen ∷ bs) rest x
after_length ulen bs rest x n h e =
    read_exact-elim (ulen + 1)
      (λ buf. from_utf8 (take ulen buf) >>= λ username.
        read_exact (get_or buf ulen 0) >>= λ password. from_utf8 password >>= λ pwd.
        pure (record { user_key = record { username = username; password = pwd } }))
      bs e
      λ buf t s l e1. >>=-elim (from_utf8 (take ulen buf)) _ t e1 λ username t' q e2.
        let (utf8, same, same_rest) = from_utf8-eq-ok (take ulen buf) t t' username q in
        let (parts, k) = take-last ulen buf l in
        let whole : All IsByte buf = All-front IsByte buf t (rw s at h) in
        let last : IsByte (get_or buf ulen 0) =
          (All-back IsByte (take ulen buf) (get_or buf ulen 0 ∷ []) (rw parts at whole)).0 in
        let again : bs ≡ take ulen buf ++ (get_or buf ulen 0 ∷ t) =
          s
          ∙ ap (λ (front : List ℕ). front ++ t) parts
          ∙ append_assoc (take ulen buf) (get_or buf ulen 0 ∷ []) t in
        let read =
          after_name (take ulen buf) (get_or buf ulen 0) t rest x (rw k n) last utf8
            (rw (same, same_rest) at e2) in
        rw (again) (rw k at read)

require_subnegotiation-eq-ok :
    (ver : ℕ) (bs rest : List ℕ) (u : Unit {0})
    → require_subnegotiation ver bs ≡ (ok u, rest)
    → (ver ≡ 0x01) × (rest ≡ bs)
unfolding require_subnegotiation
require_subnegotiation-eq-ok ver bs rest u h = ground arith

after_version :
    (bs rest : List ℕ) (x : Request)
    → All IsByte bs
    → (read_exact 1 >>= λ head. strings (get_or head 0 0)) bs ≡ (ok x, rest)
    → Accepts (0x01 ∷ bs) rest x
unfolding read_exact
after_version [] rest x h e = cc
after_version (n ∷ bs) rest x h e = after_length n bs rest x h.0 h.1 e

password_request_taken :
    (bs rest : List ℕ) (x : Request)
    → All IsByte bs
    → retrieve_from_stream bs ≡ (ok x, rest)
    → Accepts bs rest x
unfolding retrieve_from_stream read_exact
password_request_taken [] rest x h e = cc
password_request_taken (b ∷ bs) rest x h e =
    >>=-elim (require_subnegotiation b) (λ u. read_exact 1 >>= λ head. strings (get_or head 0 0)) bs
      e
      λ u t q e1.
        let (one, same) = require_subnegotiation-eq-ok b bs t u q in
        rw one (after_version bs rest x h.1 (rw same at e1))

-- On bytes, the reader of the credentials accepts exactly the encodings of two UTF-8 strings of at most 255 bytes,
-- and leaves what follows.
pub password_request_iff :
    (bs rest : List ℕ) (x : Request)
    → All IsByte bs
    → (retrieve_from_stream bs ≡ (ok x, rest))
      ↔ ((bs ≡ write_to_buf x [] ++ rest) × IsRequest x × IsWritable x)
unfolding Accepts
password_request_iff bs rest x h = (
  password_request_taken bs rest x h,
  λ taken. rw (taken.0) (password_request_operation-Lawful.reads_back x rest (taken.1) (taken.2)),
)
