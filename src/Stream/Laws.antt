-- ===== src/Stream/Laws.antt =====
-- What `read_exact`, `write_all` and `flush` do, apart from how they are computed.
use socks5_impl.Prelude.{
  ℕ, zero, suc, ◌+◌, ◌-◌, ◌<◌, ◌≡◌, refl, ap, List, [], ◌∷◌, ◌++◌, length, take, get_or,
  length-append, take-append_past, take-append_within, append_assoc, ◌⊎◌, inl, inr, arith,
}
use socks5_impl.Error.{IoError}
use socks5_impl.Stream.{
  convert, as_error, Result, ok, err, Reader, Act, after, ◌>>=◌, ◌>>◌, pure, eof, read_exact,
  read_u8, Sink, transmit, write_all, Conn, receive, emit,
}

-- A source that starts with `n` bytes gives those and keeps the others.
pub read_exact-append :
    (n : ℕ) (xs rest : List ℕ) → n ≡ length xs → read_exact n (xs ++ rest) ≡ (ok xs, rest)
unfolding read_exact
read_exact-append zero [] rest h = refl
read_exact-append zero (x ∷ xs) rest h = absurd (omega arith)
read_exact-append (suc n) [] rest h = absurd (omega arith)
read_exact-append (suc n) (x ∷ xs) rest h = rw (read_exact-append n xs rest (omega arith))

-- The two ways in which `read_exact` ends.
abbrev pub Filled : ℕ → List ℕ → Type 0
Filled n bs =
    (xs : List ℕ) × (rest : List ℕ) × (read_exact n bs ≡ (ok xs, rest))
    × (bs ≡ xs ++ rest)
    × (length xs ≡ n)

pub read_exact-cases :
    (n : ℕ) (bs : List ℕ) → Filled n bs ⊎ ((read_exact n bs ≡ (err eof, [])) × (length bs < n))
unfolding read_exact
read_exact-cases zero bs = inl ([], bs, refl, refl, refl)
read_exact-cases (suc n) [] = inr (refl, omega arith)
read_exact-cases (suc n) (b ∷ bs) = elim (read_exact-cases n bs) [
  | inl (xs, rest, e, s, l) ↦ inl (b ∷ xs, rest, rw e, ap (λ t. b ∷ t) s, ap suc l)
  | inr (e, l) ↦ inr (rw e, omega arith)
]

pub read_exact_short : (n : ℕ) (bs : List ℕ) → length bs < n → read_exact n bs ≡ (err eof, [])
unfolding read_exact
read_exact_short zero bs h = absurd (omega arith)
read_exact_short (suc n) [] h = refl
read_exact_short (suc n) (b ∷ bs) h = rw (read_exact_short n bs (omega arith))

pub after-pure : {S E A : Type 0} (r : Result E A × S) → after pure r ≡ r
after-pure (ok a, s) = refl
after-pure (err e, s) = refl

pub after_congr :
    {S E A B : Type 0} (r : Result E A × S) (f g : A → Act S E B)
    → ((a : A) (s : S) → f a s ≡ g a s)
    → after f r ≡ after g r
after_congr (ok a, s) f g h = h a s
after_congr (err e, s) f g h = refl

-- One read of `m + n` bytes is a read of `m` and a read of `n`.
pub read_exact-add :
    (m n k : ℕ) (bs : List ℕ)
    → k ≡ m + n
    → read_exact k bs ≡ (do a ← read_exact m; b ← read_exact n; pure (a ++ b)) bs
unfolding read_exact
read_exact-add zero n k bs h =
    rw (after-pure (read_exact n bs)) (ap (λ (j : ℕ). read_exact j bs) (omega arith))
read_exact-add (suc m) n zero bs h = absurd (omega arith)
read_exact-add (suc m) n (suc k) [] h = refl
read_exact-add (suc m) n (suc k) (b ∷ bs) h =
    rw (read_exact-add m n k bs (omega arith)) (ground arith)

-- Two writes one after the other are one write of the whole, also where the sink breaks.
pub write_all-append :
    (xs ys : List ℕ) (s : Sink) → (write_all xs >> write_all ys) s ≡ write_all (xs ++ ys) s
unfolding write_all transmit
write_all-append xs ys s = ground (
  arith,
  length-append xs ys,
  take-append_past xs ys s.room,
  take-append_within xs ys s.room,
  append_assoc s.sent xs ys,
  append_assoc s.sent xs (take (s.room - length xs) ys),
  append_assoc s.pending xs ys,
)

-- A read whose buffer is taken apart is two reads.
pub read_exact-split :
    {A : Type 0} (m n k : ℕ) (f : List ℕ → Reader A) (g : List ℕ → List ℕ → Reader A) (bs : List ℕ)
    → k ≡ m + n
    → ((a b : List ℕ) → length a ≡ m → f (a ++ b) ≡ g a b)
    → (read_exact k >>= f) bs ≡ (do a ← read_exact m; b ← read_exact n; g a b) bs
read_exact-split m n k f g bs h same =
    rw (read_exact-add m n k bs h) (elim (read_exact-cases m bs) [
      | inl (a, rest, e, s, l) ↦ rw e (elim (read_exact-cases n rest) [
        | inl (b, rest', e', s', l') ↦ rw e' (ap (λ (p : Reader _). p rest') (same a b l))
        | inr (e', l') ↦ rw e'
      ])
      | inr (e, l) ↦ rw e
    ])

-- Inversion of actions that answered.
pub >>=-eq-ok :
    {S E A B : Type 0} (m : Act S E A) (f : A → Act S E B) (s : S) {b : B} {s' : S}
    → (m >>= f) s ≡ (ok b, s')
    → (a : A) × (t : S) × (m s ≡ (ok a, t)) × (f a t ≡ (ok b, s'))
>>=-eq-ok {S} {E} {A} {B} m f s {b} {s'} = go (m s) refl
  where
    go :
        (r : Result E A × S)
        → m s ≡ r
        → after f r ≡ (ok b, s')
        → (a : A) × (t : S) × (m s ≡ (ok a, t)) × (f a t ≡ (ok b, s'))
    go (ok a, t) e h = (a, t, e, h)
    go (err x, t) e h = cc

pub read_exact-eq-ok :
    (n : ℕ) (bs : List ℕ) {xs rest : List ℕ}
    → read_exact n bs ≡ (ok xs, rest)
    → (bs ≡ xs ++ rest) × (length xs ≡ n)
read_exact-eq-ok n bs {xs} {rest} h = elim (read_exact-cases n bs) [
  | inl (ys, r, e, s, l) ↦
      let same : ys ≡ xs = cc in let left : r ≡ rest = cc in (rw (← same, ← left) s, rw (← same) l)
  | inr (e, l) ↦ cc
]

-- The same, for a proof that goes on with the parts.
pub >>=-elim :
    {S E A B C : Type 0} (m : Act S E A) (f : A → Act S E B) (s : S) {b : B} {s' : S}
    → (m >>= f) s ≡ (ok b, s')
    → ((a : A) (t : S) → m s ≡ (ok a, t) → f a t ≡ (ok b, s') → C)
    → C
>>=-elim m f s h k = let (a, t, e, e') = >>=-eq-ok m f s h in k a t e e'

pub read_exact-elim :
    {B C : Type 0} (n : ℕ) (f : List ℕ → Reader B) (bs : List ℕ) {b : B} {rest : List ℕ}
    → (read_exact n >>= f) bs ≡ (ok b, rest)
    → ((xs r : List ℕ) → bs ≡ xs ++ r → length xs ≡ n → f xs r ≡ (ok b, rest) → C)
    → C
read_exact-elim n f bs h k =
    >>=-elim (read_exact n) f bs h
      λ xs r e e'. let (s, l) = read_exact-eq-ok n bs e in k xs r s l e'

-- `read_u8` is a read into a buffer of one byte.
pub read_u8-eq :
    {A : Type 0} (f : ℕ → Reader A) (bs : List ℕ)
    → (read_u8 >>= f) bs ≡ (read_exact 1 >>= λ head. f (get_or head 0 0)) bs
unfolding read_exact read_u8
read_u8-eq f [] = refl
read_u8-eq f (b ∷ bs) = refl

pub receive-eq-ok :
    {E A : Type 0} (p : Act (List ℕ) E A) (c : Conn) {a : A} {c' : Conn}
    → receive p c ≡ (ok a, c')
    → (p c.input ≡ (ok a, c'.input)) × (c'.out ≡ c.out)
receive-eq-ok p c h = (ground arith, ground arith)

pub emit-eq-ok :
    {E A : Type 0} (p : Act Sink E A) (c : Conn) {a : A} {c' : Conn}
    → emit p c ≡ (ok a, c')
    → (p c.out ≡ (ok a, c'.out)) × (c'.input ≡ c.input)
emit-eq-ok p c h = (ground arith, ground arith)

-- A step that answered, and the rest from there.
pub then-ok :
    {S E B : Type 0} (m : Act S E (Unit {0})) (k : Act S E B) (s : S) {s' : S}
    → m s ≡ (ok tt, s')
    → (m >> k) s ≡ k s'
then-ok m k s h = ap (after (λ _. k)) h

pub bind-ok :
    {S E A B : Type 0} (m : Act S E A) (f : A → Act S E B) (s : S) {a : A} {s' : S}
    → m s ≡ (ok a, s')
    → (m >>= f) s ≡ f a s'
bind-ok m f s h = ap (after f) h

pub then-err :
    {S E B : Type 0} (m : Act S E (Unit {0})) (k : Act S E B) (s : S) {e : E} {s' : S}
    → m s ≡ (err e, s')
    → (m >> k) s ≡ (err e, s')
then-err m k s h = ap (after (λ _. k)) h

pub bind-err :
    {S E A B : Type 0} (m : Act S E A) (f : A → Act S E B) (s : S) {e : E} {s' : S}
    → m s ≡ (err e, s')
    → (m >>= f) s ≡ (err e, s')
bind-err m f s h = ap (after f) h

convert-eq-ok :
    {S A : Type 0} (r : Result IoError A × S) {a : A} {s' : S}
    → convert r ≡ (ok a, s')
    → r ≡ (ok a, s')
convert-eq-ok (ok x, s) h = cc
convert-eq-ok (err e, s) h = cc

pub as_error-eq-ok :
    {S A : Type 0} (m : Act S IoError A) (s : S) {a : A} {s' : S}
    → as_error m s ≡ (ok a, s')
    → m s ≡ (ok a, s')
as_error-eq-ok m s h = convert-eq-ok (m s) h
