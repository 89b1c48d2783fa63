-- ===== src/Stream/Framing.antt =====
-- Readers that leave alone what follows: the answer with more bytes behind the input.
use socks5_impl.Prelude.{
  ℕ, zero, suc, ◌≡◌, refl, List, [], ◌∷◌, ◌++◌, ◌⊎◌, inl, inr, Bool, true, false, if◌then◌else◌,
}
use socks5_impl.Error.{IoError}
use socks5_impl.Stream.{
  Result, ok, err, Reader, ◌>>=◌, ◌>>◌, pure, raise, lift, keep, eof, read_exact, read_u8,
}

-- The same answer, with more bytes left.
abbrev pub extend : {E A : Type 0} → List ℕ → Result E A × List ℕ → Result E A × List ℕ
extend more (r, rest) = (r, rest ++ more)

abbrev pub StreamsAt : {A : Type 0} → Reader A → List ℕ → Type 0
StreamsAt p bs = (p bs ≡ (err eof, [])) ⊎ ((more : List ℕ) → p (bs ++ more) ≡ extend more (p bs))

pub record Streams {A : Type 0} (p : Reader A) : Type 0 where
  pub at : (bs : List ℕ) → StreamsAt p bs

pub Streams-pure : {A : Type 0} (a : A) → Streams (pure a)
Streams-pure a = record { at = λ bs. inr (λ more. refl) }

pub Streams-raise : {A : Type 0} (e : IoError) → Streams {A = A} (raise e)
Streams-raise e = record { at = λ bs. inr (λ more. refl) }

pub Streams-lift : {A : Type 0} (r : Result IoError A) → Streams (lift r)
Streams-lift r = record { at = λ bs. inr (λ more. refl) }

pub Streams-read_u8 : Streams read_u8
unfolding read_u8
Streams-read_u8 = record { at = elim [ [] ↦ inl refl | b ∷ bs ↦ inr (λ more. refl) ] }

read_exact-StreamsAt : (n : ℕ) (bs : List ℕ) → StreamsAt (read_exact n) bs
unfolding read_exact
read_exact-StreamsAt zero bs = inr (λ more. refl)
read_exact-StreamsAt (suc n) [] = inl refl
read_exact-StreamsAt (suc n) (b ∷ bs) = elim (read_exact-StreamsAt n bs) [
  | inl e ↦ inl (rw e)
  | inr same ↦ inr (λ more. rw (same more) (keep-extend b more (read_exact n bs)))
]
  where
    keep-extend :
        (b : ℕ) (more : List ℕ) (r : Result IoError (List ℕ) × List ℕ)
        → keep b (extend more r) ≡ extend more (keep b r)
    keep-extend b more (ok a, s) = refl
    keep-extend b more (err e, s) = refl

pub Streams-read_exact : (n : ℕ) → Streams (read_exact n)
Streams-read_exact n = record { at = read_exact-StreamsAt n }

-- Where the first part answered `r`, the second goes on.
go_on :
    {A B : Type 0} (p : Reader A) (f : A → Reader B) (bs : List ℕ) (r : Result IoError A × List ℕ)
    → p bs ≡ r
    → ((more : List ℕ) → p (bs ++ more) ≡ extend more r)
    → ((a : A) → Streams (f a))
    → StreamsAt (p >>= f) bs
go_on p f bs (err e, rest) h same k = inr (λ more. rw (h, same more))
go_on p f bs (ok a, rest) h same k = elim ((k a).at rest) [
  | inl e ↦ inl (rw h e)
  | inr same' ↦ inr (λ more. rw (h, same more) (same' more))
]

pub Streams-bind :
    {A B : Type 0} {p : Reader A} {f : A → Reader B}
    → Streams p
    → ((a : A) → Streams (f a))
    → Streams (p >>= f)
Streams-bind {p = p} {f = f} h k = record {
  at = λ bs. elim (h.at bs) [ inl e ↦ inl (rw e) | inr same ↦ go_on p f bs (p bs) refl same k ];
}

pub Streams-then :
    {B : Type 0} {p : Reader (Unit {0})} {q : Reader B} → Streams p → Streams q → Streams (p >> q)
Streams-then h k = Streams-bind h (λ _. k)

pub Streams-if :
    {A : Type 0} (b : Bool) {p q : Reader A} → Streams p → Streams q → Streams (if b then p else q)
Streams-if true h k = h
Streams-if false h k = k

pub ruleset streams_rules = (
  Streams-pure, Streams-raise, Streams-lift, Streams-read_u8, Streams-read_exact, Streams-bind,
  Streams-then, Streams-if,
)
