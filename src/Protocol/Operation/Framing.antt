-- ===== src/Protocol/Operation/Framing.antt =====
-- src/protocol/mod.rs: consequences of the contract of a message.
use socks5_impl.Prelude.{
  ℕ, ◌≡◌, ◌<◌, take, drop, get_or, refl, List, [], ◌∷◌, ◌++◌, append-nil, length, length-append,
  arith, inl, inr, ap, sym, ◌∙◌, zero, suc,
}
use socks5_impl.Error.{IoError}
use socks5_impl.Stream.{Sink, Result, ok, err, eof}
use socks5_impl.Stream.Framing.{extend}
use socks5_impl.Protocol.Operation.{StreamOperation, Lawful, write_to_stream}
use socks5_impl.Stream.Delivery.{IsOpen, sending, write_all_open}

-- An answer cannot have used up bytes that it leaves.
nothing_left :
    {T : Type 0} {x : T} (b : ℕ) (back : List ℕ) (r : Result IoError T × List ℕ)
    → extend (b ∷ back) r ≡ (ok x, [])
    → ⊥
nothing_left b back r e =
    omega (arith, ap (λ (t : Result _ _ × List ℕ). length t.1) e, length-append r.1 (b ∷ back))

-- A list around its element `n`.
take-append-drop_get :
    (n : ℕ) (bs : List ℕ) → n < length bs → bs ≡ take n bs ++ (get_or bs n 0 ∷ drop (suc n) bs)
take-append-drop_get n [] h = absurd (omega (arith, h))
take-append-drop_get zero (b ∷ bs) h = refl
take-append-drop_get (suc n) (b ∷ bs) h =
    ap (λ (xs : List ℕ). b ∷ xs) (take-append-drop_get n bs (omega (arith, h)))

module _ {T : Type 0} {op : StreamOperation T} {IsValid IsWritable : T → Type 0}
    (law : Lawful op IsValid IsWritable) where
  cut_short :
      (x : T) (front back : List ℕ) (b : ℕ)
      → IsValid x
      → IsWritable x
      → op.write_to_buf x [] ≡ front ++ (b ∷ back)
      → op.retrieve_from_stream front ≡ (err eof, [])
  cut_short x front back b h w e = elim (law.streams.at front) [
    | inl short ↦ short
    | inr same ↦ absurd (
        nothing_left b back (op.retrieve_from_stream front) (
          sym (same (b ∷ back))
          ∙ ap op.retrieve_from_stream (sym e)
          ∙ (rw append-nil at (law.reads_back x [] h w))))
  ]

  -- A writable message that is cut short anywhere is answered by `UnexpectedEof`, by both readers.
  pub truncated :
      (x : T) (n : ℕ)
      → IsValid x
      → IsWritable x
      → n < op.len x
      → (op.retrieve_from_stream (take n (op.write_to_buf x [])) ≡ (err eof, []))
        × (op.retrieve_from_async_stream (take n (op.write_to_buf x [])) ≡ (err eof, []))
  truncated x n h w short =
      let parts =
        take-append-drop_get n (op.write_to_buf x []) (rw (← law.measures x h) at short) in
      let cut = cut_short x _ _ _ h w parts in (cut, law.async_agrees _ ∙ cut)

  -- A writable message is read back by both readers from the front of any input, and `len` is the
  -- number of its bytes.
  pub round_trip :
      (x : T) (rest : List ℕ)
      → IsValid x
      → IsWritable x
      → (op.retrieve_from_stream (op.write_to_buf x [] ++ rest) ≡ (ok x, rest))
        × (op.retrieve_from_async_stream (op.write_to_buf x [] ++ rest) ≡ (ok x, rest))
        × (length (op.write_to_buf x []) ≡ op.len x)
  round_trip x rest h w =
      (law.reads_back x rest h w, law.async_agrees _ ∙ law.reads_back x rest h w, law.measures x h)

  -- What `write_to_stream` sends through an unbuffered connection with room for the message is read
  -- back as the message.
  sent_then_read :
      (x : T) (s : Sink)
      → IsValid x
      → IsWritable x
      → s.sent ≡ []
      → IsOpen (op.len x) s
      → (s' : Sink) × (write_to_stream ⦃op = op⦄ x s ≡ (ok tt, s'))
        × (op.retrieve_from_stream s'.sent ≡ (ok x, []))
  unfolding write_to_stream
  sent_then_read x s h w fresh room = (
    sending (op.write_to_buf x []) s,
    write_all_open (op.write_to_buf x []) s (rw (← law.measures x h) at room),
    rw fresh (rw append-nil at (law.reads_back x [] h w)),
  )
