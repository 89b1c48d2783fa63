-- ===== src/Client/Writer/Laws.antt =====
-- src/client/mod.rs: `Socks5Writer` next to the writers of src/protocol/.
use socks5_impl.Prelude.{
  ℕ, ◌≤◌, ◌<◌, ◌≡◌, sym, ap, fun_ext, as_u8, ◌∙◌, List, [], ◌∷◌, ◌++◌, map, length, append_assoc,
  append-nil, arith, to_be_bytes, true, false, ltb,
}
use socks5_impl.Error.{string}
use socks5_impl.Net.{v4, v6}
use socks5_impl.Stream.{
  Act, after, ◌>>◌, pure, raise, as_error, convert, Sink, write_all, transmit, flush,
}
use socks5_impl.Stream.Laws.{write_all-append}
use socks5_impl.Protocol.Version
use socks5_impl.Protocol.Command
use socks5_impl.Protocol.Command.{Command}
use socks5_impl.Protocol.AddressType.{domain}
use socks5_impl.Protocol.Address
use socks5_impl.Protocol.Address.{Address, socket_address, domain_address, IsAddress, IsWritable}
use socks5_impl.Protocol.Address.Encode.{write_to_buf-append}
use socks5_impl.Protocol.Request
use socks5_impl.Protocol.Handshake.AuthMethod
use socks5_impl.Protocol.Handshake.AuthMethod.{AuthMethod}
use socks5_impl.Protocol.Handshake.Request as HandshakeRequest
use socks5_impl.Protocol.Password.UserKey.{UserKey, IsWritableKey}
use socks5_impl.Protocol.Password.Request as PasswordRequest
use socks5_impl.Client.Writer.{
  ClientWriter, put, put_byte, put_port, write_address, write_string, write_atyp, write_each,
  write_method, write_command, write_reserved, write_selection_msg, write_final, write_auth_version,
}

pub as_error-then :
    {S : Type 0} (m k : Act S _ (Unit {0})) (s : S)
    → (as_error m >> as_error k) s ≡ as_error (m >> k) s
as_error-then m k s = ground arith

-- Two writes in a row are one, also on a stream that breaks.
pub put-put : (xs ys : List ℕ) (s : Sink) → (put xs >> put ys) s ≡ put (xs ++ ys) s
put-put xs ys s =
    as_error-then (write_all xs) (write_all ys) s ∙ ap convert (write_all-append xs ys s)

pub then_assoc :
    {S E B : Type 0} (m n : Act S E (Unit {0})) (k : Act S E B) (s : S)
    → (m >> (n >> k)) s ≡ ((m >> n) >> k) s
then_assoc m n k s = ground arith

pub then_assoc_four :
    {S E B : Type 0} (a b c : Act S E (Unit {0})) (k : Act S E B)
    → (((a >> b) >> c) >> k) ≡ (a >> (b >> (c >> k)))
then_assoc_four a b c k = fun_ext λ s. sym (then_assoc a b (c >> k) s ∙ then_assoc (a >> b) c k s)

-- A writer that starts with two writes.
pub put-then :
    (xs ys : List ℕ) (k : ClientWriter) (s : Sink)
    → (put xs >> (put ys >> k)) s ≡ (put (xs ++ ys) >> k) s
put-then xs ys k s = then_assoc (put xs) (put ys) k s ∙ ap (after (λ _. k)) (put-put xs ys s)

pub write_string-eq :
    (bytes : List ℕ) → length bytes ≤ 255 → write_string bytes ≡ put (as_u8 (length bytes) ∷ bytes)
unfolding write_string
write_string-eq bytes h =
    let short : ltb 255 (length bytes) ≡ false = ground arith in
    rw short (fun_ext (put-put (as_u8 (length bytes) ∷ []) bytes))

-- A string of more than 255 bytes is refused before any of it is written.
pub write_string_too_long :
    (bytes : List ℕ) → 255 < length bytes → write_string bytes ≡ raise (string "Too long string")
unfolding write_string
write_string_too_long bytes h = let long : ltb 255 (length bytes) ≡ true = ground arith in rw long

-- Field by field the client writes a writable address as `write_to_buf` does, on every stream, also
-- where it breaks.
pub write_address-eq :
    (x : Address) → IsWritable x → write_address x ≡ put (Address.write_to_buf x [])
unfolding write_address Address.write_to_buf
write_address-eq (socket_address (v4 ip port)) w =
    fun_ext λ s. put-then (_ ∷ []) ip (put_port port) s ∙ put-put (_ ∷ ip) (to_be_bytes port) s
write_address-eq (socket_address (v6 ip port flowinfo scope)) w =
    fun_ext λ s. put-then (_ ∷ []) ip (put_port port) s ∙ put-put (_ ∷ ip) (to_be_bytes port) s
write_address-eq (domain_address name port) w = fun_ext λ s.
    ap (λ (m : ClientWriter). (write_atyp domain >> (m >> put_port port)) s)
      (write_string-eq name w)
    ∙ put-then (_ ∷ []) (_ ∷ name) (put_port port) s
    ∙ put-put (_ ∷ _ ∷ name) (to_be_bytes port) s

-- Of a domain that is too long it writes the address type alone, and fails.
pub write_address_too_long :
    (name : List ℕ) (port : ℕ)
    → 255 < length name
    → write_address (domain_address name port)
      ≡ (write_atyp domain >> raise (string "Too long string"))
unfolding write_address
write_address_too_long name port h =
    ap (λ (m : ClientWriter). write_atyp domain >> (m >> put_port port))
      (write_string_too_long name h)

put-nil : put [] ≡ pure tt
unfolding write_all transmit
put-nil = fun_ext λ s. ground (arith, append-nil s.sent, append-nil s.pending)

write_each-eq : (ms : List AuthMethod) → write_each ms ≡ put (map AuthMethod.to_u8 ms)
unfolding write_each
write_each-eq [] = sym put-nil
write_each-eq (m ∷ ms) =
    ap (λ (k : ClientWriter). write_method m >> k) (write_each-eq ms)
    ∙ fun_ext (put-put (AuthMethod.to_u8 m ∷ []) _)

-- The selection message is the handshake request of the same methods, flushed.
pub write_selection_msg-eq :
    (ms : List AuthMethod)
    → write_selection_msg ms
      ≡ (put (HandshakeRequest.write_to_buf (HandshakeRequest.new ms) []) >> as_error flush)
unfolding write_selection_msg HandshakeRequest.write_to_buf Version.to_u8
write_selection_msg-eq ms =
    ap
      (λ (k : ClientWriter).
        put_byte 0x05 >> ((put_byte (as_u8 (length ms)) >> k) >> as_error flush))
      (write_each-eq ms)
    ∙ fun_ext λ s.
      let each : List ℕ = map AuthMethod.to_u8 ms in
      ap (λ (k : ClientWriter). (put_byte 0x05 >> (k >> as_error flush)) s)
        (fun_ext (put-put (as_u8 (length ms) ∷ []) each))
      ∙ put-then (0x05 ∷ []) (as_u8 (length ms) ∷ each) (as_error flush) s

-- The final message is the request of the same command and address, flushed.
pub write_final-eq :
    (command : Command) (addr : Address)
    → IsWritable addr
    → write_final command addr
      ≡ (put (Request.write_to_buf (Request.new command addr) []) >> as_error flush)
unfolding write_final write_command write_reserved Request.write_to_buf Version.to_u8
write_final-eq command addr w =
    let c : ℕ = Command.to_u8 command in
    let bytes : List ℕ = Address.write_to_buf addr [] in
    fun_ext λ s.
      ap
        (λ (k : ClientWriter).
          (put_byte 0x05 >> (put_byte c >> (put_byte 0x00 >> (k >> as_error flush)))) s)
        (write_address-eq addr w)
      ∙ put-then (0x05 ∷ []) (c ∷ []) (put_byte 0x00 >> (put bytes >> as_error flush)) s
      ∙ put-then (0x05 ∷ c ∷ []) (0x00 ∷ []) (put bytes >> as_error flush) s
      ∙ put-then (0x05 ∷ c ∷ 0x00 ∷ []) bytes (as_error flush) s
      ∙ ap (λ (bs : List ℕ). (put bs >> as_error flush) s)
          (sym (write_to_buf-append addr (0x05 ∷ c ∷ 0x00 ∷ [])))

-- The version and the two strings of at most 255 bytes each are written as the request of the
-- sub-negotiation, whatever is written after them.
pub write_credentials-eq :
    (key : UserKey) (k : ClientWriter)
    → IsWritableKey key
    → (write_auth_version >> (write_string key.username >> (write_string key.password >> k)))
      ≡ (put (PasswordRequest.write_to_buf (PasswordRequest.new key.username key.password) []) >> k)
unfolding write_auth_version PasswordRequest.write_to_buf
write_credentials-eq key k w =
    let name : List ℕ = key.username in
    let pass : List ℕ = key.password in
    let n : ℕ = as_u8 (length name) in
    let p : ℕ = as_u8 (length pass) in
    fun_ext λ s.
      ap (λ (m : ClientWriter). (put_byte 0x01 >> (m >> (write_string pass >> k))) s)
        (write_string-eq name w.0)
      ∙ ap (λ (m : ClientWriter). (put_byte 0x01 >> (put (n ∷ name) >> (m >> k))) s)
          (write_string-eq pass w.1)
      ∙ put-then (0x01 ∷ []) (n ∷ name) (put (p ∷ pass) >> k) s
      ∙ put-then (0x01 ∷ n ∷ name) (p ∷ pass) k s
      ∙ ap (λ (bs : List ℕ). (put (0x01 ∷ n ∷ bs) >> k) s) (sym (append_assoc name (p ∷ []) pass))
