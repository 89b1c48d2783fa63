-- ===== src/Client/Init/Laws.antt =====
-- src/client/mod.rs: `init` as a whole, on what a server answers.
use socks5_impl.Prelude.{
  ℕ, ◌+◌, ◌≡◌, ◌≢◌, refl, ◌∙◌, List, [], ◌∷◌, ◌++◌, length, arith, Option, some, none,
}
use socks5_impl.Error.{Error, invalid_auth_method, invalid_auth_status}
use socks5_impl.Stream.{Result, ok, err, Act, ◌>>=◌, ◌>>◌, as_error, flush, Conn, receive, emit}
use socks5_impl.Stream.Laws.{then-ok, bind-ok, then-err, bind-err}
use socks5_impl.Stream.Delivery.{IsReady}
use socks5_impl.Protocol.Command.{Command}
use socks5_impl.Protocol.Reply.{succeeded}
use socks5_impl.Protocol.Address.{Address, IsAddress, IsWritable}
use socks5_impl.Protocol.Version
use socks5_impl.Protocol.Request
use socks5_impl.Protocol.Response
use socks5_impl.Protocol.Handshake.AuthMethod
use socks5_impl.Protocol.Handshake.AuthMethod.{AuthMethod, IsCanonical, no_auth, user_pass}
use socks5_impl.Protocol.Handshake.Request as HandshakeRequest
use socks5_impl.Protocol.Password.UserKey.{UserKey, IsWritableKey}
use socks5_impl.Client.Reader.{accept_method, read_selection_msg, read_final}
use socks5_impl.Client.Reader.Laws.{read_selection_msg-eq, read_final-succeeded}
use socks5_impl.Client.Writer.{write_selection_msg, write_final}
use socks5_impl.Client.Init.{offered, comply, init}
use socks5_impl.Client.Init.Steps.{
  told, credentials, emit_selection, emit-flush, emit_final, username_password_auth-eq,
  status_passed, status_failed,
}

-- The three messages of the client.
abbrev pub hello : Option UserKey → List ℕ
hello auth = HandshakeRequest.write_to_buf (HandshakeRequest.new (offered auth)) []

abbrev pub ask : Command → Address → List ℕ
ask command addr = Request.write_to_buf (Request.new command addr) []

-- The two messages of the server that a client without a password meets.
abbrev pub chosen : AuthMethod → List ℕ
chosen m = 0x05 ∷ AuthMethod.to_u8 m ∷ []

abbrev pub answer : Address → List ℕ
answer bound = Response.write_to_buf (Response.new succeeded bound) []

-- What is left to do once the method is chosen.
abbrev finish : Command → Address → Act Conn Error Address
finish command addr = emit (write_final command addr) >> receive read_final

reads_choice :
    (m : AuthMethod) (rest : List ℕ) (c : Conn) (r : Result Error AuthMethod)
    → IsCanonical m
    → accept_method m rest ≡ (r, rest)
    → c.input ≡ chosen m ++ rest
    → receive read_selection_msg c ≡ (r, record c { input = rest })
reads_choice m rest c r h a e = rw (e, read_selection_msg-eq m rest h, a)

-- The offer goes out, and the choice of the server is read.
init_begins :
    (command : Command) (addr : Address) (auth : Option UserKey) (c : Conn)
    → IsReady (length (hello auth)) c.out
    → init command addr auth c
      ≡ (receive read_selection_msg >>= λ method. comply method auth >> finish command addr)
          (told (hello auth) c)
unfolding init offered
init_begins command addr auth c h =
    then-ok (emit (write_selection_msg (offered auth))) _ c (emit_selection (offered auth) c h)
    ∙ then-ok (emit (as_error flush)) _ _ (emit-flush _ h.0)

-- The request goes out, and the bound address is read.
finish-ok :
    (command : Command) (addr bound : Address) (rest : List ℕ) (c : Conn)
    → IsWritable addr
    → IsAddress bound
    → IsWritable bound
    → c.input ≡ answer bound ++ rest
    → IsReady (length (ask command addr)) c.out
    → finish command addr c ≡ (ok bound, told (ask command addr) (record c { input = rest }))
finish-ok command addr bound rest c w b wb e h =
    then-ok (emit (write_final command addr)) _ c (emit_final command addr c w h)
    ∙ rw (e, read_final-succeeded bound rest b wb)

-- With a server that chooses no authentication and grants the command, on a stream that takes the
-- two messages, the client sends its offer and its request, in this order and nothing else, returns
-- the address that the server bound, and leaves what follows unread.
pub init_no_auth :
    (command : Command) (addr bound : Address) (auth : Option UserKey) (rest : List ℕ) (c : Conn)
    → IsWritable addr
    → IsAddress bound
    → IsWritable bound
    → c.input ≡ chosen no_auth ++ (answer bound ++ rest)
    → IsReady (length (hello auth) + length (ask command addr)) c.out
    → init command addr auth c
      ≡ (ok bound, told (ask command addr) (told (hello auth) (record c { input = rest })))
unfolding accept_method comply
init_no_auth command addr bound auth rest c w b wb e (p, room) =
    init_begins command addr auth c (p, omega arith)
    ∙ bind-ok (receive read_selection_msg) _ _
        (reads_choice no_auth (answer bound ++ rest) _ (ok no_auth) tt refl e)
    ∙ finish-ok command addr bound rest _ w b wb refl (p, omega arith)

-- With a server that chooses the password method, accepts the credentials and grants the command,
-- on a stream that takes the three messages, the client sends its offer, its credentials and its
-- request, in this order and nothing else, returns the address that the server bound, and leaves
-- what follows unread.
pub init_user_pass :
    (command : Command) (addr bound : Address) (key : UserKey) (rest : List ℕ) (c : Conn)
    → IsWritable addr
    → IsWritableKey key
    → IsAddress bound
    → IsWritable bound
    → c.input ≡ chosen user_pass ++ (0x01 ∷ 0x00 ∷ (answer bound ++ rest))
    → IsReady
        (length (hello (some key)) + length (credentials key) + length (ask command addr))
        c.out
    → init command addr (some key) c ≡ (
      ok bound,
      told
          (ask command addr)
          (told (credentials key) (told (hello (some key)) (record c { input = rest }))),
    )
unfolding accept_method comply
init_user_pass command addr bound key rest c w k b wb e (p, room) =
    init_begins command addr (some key) c (p, omega arith)
    ∙ bind-ok (receive read_selection_msg) _ _ (reads_choice user_pass _ _ (ok user_pass) tt refl e)
    ∙ then-ok (comply user_pass (some key)) _ _
        (username_password_auth-eq key _ k (p, omega arith) ∙ status_passed _ _ refl)
    ∙ finish-ok command addr bound rest _ w b wb refl (p, omega arith)

-- With a server that chooses the password method and refuses the credentials, on a stream that
-- takes the two messages, the client fails with the status, and its request has not been sent.
pub init_refused :
    (command : Command) (addr : Address) (key : UserKey) (rest : List ℕ) (c : Conn)
    → IsWritableKey key
    → c.input ≡ chosen user_pass ++ (0x01 ∷ 0xff ∷ rest)
    → IsReady (length (hello (some key)) + length (credentials key)) c.out
    → init command addr (some key) c ≡ (
      err (invalid_auth_status 0xff),
      told (credentials key) (told (hello (some key)) (record c { input = rest })),
    )
unfolding accept_method comply
init_refused command addr key rest c k e (p, room) =
    init_begins command addr (some key) c (p, omega arith)
    ∙ bind-ok (receive read_selection_msg) _ _ (reads_choice user_pass _ _ (ok user_pass) tt refl e)
    ∙ then-err (comply user_pass (some key)) _ _
        (username_password_auth-eq key _ k (p, omega arith) ∙ status_failed _ _ refl)

not_offered :
    (command : Command) (addr : Address) (m : AuthMethod) (rest : List ℕ) (c : Conn)
    → IsCanonical m
    → m ≢ no_auth
    → c.input ≡ chosen m ++ rest
    → (receive read_selection_msg >>= λ method. comply method none >> finish command addr) c
      ≡ (err (invalid_auth_method (AuthMethod.to_u8 m)), record c { input = rest })
unfolding accept_method comply
not_offered command addr no_auth rest c h n e = absurd (n refl)
not_offered command addr user_pass rest c h n e =
    bind-ok (receive read_selection_msg) _ c (reads_choice user_pass rest c (ok user_pass) h refl e)
not_offered command addr m rest c h n e =
    bind-err (receive read_selection_msg) _ c
      (reads_choice m rest c (err (invalid_auth_method (AuthMethod.to_u8 m))) h refl e)

-- A client without credentials, on a stream that takes three bytes, offers no authentication alone: it
-- sends the bytes 5, 1 and 0. Of any other method that a server answers with, the one that no method
-- is acceptable included, it makes an error with the byte of that method, sends nothing more, and
-- leaves what follows unread.
pub init_not_offered :
    (command : Command) (addr : Address) (m : AuthMethod) (rest : List ℕ) (c : Conn)
    → IsCanonical m
    → m ≢ no_auth
    → c.input ≡ 0x05 ∷ AuthMethod.to_u8 m ∷ rest
    → IsReady 3 c.out
    → init command addr none c ≡ (
      err (invalid_auth_method (AuthMethod.to_u8 m)),
      told (0x05 ∷ 0x01 ∷ 0x00 ∷ []) (record c { input = rest }),
    )
unfolding HandshakeRequest.write_to_buf offered Version.to_u8 AuthMethod.to_u8
init_not_offered command addr m rest c h n e r =
    init_begins command addr none c r ∙ not_offered command addr m rest _ h n e
