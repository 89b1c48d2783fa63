-- ===== src/Example/Main/Stopping.antt =====
-- examples/s5-server.rs: the options of `main`, and the handler of Ctrl-C.
use mathlib.Core.Bool.{◌||◌}
use socks5_impl.Prelude.{
  ℕ, ◌≡◌, refl, ap, ◌∙◌, Bool, true, false, if◌then◌else◌, List, [], ◌∷◌, ◌++◌, map, append-nil,
  Option, none, some, inl, inr, ◌⊎◌, Bool-cases,
}
use socks5_impl.Error.{IoError}
use socks5_impl.Net.{SocketAddr, v4, v6_from, is_ipv4, port_of}
use socks5_impl.Stream.{Result, ok}
use socks5_impl.Server.Auth.{AuthExecutor}
use socks5_impl.Server.Listen.{Tcp, Server, accept, bind}
use socks5_impl.Example.Handle.{Os}
use socks5_impl.Example.Main.{Turn, Run, spawning, serving, main_loop, main}
use socks5_impl.Example.Main.Laws.{Client, turn_of, task_of, main_loop_serves, bind-auth}

pub data ArgVerbosity : Type 0 where
  off error warn info debug trace : ArgVerbosity

pub record CmdOpt : Type 0 where
  pub listen_addr : SocketAddr
  pub username : Option (List ℕ)
  pub password : Option (List ℕ)
  pub verbosity : ArgVerbosity

-- The address that the handler connects to, so that a call of `accept` returns.
unfoldable pub wake_addr : SocketAddr → SocketAddr
wake_addr local_addr =
    if is_ipv4 local_addr
    then v4 (127 ∷ 0 ∷ 0 ∷ 1 ∷ []) (port_of local_addr)
    else v6_from (0 ∷ 0 ∷ 0 ∷ 0 ∷ 0 ∷ 0 ∷ 0 ∷ 0 ∷ 0 ∷ 0 ∷ 0 ∷ 0 ∷ 0 ∷ 0 ∷ 0 ∷ 1 ∷ [])
        (port_of local_addr)

module _ {S L : Type 0} (os : Os) (tcp : Tcp S L) where
  unfoldable pub main_with : CmdOpt → List Turn → Run
  main_with opt turns = main os tcp opt.username opt.password opt.listen_addr turns

  -- What happens to the server while it runs. A client stands where the flag is looked at for it.
  pub data Happening : Type 0 where
    connects : Client os tcp → Happening
    ctrl_c : Happening

  abbrev pub turn_when : Bool → Client os tcp → Turn
  turn_when flag c = record {
    accepted = ok (c.stream, c.addr);
    exiting = flag;
    associate = c.associate;
  }

  -- The turns of the accept loop. The handler stores the flag and makes a connection, `wake`, which is
  -- accepted if it reaches the listener; whether it does is `reaches`, of the two addresses.
  module _ (reaches : SocketAddr → SocketAddr → Bool) (listen_addr : SocketAddr)
      (wake : Client os tcp) where
    abbrev pub woken : List Turn → List Turn
    woken later =
        if reaches listen_addr (wake_addr listen_addr) then turn_when true wake ∷ later else later

    unfoldable pub turns : Bool → List Happening → List Turn
    turns flag [] = []
    turns flag (connects c ∷ later) = turn_when flag c ∷ turns flag later
    turns flag (ctrl_c ∷ later) = woken (turns true later)

    turns-append :
        (cs : List (Client os tcp)) (later : List Happening)
        → turns false (map connects cs ++ later) ≡ map (turn_of os tcp) cs ++ turns false later
    unfolding turns
    turns-append [] later = refl
    turns-append (c ∷ cs) later =
        ap (λ (ts : List Turn). turn_of os tcp c ∷ ts) (turns-append cs later)

    abbrev pub connects_later : List (Client os tcp) → Bool
    connects_later [] = false
    connects_later (d ∷ ds) = true

    module _ {O : Type 0} (downcast : O → Option (Result IoError Bool)) where
      serving-waits :
          (cs : List (Client os tcp)) (server : Server L O)
          → serving os tcp downcast true server (map (turn_of os tcp) cs)
            ≡ (none, map (task_of os tcp downcast server.auth) cs)
      unfolding serving accept
      serving-waits [] server = refl
      serving-waits (c ∷ cs) server =
          ap (spawning (task_of os tcp downcast server.auth c)) (serving-waits cs server)

      -- Once the listener is bound: the clients for which the flag is looked at before Ctrl-C are served, each by a task and in
      -- their order, and none of those after it. The server returns with success if the handler's own
      -- connection reaches its listener or another client connects; if neither does, it keeps
      -- waiting.
      pub ctrl_c_stops :
          (cs ds : List (Client os tcp)) (auth : AuthExecutor O) (server : Server L O)
          → bind tcp listen_addr auth ≡ ok server
          → main_loop os tcp downcast true auth listen_addr
              (turns false (map connects cs ++ (ctrl_c ∷ map connects ds)))
            ≡ (
              if reaches listen_addr (wake_addr listen_addr) || connects_later ds
                  then some (ok tt)
                  else none,
              map (task_of os tcp downcast auth) cs,
            )
      unfolding turns main_loop
      ctrl_c_stops cs ds auth server bound =
          ap (main_loop os tcp downcast true auth listen_addr)
            (turns-append cs (ctrl_c ∷ map connects ds))
          ∙ after (Bool-cases (reaches listen_addr (wake_addr listen_addr))) ds
        where
          Ends : List (Client os tcp) → Type 0
          Ends ds =
              main_loop os tcp downcast true auth listen_addr
                (map (turn_of os tcp) cs ++ turns false (ctrl_c ∷ map connects ds))
              ≡ (
                if reaches listen_addr (wake_addr listen_addr) || connects_later ds
                    then some (ok tt)
                    else none,
                map (task_of os tcp downcast auth) cs,
              )

          ends :
              (t : Turn) (later : List Turn)
              → t.exiting ≡ true
              → main_loop os tcp downcast true auth listen_addr
                  (map (turn_of os tcp) cs ++ (t ∷ later))
                ≡ (some (ok tt), map (task_of os tcp downcast auth) cs)
          ends t later flag =
              main_loop_serves os tcp downcast cs t later auth listen_addr server (inr flag) bound

          after :
              (reaches listen_addr (wake_addr listen_addr) ≡ true)
                ⊎ (reaches listen_addr (wake_addr listen_addr) ≡ false)
              → (ds : List (Client os tcp)) → Ends ds
          after (inl there) ds = rw there (ends (turn_when true wake) _ refl)
          after (inr elsewhere) [] =
              rw (elsewhere, append-nil, bound)
                (serving-waits cs server ∙ rw (bind-auth tcp listen_addr auth server bound))
          after (inr elsewhere) (d ∷ ds) = rw elsewhere (ends (turn_when true d) _ refl)
