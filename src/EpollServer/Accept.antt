-- ===== src/EpollServer/Accept.antt =====
-- The loop of `handleNewConnection`.
use trading_matcher.Base.{
  ℕ, zero, suc, ◌≡◌, refl, ap, ◌∙◌, ℤ, true, false, none, List, [], ◌∷◌, ◌++◌,
}
use trading_matcher.Network.{SocketOption, Call, Os, failed, is_again, did}
use trading_matcher.EpollServer.{EpollServer, accept_one, handle_new_connection}

-- What is called for one new connection, and for several.
abbrev pub registered : EpollServer → ℤ → List Call
registered server fd =
    Call.accept4 server.listen_fd
    ∷ Call.setsockopt fd SocketOption.no_delay 1
    ∷ Call.epoll_add server.epoll_fd fd
    ∷ []

abbrev pub all_registered : EpollServer → List ℤ → List Call
all_registered server [] = []
all_registered server (fd ∷ fds) = registered server fd ++ all_registered server fds

-- `accept4` answers with the descriptors `fds`, then with EAGAIN.
abbrev pub Waiting : Os → EpollServer → List ℤ → List Call → Type 0
Waiting os server [] calls =
    let reply = os calls (Call.accept4 server.listen_fd) in
    (failed reply.value ≡ true) × (is_again reply.errno ≡ true)
Waiting os server (fd ∷ fds) calls =
    ((os calls (Call.accept4 server.listen_fd)).value ≡ fd)
    × (failed fd ≡ false)
    × Waiting os server fds (calls ++ registered server fd)

module _ (os : Os) (server : EpollServer) (calls : List Call) where
  abbrev asked : Call
  asked = Call.accept4 server.listen_fd

  accept_one-error :
      failed (os calls asked).value ≡ true
      → is_again (os calls asked).errno ≡ false
      → accept_one os server calls ≡ (did calls asked, true)
  unfolding accept_one
  accept_one-error f a = rw (f, a)

-- A round of the loop that goes on, and one that ends it.
loop-more :
    (fuel : ℕ) (os : Os) (server : EpollServer) (calls calls' : List Call)
    → accept_one os server calls ≡ (calls', true)
    → handle_new_connection (suc fuel) os server calls ≡ handle_new_connection fuel os server calls'
unfolding handle_new_connection
loop-more fuel os server calls calls' e =
    rw (ap (λ p. p.1) e, handle_new_connection)
      (ap (λ p. handle_new_connection fuel os server p.0) e)

-- If `accept4` fails each time with an error other than EAGAIN, no number of rounds is enough.
pub handle_new_connection-spins :
    (fuel : ℕ) (os : Os) (server : EpollServer) (calls : List Call)
    → ((before : List Call)
        → let reply = os before (Call.accept4 server.listen_fd) in
          (failed reply.value ≡ true) × (is_again reply.errno ≡ false))
    → handle_new_connection fuel os server calls ≡ none
unfolding handle_new_connection
handle_new_connection-spins zero os server calls e = refl
handle_new_connection-spins (suc fuel) os server calls e =
    loop-more fuel os server calls _ (accept_one-error os server calls (e calls).0 (e calls).1)
    ∙ handle_new_connection-spins fuel os server (did calls (Call.accept4 server.listen_fd)) e
