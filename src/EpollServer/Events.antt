-- ===== src/EpollServer/Events.antt =====
-- The events of one `epoll_wait`.
use trading_matcher.Base.{ℕ, ◌≡◌, refl, ℤ, eqb_ℤ, false, some, List, [], ◌∷◌}
use trading_matcher.Network.{Call, Os, failed, did}
use trading_matcher.EpollServer.{EpollServer, handle_client_data, handle_events, process_events}

-- None of the descriptors is the listening one.
abbrev pub AllClients : EpollServer → List ℤ → Type 0
AllClients server [] = Unit
AllClients server (fd ∷ fds) = (eqb_ℤ fd server.listen_fd ≡ false) × AllClients server fds

-- The clients' data, read in the order of the events.
abbrev pub serve : Os → EpollServer → List ℤ → List Call → List Call
serve os server [] calls = calls
serve os server (fd ∷ fds) calls = serve os server fds (handle_client_data os server fd calls)

handle_events-clients :
    (fuel : ℕ) (os : Os) (server : EpollServer) (fds : List ℤ) (calls : List Call)
    → AllClients server fds
    → handle_events fuel os server fds calls ≡ some (serve os server fds calls)
unfolding handle_events
handle_events-clients fuel os server [] calls a = refl
handle_events-clients fuel os server (fd ∷ fds) calls a =
    rw (a.0, handle_events)
      (handle_events-clients fuel os server fds (handle_client_data os server fd calls) a.1)

-- When `epoll_wait` does not fail and has events of clients only, `processEvents` deals with the data
-- of each, in the order of the events, and needs no fuel.
pub process_events-serves :
    (fuel : ℕ) (os : Os) (server : EpollServer) (timeout_ms : ℤ) (calls : List Call)
    → failed (os calls (Call.epoll_wait server.epoll_fd timeout_ms)).value ≡ false
    → AllClients server (os calls (Call.epoll_wait server.epoll_fd timeout_ms)).ready
    → process_events fuel os server timeout_ms calls
      ≡ some (
          serve os server
            (os calls (Call.epoll_wait server.epoll_fd timeout_ms)).ready
            (did calls (Call.epoll_wait server.epoll_fd timeout_ms)))
unfolding process_events
process_events-serves fuel os server timeout_ms calls f a =
    let wait = Call.epoll_wait server.epoll_fd timeout_ms in
    rw (f, process_events)
      (handle_events-clients fuel os server (os calls wait).ready (did calls wait) a)
