-- ===== src/EpollServer.antt =====
-- `EpollServer` of include/networking/EpollServer.hpp.
pub mod Setup
pub mod Accept
pub mod Events
pub mod Table
pub mod Watched
use trading_matcher.Base.{
  ℕ, zero, suc, ℤ, pos, negsuc, ltb_ℤ, leb_ℤ, eqb_ℤ, Bool, true, false, not, ◌||◌, Option, none,
  some, List, [], ◌∷◌, ◌++◌, if◌then◌else◌,
}
use trading_matcher.Network.{
  SocketOption, Call, Errno, Reply, Os, is_again, failed, is_interrupted, did,
}

pub record EpollServer : Type 0 where
  pub port : ℕ
  pub epoll_fd : ℤ
  pub listen_fd : ℤ

-- `EpollServer(port, handler)`; the calls of the handler are among the `Call`s.
abbrev pub new_server : ℕ → EpollServer
new_server port = record { port = port; epoll_fd = negsuc 0; listen_fd = negsuc 0 }

-- `~EpollServer()`
unfoldable pub destroy : EpollServer → List Call → List Call
destroy server calls =
    let calls1 =
      if not (failed server.epoll_fd) then did calls (Call.close server.epoll_fd) else calls in
    if not (failed server.listen_fd) then did calls1 (Call.close server.listen_fd) else calls1

-- The options of the listening socket.
abbrev pub tune : ℤ → List Call → List Call
tune fd calls =
    did
      (did (did calls (Call.setsockopt fd SocketOption.reuse_addr 1))
        (Call.setsockopt fd SocketOption.reuse_port 1))
      (Call.setsockopt fd SocketOption.no_delay 1)

unfoldable pub start : Os → EpollServer → List Call → EpollServer × List Call × Bool
start os server calls =
    let epoll = (os calls Call.epoll_create1).value in
    let created = record server { epoll_fd = epoll } in
    let calls1 = did calls Call.epoll_create1 in
    if failed epoll
    then (created, calls1, false)
    else (let fd = (os calls1 Call.stream_socket).value in
        let opened = record created { listen_fd = fd } in
        let calls2 = did calls1 Call.stream_socket in
        if failed fd
        then (opened, calls2, false)
        else (let calls3 = tune fd calls2 in
            let calls4 = did calls3 (Call.bind fd server.port) in
            if failed (os calls3 (Call.bind fd server.port)).value
            then (opened, calls4, false)
            else (let calls5 = did calls4 (Call.listen fd) in
                if failed (os calls4 (Call.listen fd)).value
                then (opened, calls5, false)
                else (opened, did calls5 (Call.epoll_add epoll fd), true))))

-- One round of the loop of `handleNewConnection`; the result is whether the loop goes on.
unfoldable pub accept_one : Os → EpollServer → List Call → List Call × Bool
accept_one os server calls =
    let reply = os calls (Call.accept4 server.listen_fd) in
    let asked = did calls (Call.accept4 server.listen_fd) in
    if failed reply.value then (asked, not (is_again reply.errno)) else (
      did (did asked (Call.setsockopt reply.value SocketOption.no_delay 1))
          (Call.epoll_add server.epoll_fd reply.value),
      true,
    )

-- `handleNewConnection` with `fuel` rounds of its loop; `none` if they do not suffice.
unfoldable pub handle_new_connection : ℕ → Os → EpollServer → List Call → Option (List Call)
handle_new_connection zero os server calls = none
handle_new_connection (suc fuel) os server calls =
    let (calls', more) = accept_one os server calls in
    elim more [ true ↦ handle_new_connection fuel os server calls' | false ↦ some calls' ]

unfoldable pub handle_client_data : Os → EpollServer → ℤ → List Call → List Call
handle_client_data os server fd calls =
    let reply = os calls (Call.read fd 4095) in
    let asked = did calls (Call.read fd 4095) in
    if leb_ℤ reply.value (pos 0)
    then (if eqb_ℤ reply.value (pos 0) || not (is_again reply.errno)
        then did (did asked (Call.epoll_del server.epoll_fd fd)) (Call.close fd)
        else asked)
    else did asked (Call.handler fd reply.bytes reply.value)

-- The events of one `epoll_wait`.
unfoldable pub handle_events : ℕ → Os → EpollServer → List ℤ → List Call → Option (List Call)
handle_events fuel os server [] calls = some calls
handle_events fuel os server (fd ∷ fds) calls = elim (eqb_ℤ fd server.listen_fd) [
  | true ↦ elim (handle_new_connection fuel os server calls) [
    | none ↦ none
    | some calls' ↦ handle_events fuel os server fds calls'
  ]
  | false ↦ handle_events fuel os server fds (handle_client_data os server fd calls)
]

-- `processEvents`
unfoldable pub process_events : ℕ → Os → EpollServer → ℤ → List Call → Option (List Call)
process_events fuel os server timeout_ms calls =
    let reply = os calls (Call.epoll_wait server.epoll_fd timeout_ms) in
    let asked = did calls (Call.epoll_wait server.epoll_fd timeout_ms) in
    if failed reply.value then some asked else handle_events fuel os server reply.ready asked

-- One round of the loop of `run`; the result is whether the loop goes on.
unfoldable pub run_round : ℕ → Os → EpollServer → List Call → Option (List Call × Bool)
run_round fuel os server calls =
    let reply = os calls (Call.epoll_wait server.epoll_fd (negsuc 0)) in
    let asked = did calls (Call.epoll_wait server.epoll_fd (negsuc 0)) in
    if failed reply.value
    then some (asked, is_interrupted reply.errno)
    else (elim (handle_events fuel os server reply.ready asked) [
      | none ↦ none
      | some calls' ↦ some (calls', true)
    ])

-- `run`, seen for so many rounds; the result is whether its loop still goes on.
unfoldable pub run : ℕ → ℕ → Os → EpollServer → List Call → Option (List Call × Bool)
run zero fuel os server calls = some (calls, true)
run (suc rounds) fuel os server calls = elim (run_round fuel os server calls) [
  | none ↦ none
  | some (calls', more) ↦ elim more [
    | true ↦ run rounds fuel os server calls'
    | false ↦ some (calls', false)
  ]
]
