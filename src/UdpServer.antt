-- ===== src/UdpServer.antt =====
-- `UDPServer` and `UDPMulticastReceiver` of include/networking/UDPServer.hpp.
pub mod Receive
pub mod Run
use trading_matcher.Base.{
  ℕ, zero, suc, ◌+◌, ℤ, pos, negsuc, ltb_ℤ, leb_ℤ, eqb_ℤ, Bool, true, false, ◌&&◌, not, List, [],
  ◌∷◌, ◌++◌, ◌==◌, if◌then◌else◌, length,
}
use trading_matcher.Network.{SocketOption, Call, Errno, Reply, Os, is_again, failed, did}

pub record UdpServer : Type 0 where
  pub port : ℕ
  pub socket_fd : ℤ
  pub busy_poll : Bool

abbrev pub new_server : ℕ → Bool → UdpServer
new_server port busy_poll = record { port = port; socket_fd = negsuc 0; busy_poll = busy_poll }

-- `UDPMulticastReceiver(…)`, whose state has the same fields and the names of the group.
abbrev pub new_receiver : ℕ → Bool → UdpServer
new_receiver port busy_poll = record { port = port; socket_fd = negsuc 0; busy_poll = busy_poll }

-- `~UDPServer()`
unfoldable pub destroy : UdpServer → List Call → List Call
destroy server calls =
    if not (failed server.socket_fd) then did calls (Call.close server.socket_fd) else calls

-- `~UDPMulticastReceiver()`
unfoldable pub destroy_receiver : UdpServer → List Call → List Call
destroy_receiver receiver calls =
    if leb_ℤ (pos 0) receiver.socket_fd then did calls (Call.close receiver.socket_fd) else calls

-- `UDPMulticastReceiver::getFd`
abbrev pub get_receiver_fd : UdpServer → ℤ
get_receiver_fd receiver = receiver.socket_fd

-- `UDPServer::getFd`
abbrev pub get_fd : UdpServer → ℤ
get_fd server = server.socket_fd

-- The part of `start` from the descriptor flags to SO_BUSY_POLL.
abbrev pub tune : Os → ℤ → Bool → List Call → List Call
tune os fd busy calls =
    let flags = (os calls (Call.get_flags fd)).value in
    let calls1 = did (did calls (Call.get_flags fd)) (Call.set_nonblocking fd flags) in
    let calls2 =
      did (did calls1 (Call.setsockopt fd SocketOption.reuse_addr 1))
        (Call.setsockopt fd SocketOption.reuse_port 1) in
    if busy then did calls2 (Call.setsockopt fd SocketOption.busy_poll 50) else calls2

-- `UDPServer::start`
unfoldable pub start : Os → UdpServer → List Call → UdpServer × List Call × Bool
start os server calls =
    let fd = (os calls Call.datagram_socket).value in
    let opened = record server { socket_fd = fd } in
    let calls1 = did calls Call.datagram_socket in
    if failed fd
    then (opened, calls1, false)
    else (let calls2 =
          did (tune os fd server.busy_poll calls1)
            (Call.setsockopt fd SocketOption.receive_buffer 1_048_576) in
        (
          opened,
          did calls2 (Call.bind fd server.port),
          not (failed (os calls2 (Call.bind fd server.port)).value),
        ))

-- `UDPMulticastReceiver::start`; the group and the interface are those of IP_ADD_MEMBERSHIP.
unfoldable pub start_multicast : Os → UdpServer → List Call → UdpServer × List Call × Bool
start_multicast os server calls =
    let fd = (os calls Call.datagram_socket).value in
    let opened = record server { socket_fd = fd } in
    let calls1 = did calls Call.datagram_socket in
    if failed fd
    then (opened, calls1, false)
    else (let calls2 = tune os fd server.busy_poll calls1 in
        let calls3 = did calls2 (Call.bind fd server.port) in
        if failed (os calls2 (Call.bind fd server.port)).value
        then (opened, calls3, false)
        else (let join = Call.setsockopt fd SocketOption.add_membership 0 in
            (opened, did calls3 join, not (failed (os calls3 join).value))))

-- The loop of `receiveMessages` with `left` rounds to go; `ask` is its system call and `deliver` the
-- call of its handler.
unfoldable pub receive_loop : ℕ → Os → Call → (Reply → Call) → List Call → ℕ → List Call × ℕ
receive_loop zero os ask deliver calls received = (calls, received)
receive_loop (suc left) os ask deliver calls received =
    let reply = os calls ask in
    let asked = did calls ask in
    elim (failed reply.value) [
      | true ↦ elim (is_again reply.errno) [
        | true ↦ (asked, received)
        | false ↦ receive_loop left os ask deliver asked received
      ]
      | false ↦ receive_loop left os ask deliver (did asked (deliver reply)) (received + 1)
    ]

-- `UDPServer::receiveMessages`
unfoldable pub receive_messages : ℕ → Os → UdpServer → List Call → List Call × ℕ
receive_messages max_messages os server calls =
    receive_loop max_messages os (Call.recvfrom server.socket_fd 65536)
      (λ reply. Call.datagram_handler reply.bytes reply.value reply.from) calls 0

-- `UDPMulticastReceiver::receiveMessages`
unfoldable pub receive_feed : ℕ → Os → UdpServer → List Call → List Call × ℕ
receive_feed max_messages os server calls =
    receive_loop max_messages os (Call.recv server.socket_fd 65536)
      (λ reply. Call.feed_handler reply.bytes reply.value) calls 0

-- What `run` does between two calls of `receiveMessages`.
unfoldable pub wait : UdpServer → ℕ → List Call → List Call
wait server received calls =
    if server.busy_poll && (received == 0)
    then did (did calls (Call.poll server.socket_fd)) Call.pause
    else (if received == 0 then did calls (Call.usleep 1) else calls)

-- `rounds` rounds of the endless loop of `UDPServer::run`.
unfoldable pub run : ℕ → Os → UdpServer → List Call → List Call
run zero os server calls = calls
run (suc rounds) os server calls =
    let (calls', received) = receive_messages 64 os server calls in
    run rounds os server (wait server received calls')

-- The same for `UDPMulticastReceiver::run`.
unfoldable pub run_feed : ℕ → Os → UdpServer → List Call → List Call
run_feed zero os server calls = calls
run_feed (suc rounds) os server calls =
    let (calls', received) = receive_feed 64 os server calls in
    run_feed rounds os server (wait server received calls')

-- `sendTo`
unfoldable pub send_to : Os → UdpServer → List ℕ → ℕ → List Call → List Call × Bool
send_to os server bytes to calls =
    let send = Call.sendto server.socket_fd bytes to in
    (did calls send, eqb_ℤ (os calls send).value (pos (length bytes)))
