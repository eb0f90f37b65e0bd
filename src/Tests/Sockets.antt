-- ===== src/Tests/Sockets.antt =====
-- A system whose calls answer by what was called before, under the two kinds of server.
use trading_matcher.Base.{◌≡◌, refl, ℤ, pos, negsuc, true, none, some, List, [], ◌∷◌, ◌++◌, arith}
use trading_matcher.Network.{SocketOption, Call, Errno, Reply, Os, did}
use trading_matcher.EpollServer.{
  EpollServer, handle_new_connection, handle_client_data, handle_events, accept_one, run_round, run,
}
use trading_matcher.EpollServer.Accept.{handle_new_connection-spins}
use trading_matcher.EpollServer.Table.{replay, IsBalanced, no_clients}
use trading_matcher.EpollServer.Watched.{run-IsBalanced}
use trading_matcher.UdpServer.{UdpServer, receive_messages}
use trading_matcher.UdpServer.Receive.{all_taken, delivery, receive_messages-drains}

abbrev answer : ℤ → Errno → Reply
answer value errno = record {
  value = value;
  errno = errno;
  bytes = 7 ∷ 8 ∷ [];
  from = 1;
  ready = [];
}

-- A connection or a datagram first, and nothing after it.
abbrev pub once : Os
once [] call = answer (pos 2) Errno.other
once (c ∷ cs) call = answer (negsuc 0) Errno.again

-- A process without free descriptors.
abbrev exhausted : Os
exhausted calls call = answer (negsuc 0) Errno.other

abbrev pub server : EpollServer
server = record { port = 9000; epoll_fd = pos 3; listen_fd = pos 4 }

abbrev pub feed : UdpServer
feed = record { port = 9001; socket_fd = pos 5; busy_poll = true }

handle_new_connection-spins_example : handle_new_connection 1000 exhausted server [] ≡ none
handle_new_connection-spins_example =
    handle_new_connection-spins 1000 exhausted server [] (λ before. (refl, refl))

abbrev datagram : Reply
datagram = answer (pos 2) Errno.other

receive_messages-drains_example :
    let ask = Call.recvfrom (pos 5) 65536 in
    receive_messages 64 once feed []
    ≡ (did ([] ++ all_taken once ask delivery (datagram ∷ [])) ask, 1)
receive_messages-drains_example =
    receive_messages-drains 64 once feed (datagram ∷ []) [] (omega arith) (refl, refl, (refl, refl))

-- Two clients have sent something.
abbrev pub two_ready : Os
two_ready [] call = record (answer (pos 2) Errno.other) { ready = pos 6 ∷ pos 7 ∷ [] }
two_ready (c ∷ cs) call = answer (pos 2) Errno.other

-- A client that connects, and closes its connection at once.
abbrev visitor : Os
visitor calls (Call.epoll_wait epoll_fd timeout_ms) = record (answer (pos 2) Errno.other) {
  ready = pos 4 ∷ pos 2 ∷ [];
}
visitor [] (Call.accept4 fd) = answer (negsuc 0) Errno.again
visitor (c ∷ []) (Call.accept4 fd) = answer (pos 2) Errno.other
visitor (c ∷ d ∷ calls) (Call.accept4 fd) = answer (negsuc 0) Errno.again
visitor calls call = answer (pos 0) Errno.other

abbrev arrival : List Call
arrival =
    Call.epoll_wait (pos 3) (negsuc 0)
    ∷ Call.accept4 (pos 4)
    ∷ Call.setsockopt (pos 2) SocketOption.no_delay 1
    ∷ Call.epoll_add (pos 3) (pos 2)
    ∷ Call.accept4 (pos 4)
    ∷ []

abbrev visit : List Call
visit = arrival ++ Call.read (pos 2) 4095 ∷ Call.epoll_del (pos 3) (pos 2) ∷ Call.close (pos 2) ∷ []

visited : run 1 2 visitor server [] ≡ some (visit, true)
unfolding run run_round handle_events handle_new_connection accept_one handle_client_data
visited = refl

run-IsBalanced_example :
    (added : List Call) × (visit ≡ [] ++ added) × IsBalanced (replay visitor [] added no_clients)
run-IsBalanced_example = run-IsBalanced 1 2 visitor server [] visit true visited

-- The client is there before it leaves.
there : (replay visitor [] arrival no_clients).is_open (pos 2) ≡ true
there = refl
