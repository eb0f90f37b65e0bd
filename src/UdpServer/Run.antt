-- ===== src/UdpServer/Run.antt =====
-- The rounds of `run`.
use trading_matcher.Base.{ℕ, zero, suc, ◌+◌, ◌*◌, ◌≤◌, ◌≡◌, List, [], ◌∷◌, arith}
use trading_matcher.Network.{Call, Os, did}
use trading_matcher.UdpServer.{UdpServer, receive_messages, wait, run}
use trading_matcher.UdpServer.Receive.{is_delivery, tally, tally-append, receive_messages-counts}

-- Waiting calls no handler.
tally-wait :
    (server : UdpServer) (received : ℕ) (calls : List Call)
    → tally is_delivery (wait server received calls) ≡ tally is_delivery calls
unfolding wait
tally-wait server received calls =
    let polled = did calls (Call.poll server.socket_fd) in
    ground (
      arith,
      tally-append is_delivery calls (Call.poll server.socket_fd ∷ []),
      tally-append is_delivery polled (Call.pause ∷ []),
      tally-append is_delivery calls (Call.usleep 1 ∷ []),
    )

-- Whatever the system answers, any number of rounds of `UDPServer::run` calls the handler at most 64
-- times a round.
pub run-counts :
    (rounds : ℕ) (os : Os) (server : UdpServer) (calls : List Call)
    → (tally is_delivery calls ≤ tally is_delivery (run rounds os server calls))
      × (tally is_delivery (run rounds os server calls) ≤ tally is_delivery calls + 64 * rounds)
unfolding run
run-counts zero os server calls = omega arith
run-counts (suc rounds) os server calls =
    let (calls', received) = receive_messages 64 os server calls in
    let c = receive_messages-counts 64 os server calls in
    let w = tally-wait server received calls' in
    let rest = run-counts rounds os server (wait server received calls') in
    (omega (arith, c.0, c.1, w, rest), omega (arith, c.0, c.1, w, rest))
