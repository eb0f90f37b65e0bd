-- ===== src/UdpServer/Receive.antt =====
-- The loop of `receiveMessages` of both classes.
use mathlib.Core.List.{append-nil, append_assoc}
use trading_matcher.Base.{
  ℕ, zero, suc, ◌+◌, ◌≤◌, ◌<◌, ◌≡◌, refl, sym, ap, ◌∙◌, Bool, Bool-cases, inl, inr, ap₂,
  if◌then◌else◌, true, false, List, [], ◌∷◌, ◌++◌, arith, length,
}
use trading_matcher.Network.{Call, Reply, Os, failed, is_again, did}
use trading_matcher.UdpServer.{UdpServer, receive_loop, receive_messages, receive_feed}

-- How many of the calls pass a test.
abbrev pub tally : (Call → Bool) → List Call → ℕ
tally p [] = 0
tally p (c ∷ cs) = (if p c then 1 else 0) + tally p cs

pub tally-append :
    (p : Call → Bool) (xs ys : List Call) → tally p (xs ++ ys) ≡ tally p xs + tally p ys
tally-append p [] ys = omega arith
tally-append p (x ∷ xs) ys = omega (arith, tally-append p xs ys)

module _ (os : Os) (ask : Call) (deliver : Reply → Call) where
  -- What a received datagram adds to the calls.
  abbrev pub taken : Reply → List Call
  taken reply = ask ∷ deliver reply ∷ []

  abbrev pub all_taken : List Reply → List Call
  all_taken [] = []
  all_taken (reply ∷ replies) = taken reply ++ all_taken replies

  -- `ask` is answered by `replies`, which are datagrams, then with EAGAIN.
  abbrev pub Arriving : List Reply → List Call → Type 0
  Arriving [] calls = (failed (os calls ask).value ≡ true) × (is_again (os calls ask).errno ≡ true)
  Arriving (reply ∷ replies) calls =
      (os calls ask ≡ reply)
      × (failed reply.value ≡ false)
      × Arriving replies (calls ++ taken reply)

  receive_loop-drains :
      (left : ℕ) (replies : List Reply) (calls : List Call) (received : ℕ)
      → length replies < left
      → Arriving replies calls
      → receive_loop left os ask deliver calls received
        ≡ (did (calls ++ all_taken replies) ask, received + length replies)
  unfolding receive_loop
  receive_loop-drains zero replies calls received h w = absurd (omega arith)
  receive_loop-drains (suc left) [] calls received h w =
      rw (w.0, w.1, receive_loop)
        (ap₂ (λ l n. (did l ask, n)) (sym (append-nil calls)) (omega arith))
  receive_loop-drains (suc left) (reply ∷ replies) calls received h w =
      rw (ap (λ r. failed r.value) w.0 ∙ w.1, receive_loop)
        (ap (λ r. receive_loop left os ask deliver (did (did calls ask) (deliver r)) (received + 1))
            w.0
          ∙ ap (λ l. receive_loop left os ask deliver l (received + 1))
              (append_assoc calls (ask ∷ []) (deliver reply ∷ []))
          ∙ receive_loop-drains left replies (calls ++ taken reply) (received + 1) (omega arith) w.2
          ∙ ap₂ (λ l n. (did l ask, n)) (append_assoc calls (taken reply) _) (omega arith))

  -- At most `left` calls of the handler are made, one for each of those that the result counts.
  receive_loop-counts :
      (is_delivery : Call → Bool)
      → is_delivery ask ≡ false
      → ((reply : Reply) → is_delivery (deliver reply) ≡ true)
      → (left : ℕ) (calls : List Call) (received : ℕ)
      → let (calls', received') = receive_loop left os ask deliver calls received in
        (received' ≤ received + left)
        × (tally is_delivery calls' + received ≡ tally is_delivery calls + received')
  unfolding receive_loop
  receive_loop-counts d quiet loud zero calls received = ground arith
  receive_loop-counts d quiet loud (suc left) calls received =
      let asked = did calls ask in
      let reply = os calls ask in
      let one = tally-append d calls (ask ∷ []) in
      elim (Bool-cases (failed reply.value)) [
        | inl f ↦ elim (Bool-cases (is_again reply.errno)) [
          | inl a ↦ rw (f, a, receive_loop) (ground (arith, one, quiet))
          | inr a ↦
              rw (f, a, receive_loop)
                (let rest = receive_loop-counts d quiet loud left asked received in
                  ground (arith, one, quiet, rest))
        ]
        | inr f ↦
            rw (f, receive_loop)
              (let rest =
                  receive_loop-counts d quiet loud left (did asked (deliver reply))
                    (received + 1) in
                ground
                  (arith, one, tally-append d asked (deliver reply ∷ []), quiet, loud reply, rest))
      ]

abbrev pub delivery : Reply → Call
delivery reply = Call.datagram_handler reply.bytes reply.value reply.from

abbrev pub feed_delivery : Reply → Call
feed_delivery reply = Call.feed_handler reply.bytes reply.value

abbrev pub is_delivery : Call → Bool
is_delivery (Call.datagram_handler bytes len from) = true
is_delivery (Call.feed_handler bytes len) = true
is_delivery _ = false

-- With fewer datagrams waiting than `max_messages`, `UDPServer::receiveMessages` hands each to the
-- handler, in the order of arrival, and returns their number.
pub receive_messages-drains :
    (max_messages : ℕ) (os : Os) (server : UdpServer) (replies : List Reply) (calls : List Call)
    → length replies < max_messages
    → Arriving os (Call.recvfrom server.socket_fd 65536) delivery replies calls
    → let ask = Call.recvfrom server.socket_fd 65536 in
      receive_messages max_messages os server calls
      ≡ (did (calls ++ all_taken os ask delivery replies) ask, length replies)
unfolding receive_messages
receive_messages-drains max_messages os server replies calls h w =
    let ask = Call.recvfrom server.socket_fd 65536 in
    receive_loop-drains os ask delivery max_messages replies calls 0 h w
    ∙ ap (λ n. (did (calls ++ all_taken os ask delivery replies) ask, n)) (omega arith)

-- With fewer datagrams waiting than `max_messages`, `receiveMessages` of a multicast receiver hands
-- each to the handler, in the order of arrival, and returns their number.
pub receive_feed-drains :
    (max_messages : ℕ) (os : Os) (server : UdpServer) (replies : List Reply) (calls : List Call)
    → length replies < max_messages
    → Arriving os (Call.recv server.socket_fd 65536) feed_delivery replies calls
    → let ask = Call.recv server.socket_fd 65536 in
      receive_feed max_messages os server calls
      ≡ (did (calls ++ all_taken os ask feed_delivery replies) ask, length replies)
unfolding receive_feed
receive_feed-drains max_messages os server replies calls h w =
    let ask = Call.recv server.socket_fd 65536 in
    receive_loop-drains os ask feed_delivery max_messages replies calls 0 h w
    ∙ ap (λ n. (did (calls ++ all_taken os ask feed_delivery replies) ask, n)) (omega arith)

-- Whatever the system answers, errors included, `receiveMessages` of either class returns at
-- most `max_messages`, and has called its handler as often as it says.
pub receive_messages-counts :
    (max_messages : ℕ) (os : Os) (server : UdpServer) (calls : List Call)
    → let (calls', received) = receive_messages max_messages os server calls in
      let (calls'', received') = receive_feed max_messages os server calls in
      (received ≤ max_messages)
      × (tally is_delivery calls' ≡ tally is_delivery calls + received)
      × (received' ≤ max_messages)
      × (tally is_delivery calls'' ≡ tally is_delivery calls + received')
unfolding receive_messages receive_feed
receive_messages-counts max_messages os server calls =
    let a =
      receive_loop-counts os (Call.recvfrom server.socket_fd 65536) delivery is_delivery refl
        (λ reply. refl) max_messages calls 0 in
    let b =
      receive_loop-counts os (Call.recv server.socket_fd 65536) feed_delivery is_delivery refl
        (λ reply. refl) max_messages calls 0 in
    (omega (arith, a), omega (arith, a), omega (arith, b), omega (arith, b))
