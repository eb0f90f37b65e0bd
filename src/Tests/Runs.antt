-- ===== src/Tests/Runs.antt =====
-- Operations evaluated on small inputs.
use trading_matcher.Base.{
  Text, codes, ℕ, ◌≡◌, refl, pos, negsuc, ◌+ℤ◌, ◌-ℤ◌, ◌*ℤ◌, true, false, Option, none, some, List,
  [], ◌∷◌, map,
}
use trading_matcher.Timestamp.{to_ns, get_timestamp_ns}
use trading_matcher.Order.{order_lt, order_gt, empty_order, price_as_double, double_to_price}
use trading_matcher.Ladder.{find, put, erase, first, last}
use trading_matcher.PriceLevel.{push_order, take_out, remove_order}
use trading_matcher.OrderBook.{
  add_order, cancel_order, modify_order, get_spread, link, stamp, update_best_bid, update_best_ask,
  cancel_bid, cancel_ask,
}
use trading_matcher.SpscQueue.{push, pop, next_index, new_queue, is_full, is_empty, count}
use trading_matcher.AsyncLogger.{
  AsyncLogger, LogLevel, new_logger, set_level, log, logf, queue_count, log_line, truncate,
  write_log_message, flush, log_worker, work, format_timestamp, log_trace, log_debug, log_info,
  log_warn, log_error, log_fatal, stop, start,
}
use trading_matcher.MemoryPool.{Place, new_pool, allocate, deallocate, reset}
use trading_matcher.Timestamp.Counters.{rdtsc, rdtsc_by_clock, joined}
use trading_matcher.MemoryPool.Numa.{new_pool_on}
use trading_matcher.LinuxOptimizations.{malloc, has_numa, allocate_on_numa_node}
use trading_matcher.Network.{Call}
use trading_matcher.EpollServer.{
  destroy, accept_one, handle_new_connection, handle_client_data, handle_events, process_events,
  run_round,
}
use trading_matcher.UdpServer.{
  destroy_receiver, new_receiver, start_multicast, receive_loop, receive_messages, receive_feed,
  wait, run, run_feed, send_to,
}
use trading_matcher.Tests.Fractions.{fractions}
use trading_matcher.Tests.Market.{clock, market}
use trading_matcher.Tests.Counters.{early, late}
use trading_matcher.Tests.Sockets.{once, two_ready, server, feed}
use trading_matcher.Tests.Logging.{format, running}

clock_run : get_timestamp_ns clock 7 ≡ pos 1_000_000_007
unfolding get_timestamp_ns to_ns ◌+ℤ◌ ◌*ℤ◌
clock_run = refl

order_run : (order_lt early late ≡ true) × (order_gt early late ≡ true)
unfolding order_lt order_gt
order_run = (refl, refl)

-- The first buy order moves above the second.
modify_run :
    (modify_order clock market 1 (pos 100_800_000) 40).0.book.best_bid_price ≡ pos 100_800_000
unfolding modify_order add_order stamp link update_best_bid update_best_ask cancel_order cancel_bid
    cancel_ask put find erase push_order take_out remove_order first last get_timestamp_ns
modify_run = refl

spread_run : get_spread market.book ≡ some (negsuc 499_999)
unfolding get_spread add_order stamp link update_best_bid update_best_ask put find push_order first
    last ◌-ℤ◌ ◌+ℤ◌
spread_run = refl

ring_run :
    let q = (push {A = ℕ} 2 (new_queue 2 (λ i. 0)) 5).0 in
    (is_full 2 q ≡ true) × (is_empty q ≡ false) × (is_empty (pop 2 q).0 ≡ true)
unfolding push pop next_index new_queue is_full is_empty
ring_run = (refl, refl, refl)

-- A reset hands out the first slot again, in use or not.
pool_run :
    let (p, a) = allocate 1 (new_pool (λ i. empty_order)) in
    let (q, b) = allocate 1 (deallocate p a) in
    let (r, c) = allocate 1 (reset q) in
    (a ≡ Place.pooled 0) × (b ≡ Place.heaped 0) × (c ≡ Place.pooled 0)
unfolding allocate deallocate reset new_pool
pool_run = (refl, refl, refl)

lines : Option AsyncLogger → List Text
lines none = []
lines (some logger) = logger.output.console

-- A debug message passes once the level is lowered, and stopping writes it.
logger_run :
    let logger =
      logf clock 1 (set_level running LogLevel.debug) LogLevel.debug (b'h' ∷ b'i' ∷ []) in
    (queue_count logger ≡ 1)
    × (lines (stop 2 format logger) ≡ codes "[DEBUG] [T-T-T T:T:T.T] [T1] hi\n" ∷ [])
unfolding lines start new_logger new_queue set_level logf log truncate queue_count count stop
    log_worker work flush write_log_message log_line format_timestamp ◌+ℤ◌ push pop next_index
    is_empty
logger_run = (refl, refl)

-- Each method logs at its own level.
levels_run :
    (log_trace clock 1 running [] ≡ running)
    × (log_debug clock 1 running [] ≡ running)
    × (map
          (λ l. (l.queue.buffer 0).level)
          (log_info clock 1 running []
            ∷ log_warn clock 1 running []
            ∷ log_error clock 1 running []
            ∷ log_fatal clock 1 running []
            ∷ [])
        ≡ LogLevel.info ∷ LogLevel.warn ∷ LogLevel.error ∷ LogLevel.fatal ∷ [])
unfolding log_trace log_debug log_info log_warn log_error log_fatal log start new_logger new_queue
    push next_index
levels_run = (refl, refl, refl)

udp_destroy_run : trading_matcher.UdpServer.destroy feed [] ≡ Call.close (pos 5) ∷ []
unfolding trading_matcher.UdpServer.destroy
udp_destroy_run = refl

receiver_destroy_run : destroy_receiver (new_receiver 9000 true) [] ≡ []
unfolding destroy_receiver
receiver_destroy_run = refl

-- The price of 12.34, and back.
price_run :
    (double_to_price fractions (fractions.literal 1234 100) ≡ pos 12_340_000)
    × (price_as_double fractions (record empty_order { price_scaled = pos 12_340_000 })
        ≡ record { num = 12_340_000; den = 1_000_000 })
unfolding double_to_price price_as_double
price_run = (refl, refl)

destroy_run : destroy server [] ≡ Call.close (pos 3) ∷ Call.close (pos 4) ∷ []
unfolding destroy
destroy_run = refl

-- Both clients are read and handed over.
round_run :
    run_round 0 two_ready server []
    ≡ some (
      Call.epoll_wait (pos 3) (negsuc 0)
          ∷ Call.read (pos 6) 4095
          ∷ Call.handler (pos 6) (7 ∷ 8 ∷ []) (pos 2)
          ∷ Call.read (pos 7) 4095
          ∷ Call.handler (pos 7) (7 ∷ 8 ∷ []) (pos 2)
          ∷ [],
      true,
    )
unfolding run_round handle_events handle_client_data
round_run = refl

accept_run : handle_new_connection 1 once server [] ≡ none
unfolding handle_new_connection accept_one
accept_run = refl

poll_run : process_events 0 once server (pos 5) [] ≡ some (Call.epoll_wait (pos 3) (pos 5) ∷ [])
unfolding process_events handle_events
poll_run = refl

multicast_run : (start_multicast two_ready feed []).2 ≡ true
unfolding start_multicast
multicast_run = refl

-- One datagram, then nothing: the second round polls.
udp_run :
    run 2 once feed []
    ≡ Call.recvfrom (pos 5) 65536
      ∷ Call.datagram_handler (7 ∷ 8 ∷ []) (pos 2) 1
      ∷ Call.recvfrom (pos 5) 65536
      ∷ Call.recvfrom (pos 5) 65536
      ∷ Call.poll (pos 5)
      ∷ Call.pause
      ∷ []
unfolding run wait receive_messages receive_loop
udp_run = refl

feed_run :
    run_feed 1 once feed []
    ≡ Call.recv (pos 5) 65536
      ∷ Call.feed_handler (7 ∷ 8 ∷ []) (pos 2)
      ∷ Call.recv (pos 5) 65536
      ∷ []
unfolding run_feed wait receive_feed receive_loop
feed_run = refl

send_run : (send_to once feed (1 ∷ 2 ∷ []) 9 []).1 ≡ true
unfolding send_to
send_run = refl

-- The halves 5 and 7 of the counter, and a clock just before 1970.
counters :
    (rdtsc (λ n. record { lo = 7; hi = 5 }) 0 ≡ 21_474_836_487)
    × (rdtsc_by_clock (λ n. record { tv_sec = negsuc 0; tv_nsec = pos 999_999_999 }) 0
        ≡ 18_446_744_073_709_551_615)
unfolding joined to_ns ◌+ℤ◌ ◌*ℤ◌
counters = (refl, refl)

-- A pool of two orders of 64 bytes on node 0, without libnuma.
pool_calls :
    (new_pool_on 64 2
      (pos 0)
      (λ a. empty_order)
      (record {
        built_with_numa = false;
        possible_cpus = 1;
        answer = λ calls c. record { value = pos 0; bit = λ i. false };
      })
      []).1
    ≡ malloc 128 ∷ []
unfolding new_pool_on allocate_on_numa_node has_numa
pool_calls = refl
