-- ===== src/Tests/Program.antt =====
-- `main` run with fractions for `double`, and its log.
use trading_matcher.Base.{
  ℕ, false, ◌≡◌, refl, ap, true, Option, none, some, List, [], ◌∷◌, map, arith, length, ◌+ℤ◌, ◌*ℤ◌,
}
use trading_matcher.LinuxOptimizations.{
  initialize_hft_optimizations, get_cpu_count, set_cpu_affinity,
}
use trading_matcher.Timestamp.{get_timestamp_ns, to_ns}
use trading_matcher.Timestamp.Timers.{
  calibrate, measure, rdtsc_elapsed_us, rdtsc_elapsed_ns, cycles_to_ns, elapsed_cycles,
}
use trading_matcher.MemoryPool.{allocate, new_pool}
use trading_matcher.Ladder.{find, put, erase, first, last}
use trading_matcher.PriceLevel.{push_order, take_out, remove_order}
use trading_matcher.OrderBook.{
  add_order, cancel_order, link, stamp, get_best_bid, get_best_ask, has_match, get_spread,
  get_best_bid_price, get_best_ask_price, update_best_bid, update_best_ask, cancel_bid, cancel_ask,
}
use trading_matcher.Matcher.{
  match_orders, match_loop, next_pair, trade_pair, execute_trade, drop_filled, match_price,
  match_qty,
}
use trading_matcher.AsyncLogger.{
  LogLevel, truncate, new_logger, set_level, start, log, write_log_message, work, log_line,
  format_timestamp,
}
use trading_matcher.SpscQueue.{new_queue, push, pop, next_index}
use trading_matcher.AsyncLogger.Session.{Event, session}
use trading_matcher.AsyncLogger.Lossless.{said}
use trading_matcher.Console.{Line, call, best_lines, spread_line, trade_line}
use trading_matcher.Program.{
  Program, main, open_logger, set_up, add_orders, place_order, new_order, show_book, match_all,
  matched, conclude,
}
use trading_matcher.Program.Opening.{Prices}
use trading_matcher.Program.Run.{Ran, main-Ran}
use trading_matcher.Program.Delivery.{Filed}
use trading_matcher.Program.Whole.{main-Filed}
use trading_matcher.Order.{double_to_price}
use trading_matcher.Tests.Fractions.{fractions}
use trading_matcher.Tests.Host.{host}
use trading_matcher.Tests.Market.{clock}
use trading_matcher.Tests.Logging.{format}

prices : Prices host
unfolding double_to_price
prices = record {
  first_bid = (omega arith, omega arith);
  second_bid = (omega arith, omega arith);
  first_ask = (omega arith, omega arith);
}

main-Ran_example : Ran host (main host 4)
main-Ran_example = main-Ran host 4 (omega arith) prices

ran : Ran host (main host 4)
ran = main-Ran host 4 (omega arith) prices

-- The worker has a round before each call.
abbrev events_of : List Line → List Event
events_of [] = []
events_of (line ∷ lines) = Event.works ∷ Event.logs 1 (call line).0 (call line).1 ∷ events_of lines

said-events_of : (lines : List Line) → said (events_of lines) ≡ map call lines
said-events_of [] = refl
said-events_of (line ∷ lines) = ap (λ calls. call line ∷ calls) (said-events_of lines)

main-Filed_example :
    Filed format true ran.program.lines
      (session clock format (events_of ran.program.lines) (open_logger true))
main-Filed_example =
    main-Filed host 4 ran.program (length ran.trades) clock format true
      (events_of ran.program.lines) (omega arith) prices ran.result
      (said-events_of ran.program.lines)

summary : Option (Program fractions × ℕ) → Option (ℕ × ℕ × List ℕ)
summary none = none
summary (some (s, n)) = some (n, length s.lines, map (λ t. t.quantity) s.matcher.logged)

-- Two trades, of 50 and of 25, and 24 lines.
main_run : summary (main host 4) ≡ some (2, 24, 50 ∷ 25 ∷ [])
unfolding summary truncate set_cpu_affinity main set_up add_orders place_order new_order show_book
    match_all matched conclude best_lines spread_line trade_line get_spread get_best_bid_price
    get_best_ask_price initialize_hft_optimizations get_cpu_count calibrate measure rdtsc_elapsed_us
    rdtsc_elapsed_ns cycles_to_ns elapsed_cycles allocate double_to_price get_timestamp_ns to_ns
    match_orders match_loop next_pair trade_pair execute_trade drop_filled match_price match_qty
    has_match add_order stamp link update_best_bid update_best_ask cancel_order cancel_bid
    cancel_ask put find erase push_order take_out remove_order first last get_best_bid get_best_ask
    new_pool
main_run = refl

-- One call and a round of the worker, on a file that opens and on one that does not.
filed :
    (length (work format (log clock 1 (open_logger true) LogLevel.warn [])).output.file ≡ 1)
    × (length (work format (log clock 1 (open_logger false) LogLevel.warn [])).output.file ≡ 0)
unfolding open_logger new_logger set_level start log write_log_message work log_line
    format_timestamp truncate new_queue push pop next_index ◌+ℤ◌ ◌*ℤ◌
filed = (refl, refl)
