-- ===== src/Program.antt =====
-- `main` of src/main.cpp, from its start to the call of `demonstrateSPSCQueue` (which Demo has): the
-- calls that it makes of the other parts, and the lines that it gives to
-- the logger. What `snprintf` makes of a format is a parameter, with the arithmetic, the clocks and
-- the kernel.
pub mod Adding
pub mod Placing
pub mod Opening
pub mod Lines
pub mod Run
pub mod Delivery
pub mod Whole
use trading_matcher.Base.{
  ℕ, ◌+◌, ◌-◌, ℤ, pos, ltb, Bool, true, false, Option, none, some, List, [], ◌∷◌, ◌++◌, map,
  if◌then◌else◌, Text, codes,
}
use trading_matcher.Console.{
  Host, Argument, Line, info, banner, tuning_lines, info_f, count_of, best_lines, spread_line,
  trade_line, last_trade_lines,
}
use trading_matcher.Timestamp.{Clock, get_timestamp_ns}
use trading_matcher.Timestamp.Doubles.{Doubles}
use trading_matcher.Timestamp.Timers.{
  CycleCounter, Readings, Calibrator, new_calibrator, calibrate, LatencyTimerRdtsc, new_rdtsc_timer,
  elapsed_cycles, rdtsc_elapsed_us,
}
use trading_matcher.Order.{Order, empty_order, make_order, double_to_price}
use trading_matcher.PriceLevel.{Heap}
use trading_matcher.OrderBook.{
  OrderBook, World, empty_book, add_order, get_best_bid, get_best_ask, get_best_bid_price,
  get_best_ask_price, get_spread,
}
use trading_matcher.Matcher.{Trade, Matcher, new_matcher, match_orders}
use trading_matcher.MemoryPool.{Place, MemoryPool, new_pool, allocate}
use trading_matcher.LinuxOptimizations.{
  Kernel, Action, SysCall, done, ◌>>=◌, initialize_hft_optimizations, get_cpu_count,
}
use trading_matcher.AsyncLogger.{AsyncLogger, LogLevel, new_logger, set_level, start}
use trading_matcher.Demo.{pool_size, store}

-- The logger after `setLevel(hft::LogLevel::DEBUG)` and `start("market_engine.log")`, whose result is
-- not looked at; the argument says whether the file opens.
unfoldable pub open_logger : Bool → AsyncLogger
open_logger opens = (start (set_level new_logger LogLevel.debug) (some opens)).0

-- The address of an order: those of the pool come first.
abbrev pub address : Place → ℕ
address (Place.pooled i) = i
address (Place.heaped n) = pool_size + n

-- The memory of the pool as the store that the book's pointers lead into, and back.
abbrev pub memory : MemoryPool → Heap
memory p a = if ltb a pool_size then p.pool a else p.heap (a - pool_size)

abbrev pub with_memory : Heap → MemoryPool → MemoryPool
with_memory h p = record p { pool = h; heap = λ n. h (pool_size + n) }

-- The variables of `main` and the globals that it uses; `reads` counts the readings of CLOCK_REALTIME,
-- and `lines` are the calls of the logger, oldest first.
pub record Program (d : Doubles) : Type 0 where
  pub readings : Readings
  pub calibrator : Calibrator d
  pub calls : List SysCall
  pub pool : MemoryPool
  pub reads : ℕ
  pub order_book : OrderBook
  pub matcher : Matcher
  pub lines : List Line

abbrev pub world_of : {d : Doubles} → Program d → World
world_of s = record { book = s.order_book; heap = memory s.pool; reads = s.reads }

abbrev pub with_world : {d : Doubles} → World → Program d → Program d
with_world w s = record s { pool = with_memory w.heap s.pool; reads = w.reads; order_book = w.book }

abbrev pub log_lines : {d : Doubles} → List Line → Program d → Program d
log_lines more s = record s { lines = s.lines ++ more }

module _ (host : Host) where
  open host use {doubles, clock, monotonic, tsc, kernel}
  open doubles use {Double, literal}

  -- Before the first statement.
  abbrev pub launched : Program doubles
  launched = record {
    readings = record { clock_reads = 0; cycle_reads = 0 };
    calibrator = new_calibrator doubles;
    calls = [];
    pool = new_pool (λ a. empty_order);
    reads = 0;
    order_book = empty_book;
    matcher = new_matcher;
    lines = [];
  }

  -- `initializeHftOptimizations(0, 50)` and `getCpuCount()`, with the lines on them.
  abbrev pub optimize : Action (List Line)
  optimize = do
    ok ← initialize_hft_optimizations (pos 0) (pos 50) true
    cpus ← get_cpu_count
    done (tuning_lines ok ++ info_f host (codes "  CPU cores: %d") (Argument.whole cpus ∷ []) ∷ [])

  -- Down to the line "Adding sample orders...".
  unfoldable pub set_up : Program doubles → Program doubles
  set_up s =
      let (readings, calibrator) = calibrate doubles monotonic tsc s.readings s.calibrator in
      let (tuned, calls) = optimize kernel s.calls in
      log_lines (banner ++ tuned ++ info (codes "Adding sample orders...") ∷ [])
        (record s { readings = readings; calibrator = calibrator; calls = calls })

  -- `Order* o = g_order_pool.allocate(); *o = order;`, with the address of `o`.
  unfoldable pub new_order : Order → Program doubles → Program doubles × ℕ
  new_order order s =
      let (pool, place) = allocate pool_size s.pool in
      (record s { pool = store pool place order }, address place)

  -- `Order(id, side, qty, Order::doubleToPrice(price), hft::getTimestampNs())` in a slot of the pool,
  -- and `orderBook.addOrder` of it.
  unfoldable pub place_order : ℕ → Bool → ℕ → Double → Program doubles → Program doubles
  place_order id is_buy_order qty price s =
      let order =
        make_order id is_buy_order qty (double_to_price doubles price)
          (get_timestamp_ns clock s.reads) 0 in
      let (filled, r) = new_order order (record s { reads = s.reads + 1 }) in
      with_world (add_order clock (world_of filled) (some r)).0 filled

  -- The three orders, each with its line.
  unfoldable pub add_orders : Program doubles → Program doubles
  add_orders s =
      let s1 =
        log_lines (info_f host (codes "  Added buy order: ID=1, Qty=100, Price=$100.50") [] ∷ [])
          (place_order 1 true 100 (literal 10050 100) s) in
      let s2 =
        log_lines (info_f host (codes "  Added buy order: ID=2, Qty=50, Price=$100.75") [] ∷ [])
          (place_order 2 true 50 (literal 10075 100) s1) in
      log_lines (info_f host (codes "  Added sell order: ID=3, Qty=75, Price=$100.25") [] ∷ [])
        (place_order 3 false 75 (literal 10025 100) s2)

  -- `main` from the line "Order Book State:" to the line "Matching orders...".
  abbrev pub shown : Line → Program doubles → Program doubles
  shown spread s =
      log_lines
        (info (codes "Order Book State:") ∷ []
          ++ best_lines host (world_of s)
          ++ spread ∷ info (codes "Matching orders...") ∷ [])
        s

  unfoldable pub show_book : Program doubles → Option (Program doubles)
  show_book s = elim (spread_line host s.order_book) [
    | none ↦ none
    | some spread ↦ some (shown spread s)
  ]

  -- From the return of `matchOrders` to the line on the last trade; the matcher had logged nothing
  -- before. `timer` was started before the call.
  unfoldable pub matched :
      World → Matcher → ℕ → LatencyTimerRdtsc → Program doubles → Program doubles
  matched w m trades timer s =
      let (readings, calibrator, us) =
        rdtsc_elapsed_us doubles monotonic tsc s.readings s.calibrator timer in
      let cycles = elapsed_cycles tsc readings.cycle_reads timer in
      log_lines
        (map (trade_line host) m.logged
          ++ info_f host (codes "  Executed %zu trade(s) in %ld microseconds (%llu cycles)")
              (count_of host trades ∷ Argument.whole us ∷ count_of host cycles ∷ [])
            ∷ last_trade_lines host trades m)
        (record (with_world w s) {
          readings = record readings { cycle_reads = readings.cycle_reads + 1 };
          calibrator = calibrator;
          matcher = m;
        })

  -- `hft::LatencyTimerRDTSC timer_rdtsc;`, and the state after it.
  abbrev pub start_timer : Program doubles → LatencyTimerRdtsc
  start_timer s = new_rdtsc_timer tsc s.readings.cycle_reads

  abbrev pub timed : Program doubles → Program doubles
  timed s = record s { readings = record s.readings { cycle_reads = s.readings.cycle_reads + 1 } }

  -- From the timer on, with `fuel` rounds of `matchOrders`.
  unfoldable pub match_all : ℕ → Program doubles → Option (Program doubles × ℕ)
  match_all fuel s = elim (match_orders fuel clock (world_of s) s.matcher) [
    | none ↦ none
    | some (w, m, trades) ↦ some (matched w m trades (start_timer s) (timed s), trades)
  ]

  -- The lines after the matching.
  unfoldable pub conclude : Program doubles → Program doubles
  conclude s =
      log_lines
        (info (codes "Order Book State After Matching:") ∷ []
          ++ best_lines host (world_of s)
          ++ info (10 ∷ codes "Demonstrating SPSC Queue...") ∷ [])
        s

  -- `main` up to the call of `demonstrateSPSCQueue`, with the number of trades; `none` if the rounds
  -- do not suffice or the spread overflows.
  unfoldable pub main : ℕ → Option (Program doubles × ℕ)
  main fuel = elim (show_book (add_orders (set_up launched))) [
    | none ↦ none
    | some s ↦ elim (match_all fuel s) [
      | none ↦ none
      | some (s', trades) ↦ some (conclude s', trades)
    ]
  ]
