-- ===== src/Console.antt =====
-- The lines that `main` of src/main.cpp gives to the logger; what `snprintf` makes of a format is a
-- parameter.
use trading_matcher.Base.{
  ℕ, ℤ, pos, ltb, Bool, true, false, Option, none, some, List, [], ◌∷◌, ◌++◌, if◌then◌else◌, Text,
  codes,
}
use trading_matcher.Timestamp.{Clock}
use trading_matcher.Timestamp.Doubles.{Doubles}
use trading_matcher.Timestamp.Timers.{CycleCounter}
use trading_matcher.PriceLevel.{Heap}
use trading_matcher.OrderBook.{
  OrderBook, World, get_best_bid, get_best_ask, get_best_bid_price, get_best_ask_price, get_spread,
}
use trading_matcher.Matcher.{Trade, Matcher}
use trading_matcher.LinuxOptimizations.{Kernel}
use trading_matcher.AsyncLogger.{LogLevel, truncate}

-- An argument of a format; one of an integer type is its value.
pub data Argument (d : Doubles) : Type 0 where
  whole : (value : ℤ) → Argument d
  real : (value : d.Double) → Argument d

pub record Host : Type 1 where
  pub doubles : Doubles
  pub clock : Clock  -- CLOCK_REALTIME
  pub monotonic : Clock  -- CLOCK_MONOTONIC
  pub tsc : CycleCounter
  pub kernel : Kernel
  pub print : Text → List (Argument doubles) → Text

-- A call of the logger: `LOG_DEBUG_F`, `LOG_INFO` or `LOG_INFO_F`, and `LOG_WARN`.
pub data Line : Type 0 where
  debug : (text : Text) → Line
  info : (text : Text) → Line
  warn : (text : Text) → Line

-- Its level and its text.
abbrev pub call : Line → LogLevel × Text
call (debug text) = (LogLevel.debug, text)
call (info text) = (LogLevel.info, text)
call (warn text) = (LogLevel.warn, text)

abbrev pub rule : Text
rule = codes "========================================"

abbrev pub banner : List Line
banner =
    info rule
    ∷ info (codes "HFT Market Data Engine - Linux Optimized")
    ∷ info rule
    ∷ info (codes "Initializing HFT optimizations...")
    ∷ []

-- The signs are UTF-8.
abbrev pub tuning_lines : Bool → List Line
tuning_lines true =
    info (codes "  " ++ 226 ∷ 156 ∷ 147 ∷ codes " CPU affinity set")
    ∷ info (codes "  " ++ 226 ∷ 156 ∷ 147 ∷ codes " Memory locked")
    ∷ []
tuning_lines false =
    warn (codes "  " ++ 226 ∷ 154 ∷ 160 ∷ codes " Some optimizations require root privileges") ∷ []

-- `p ? p->quantity : 0`
abbrev pub quantity_at : Heap → Option ℕ → ℕ
quantity_at h none = 0
quantity_at h (some r) = (h r).quantity

module _ (host : Host) where
  open host use {doubles, print}
  open doubles use {literal, of_int, over}

  -- `LOG_INFO_F`
  abbrev pub info_f : Text → List (Argument doubles) → Line
  info_f format arguments = info (truncate 255 (print format arguments))

  -- `LOG_DEBUG_F`
  abbrev pub debug_f : Text → List (Argument doubles) → Line
  debug_f format arguments = debug (truncate 255 (print format arguments))

  -- `p / 1e6`
  abbrev pub scaled : ℤ → Argument doubles
  scaled p = Argument.real (over (of_int p) (literal 1_000_000 1))

  abbrev pub count_of : ℕ → Argument doubles
  count_of n = Argument.whole (pos n)

  -- The lines on the best bid and the best ask.
  unfoldable pub best_lines : World → List Line
  best_lines w =
      info_f (codes "  Best Bid: $%.2f (Qty: %u)") (
        scaled (get_best_bid_price w.book)
        ∷ count_of (quantity_at w.heap (get_best_bid w.book))
        ∷ [])
      ∷ info_f (codes "  Best Ask: $%.2f (Qty: %u)") (
          scaled (get_best_ask_price w.book)
          ∷ count_of (quantity_at w.heap (get_best_ask w.book))
          ∷ [])
      ∷ []

  -- The line on the spread; `none` where `getSpread` overflows.
  unfoldable pub spread_line : OrderBook → Option Line
  spread_line b = elim (get_spread b) [
    | none ↦ none
    | some spread ↦ some (info_f (codes "  Spread: $%.2f") (scaled spread ∷ []))
  ]

  -- The line of `executeTrade`, from its buffer of 256 bytes.
  unfoldable pub trade_line : Trade → Line
  trade_line t = info (
      truncate 255 (
        print (codes "Trade: %u @ %ld (Bid:%u Ask:%u Qty:%u)") (
          count_of t.quantity
          ∷ Argument.whole t.price_scaled
          ∷ count_of t.buy_order_id
          ∷ count_of t.sell_order_id
          ∷ count_of t.quantity
          ∷ [])))

  -- `getLastTrade` and its line; a trade that was never written has no value.
  abbrev pub last_trade_lines : ℕ → Matcher → List Line
  last_trade_lines trades m =
      if ltb 0 trades
      then (elim m.last_trade [
        | none ↦ []
        | some t ↦
            info_f (codes "  Last trade: %u @ $%.2f")
              (count_of t.quantity ∷ scaled t.price_scaled ∷ [])
            ∷ []
      ])
      else []
