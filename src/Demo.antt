-- ===== src/Demo.antt =====
-- `demonstrateSPSCQueue` of src/main.cpp: the threads that it starts, whose steps are an iteration of
-- the producer down to its `push`, each test of the loop, each `pop`, and each call of the logger.
-- Between the threads go only the queue, whose calls act at once (see SpscQueue/Interleaved), the flag,
-- and the logger. The end of the producer's thread, which destroys its pool, is a step of its own: a
-- consumer that then reads an order has no defined behaviour. What it reads of an order for its line is
-- read in one step with the call of the logger. The sleeps are left out.
pub mod Lines
pub mod Invariant
pub mod Producing
pub mod Consuming
pub mod Delivery
pub mod Measure
pub mod Ending
pub mod Outliving
use trading_matcher.Base.{
  ℕ, suc, ◌+◌, ◌%◌, ◌<◌, ◌≡◌, ℤ, pos, Bool, true, false, List, [], ◌∷◌, ◌++◌, ◌==◌, if◌then◌else◌,
  arith, length, codes,
}
use trading_matcher.Timestamp.{get_timestamp_ns}
use trading_matcher.Order.{Order, make_order, double_to_price, price_as_double}
use trading_matcher.PriceLevel.{Heap, write}
use trading_matcher.MemoryPool.{Place, MemoryPool, new_pool, allocate}
use trading_matcher.SpscQueue.{Queue}
use trading_matcher.SpscQueue.Pointers.{new_queue, push, pop, count, is_empty}
use trading_matcher.Console.{Host, Argument, Line, warn, debug_f, info_f, count_of}

-- The number of orders, the template argument of the queue, and that of the pool.
abbrev pub order_count : ℕ
order_count = 10

abbrev pub queue_size : ℕ
queue_size = 1024

abbrev pub pool_size : ℕ
pool_size = 1_048_576

-- `making i` is before the test `i < 10`, and `logging` between the `push` and the line on it.
pub data Producer : Type 0 where
  making : (i : ℕ) → Producer
  logging : (i : ℕ) (order : Place) (pushed : Bool) → Producer
  returning : Producer  -- after the store of `producer_done`
  ended : Producer  -- its thread has ended, which destroys its `thread_local` pool

pub data Consumer : Type 0 where
  testing : Consumer  -- before the load of `producer_done`
  tested : (done : Bool) → Consumer  -- after it
  popping : Consumer  -- in the body of the loop
  logging : (order : Place) → Consumer  -- after a `pop` that gave an order
  ended : Consumer
  undefined : Consumer  -- it has read an order of a pool that is destroyed

-- `pool` is the pool of the producer's thread, which nothing reads once that thread has ended, and
-- `reads` its readings of the clock. `processed` has the pointers that the consumer has popped, and
-- `lines` the calls of the logger by both threads, oldest first.
pub record Demo : Type 0 where
  pub order_queue : Queue Place
  pub pool : MemoryPool
  pub reads : ℕ
  pub producer_done : Bool
  pub producer : Producer
  pub consumer : Consumer
  pub processed : List Place
  pub lines : List Line

-- Whether the pool of the producer's thread is there.
abbrev pub lives : Producer → Bool
lives (Producer.making i) = true
lives (Producer.logging i order pushed) = true
lives Producer.returning = true
lives Producer.ended = false

-- `*order`
abbrev pub at : MemoryPool → Place → Order
at p (Place.pooled i) = p.pool i
at p (Place.heaped n) = p.heap n

abbrev pub store : MemoryPool → Place → Order → MemoryPool
store p (Place.pooled i) o = record p { pool = write p.pool i o }
store p (Place.heaped n) o = record p { heap = write p.heap n o }

module _ (host : Host) where
  open host use {doubles, clock}
  open doubles use {plus, times, of_int, literal}

  -- `Order::doubleToPrice(100.0 + i * 0.1)`
  abbrev pub price_of : ℕ → ℤ
  price_of i =
      double_to_price doubles (plus (literal 1000 10) (times (of_int (pos i)) (literal 1 10)))

  -- `Order(100 + i, (i % 2 == 0), 10 + i, Order::doubleToPrice(100.0 + i * 0.1),
  -- hft::getTimestampNs())`
  unfoldable pub sample_order : ℕ → ℕ → Order
  sample_order i reads =
      make_order (100 + i) (i % 2 == 0) (10 + i) (price_of i) (get_timestamp_ns clock reads) 0

  -- An iteration of the producer, down to the `push`.
  unfoldable pub produce : ℕ → Demo → Demo
  produce i s =
      let (pool, order) = allocate pool_size s.pool in
      let (queue, pushed) = push queue_size s.order_queue order in
      record s {
        pool = store pool order (sample_order i s.reads);
        reads = s.reads + 1;
        order_queue = queue;
        producer = Producer.logging i order pushed;
      }

  -- The producer's line.
  abbrev pub push_line : Order → Bool → Line
  push_line order true =
      debug_f host (codes "Producer: Pushed order %d") (count_of host order.id ∷ [])
  push_line order false = warn (codes "Producer: Queue full!")

  -- The rest of the iteration, with `i++`.
  unfoldable pub report : ℕ → Place → Bool → Demo → Demo
  report i order pushed s = record s {
    lines = s.lines ++ push_line (at s.pool order) pushed ∷ [];
    producer = Producer.making (i + 1);
  }

  -- The `pop` of the consumer; `null` is what `order` holds before it.
  pub consume : Place → Demo → Demo
  consume null s =
      let (queue, order, ok) = pop queue_size s.order_queue null in
      if ok
      then record s {
        order_queue = queue;
        consumer = Consumer.logging order;
        processed = s.processed ++ order ∷ [];
      }
      else record s { order_queue = queue; consumer = Consumer.testing }

  -- The consumer's line on an order.
  abbrev pub pop_line : Order → Line
  pop_line order =
      debug_f host (codes "Consumer: Processed order %d (Price: $%.2f)")
        (count_of host order.id ∷ Argument.real (price_as_double doubles order) ∷ [])

  pub note : Place → Demo → Demo
  note order s = record s {
    lines = s.lines ++ pop_line (at s.pool order) ∷ [];
    consumer = Consumer.testing;
  }

  -- The consumer's line after its loop, and the end of its thread.
  abbrev pub total_line : ℕ → Line
  total_line n = info_f host (codes "Consumer: Processed %d orders") (count_of host n ∷ [])

  pub leave : Demo → Demo
  leave s = record s {
    lines = s.lines ++ total_line (length s.processed) ∷ [];
    consumer = Consumer.ended;
  }

  pub data Step (s t : Demo) : Type 0 where
    producing :
        (i : ℕ) → s.producer ≡ Producer.making i → i < order_count → t ≡ produce i s → Step s t
    reporting :
        (i : ℕ) (order : Place) (pushed : Bool)
        → s.producer ≡ Producer.logging i order pushed
        → t ≡ report i order pushed s
        → Step s t
    finishing :
        s.producer ≡ Producer.making order_count
        → t ≡ record s { producer_done = true; producer = Producer.returning }
        → Step s t
    exiting :
        s.producer ≡ Producer.returning → t ≡ record s { producer = Producer.ended } → Step s t
    loading :
        s.consumer ≡ Consumer.testing
        → t ≡ record s { consumer = Consumer.tested s.producer_done }
        → Step s t
    continuing :
        (done : Bool)
        → s.consumer ≡ Consumer.tested done
        → (if done then is_empty s.order_queue else false) ≡ false
        → t ≡ record s { consumer = Consumer.popping }
        → Step s t
    leaving :
        s.consumer ≡ Consumer.tested true → is_empty s.order_queue ≡ true → t ≡ leave s → Step s t
    consuming : (null : Place) → s.consumer ≡ Consumer.popping → t ≡ consume null s → Step s t
    noting :
        (order : Place)
        → s.consumer ≡ Consumer.logging order
        → lives s.producer ≡ true
        → t ≡ note order s
        → Step s t
    missing :
        (order : Place)
        → s.consumer ≡ Consumer.logging order
        → lives s.producer ≡ false
        → t ≡ record s { consumer = Consumer.undefined }
        → Step s t

  -- Before both threads run, after `reads` readings of the clock.
  unfoldable pub start : Heap → (ℕ → Place) → ℕ → Demo
  start orders slots reads = record {
    order_queue = new_queue slots;
    pool = new_pool orders;
    reads = reads;
    producer_done = false;
    producer = Producer.making 0;
    consumer = Consumer.testing;
    processed = [];
    lines = [];
  }

  pub data Reach (orders : Heap) (slots : ℕ → Place) (reads : ℕ) : Demo → Type 0 where
    here : Reach orders slots reads (start orders slots reads)
    later : {s t : Demo} → Reach orders slots reads s → Step s t → Reach orders slots reads t

  -- The lines of `demonstrateSPSCQueue` when both threads are joined.
  abbrev pub demonstration_lines : Demo → List Line
  demonstration_lines s =
      s.lines
      ++ info_f host (codes "SPSC Queue demonstration complete. Final queue size: %zu")
          (count_of host (count queue_size s.order_queue) ∷ [])
        ∷ []
