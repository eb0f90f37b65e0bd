-- ===== src/Tests/Demo.antt =====
-- The demonstration run to its end, and a run that leaves the consumer with an order of a thread that
-- has ended.
use trading_matcher.Base.{
  ℕ, zero, suc, ◌≤◌, ◌<◌, ◌⊎◌, ◌-◌, ◌≡◌, pos, refl, ap, true, arith, ◌+ℤ◌, ◌*ℤ◌, ◌+◌, ◌++◌, ◌∷◌, [],
  length,
}
use trading_matcher.Timestamp.{get_timestamp_ns, to_ns}
use trading_matcher.Order.{empty_order, double_to_price}
use trading_matcher.MemoryPool.{Place, new_pool, allocate}
use trading_matcher.SpscQueue.{next_index}
use trading_matcher.SpscQueue.Pointers.{push, count}
use trading_matcher.Demo.{
  order_count, queue_size, pool_size, Producer, Consumer, Demo, sample_order, produce, report,
  total_line, demonstration_lines, Step, start, Reach,
}
use trading_matcher.Demo.Lines.{Merge, pushed_lines, popped_lines}
use trading_matcher.Demo.Invariant.{places, Numbered}
use trading_matcher.Demo.Outliving.{Reach-outlives}
use trading_matcher.SpscQueue.Fifo.{contents}
use trading_matcher.Demo.Delivery.{Reach-all_processed}
use trading_matcher.Demo.Ending.{Steps, Reach-Steps, Reach-ends, Steps-end}
use trading_matcher.Demo.Measure.{unread}
use trading_matcher.Tests.Host.{host}

abbrev null : Place
null = Place.heaped 0

abbrev Reached : Demo → Type 0
Reached = Reach host (λ r. empty_order) (λ i. null) 0

-- After the first `n` iterations of the producer.
made : ℕ → Demo
made zero = start host (λ r. empty_order) (λ i. null) 0
made (suc n) =
    let order = (allocate pool_size (made n).pool).1 in
    report host n order (push queue_size (made n).order_queue order).1 (produce host n (made n))

made-Reached :
    (n : ℕ)
    → n ≤ order_count
    → ((made n).producer ≡ Producer.making n)
      × ((made n).consumer ≡ Consumer.testing)
      × Reached (made n)
unfolding made start produce report
made-Reached zero h = (refl, refl, Reach.here)
made-Reached (suc n) h =
    let (p, c, r) = made-Reached n (omega arith) in
    (
      ap Producer.making (omega arith),
      c,
      Reach.later (Reach.later r (Step.producing n p (omega arith) refl))
          (Step.reporting n _ _ refl refl),
    )

-- The thread of the producer ends at once after its last line: all orders still wait in the queue, and
-- the `thread_local` pool that they are in is destroyed.
abbrev returned : Demo
returned = record (made order_count) { producer_done = true; producer = Producer.returning }

abbrev left_over : Demo
left_over = record returned { producer = Producer.ended }

returned-Reached : Reached returned
returned-Reached =
    let (p, c, r) = made-Reached order_count (omega arith) in Reach.later r (Step.finishing p refl)

left_over-Reached : Reached left_over
left_over-Reached = Reach.later returned-Reached (Step.exiting refl refl)

left_behind :
    (count queue_size left_over.order_queue ≡ 10)
    × (length (demonstration_lines host left_over) ≡ 11)
unfolding made produce report start push count next_index allocate new_pool
left_behind = (refl, refl)

Reach-outlives_example :
    (s : Demo) × Reached s
    × (s.producer ≡ Producer.ended)
    × (length s.processed ≡ 4)
    × (count queue_size s.order_queue ≡ 10 - 4)
    × Numbered host s.pool.pool 4 (contents queue_size s.order_queue)
Reach-outlives_example = Reach-outlives host (λ r. empty_order) (λ i. null) 0 4 (omega arith)

-- The consumer has then looked at the flag.
abbrev looked : Demo
looked = record left_over { consumer = Consumer.tested true }

looked-Steps : Steps host 1 left_over looked
looked-Steps = Steps.first (Step.loading (made-Reached order_count (omega arith)).1 refl) Steps.none

Steps-end_example :
    (u : Demo) × (k : ℕ) × Steps host k looked u
    × (1 + k ≤ 54)
    × (((unread left_over ≡ 0) × (u.consumer ≡ Consumer.ended))
        ⊎ ((0 < unread left_over) × (u.consumer ≡ Consumer.undefined)))
Steps-end_example =
    Steps-end host (λ r. empty_order) (λ i. null) 0 left_over 1 looked left_over-Reached refl
      looked-Steps

Reach-ends_example :
    (t : Demo) × (k : ℕ) × Steps host k returned t
    × (t.producer ≡ Producer.ended)
    × (t.consumer ≡ Consumer.ended)
    × (k ≤ 76)
Reach-ends_example =
    Reach-ends host (λ r. empty_order) (λ i. null) 0 returned returned-Reached (λ e. cc)

-- A state in which both threads have ended, and no order was read after its pool was destroyed.
run_on :
    (t : Demo) × (k : ℕ) × Steps host k returned t
    × (t.producer ≡ Producer.ended)
    × (t.consumer ≡ Consumer.ended)
    × (k ≤ 76)
run_on = Reach-ends host (λ r. empty_order) (λ i. null) 0 returned returned-Reached (λ e. cc)

last : Demo
last = run_on.0

last-ended : last.consumer ≡ Consumer.ended
unfolding last
last-ended = run_on.4

last-Reached : Reached last
unfolding last
last-Reached = Reach-Steps returned-Reached run_on.2

Reach-all_processed_example :
    (last.processed ≡ places 0 10)
    × (count queue_size last.order_queue ≡ 0)
    × Merge (pushed_lines host 10) (popped_lines host 10 ++ total_line host 10 ∷ []) last.lines
Reach-all_processed_example =
    Reach-all_processed host (λ r. empty_order) (λ i. null) 0 last last-Reached last-ended

orders_run : ((made 2).pool.pool 1).price_scaled ≡ pos 100_100_000
unfolding made produce report start sample_order double_to_price get_timestamp_ns to_ns allocate
    new_pool ◌+ℤ◌ ◌*ℤ◌
orders_run = refl
