-- ===== src/Demo/Delivery.antt =====
-- What the two threads of the demonstration have done and logged when the consumer leaves its loop.
use trading_matcher.Base.{ℕ, ◌≤◌, ◌≡◌, refl, sym, ap, ◌∙◌, subst, [], ◌∷◌, ◌++◌, arith, length}
use trading_matcher.PriceLevel.{Heap}
use trading_matcher.MemoryPool.{Place, new_pool}
use trading_matcher.SpscQueue
use trading_matcher.SpscQueue.{Queue}
use trading_matcher.SpscQueue.Fifo.{count_lem}
use trading_matcher.SpscQueue.Pointers.{count, pop_agrees}
use trading_matcher.Console.{Host}
use trading_matcher.Demo.{order_count, queue_size, Consumer, Demo, total_line, Step, start, Reach}
use trading_matcher.Demo.Lines.{Merge, pushed_lines, popped_lines, by_consumer}
use trading_matcher.Demo.Invariant.{
  places, Made, IsSound, consumer-IsSound, Seen-done, empty-contents, Made-done,
}
use trading_matcher.Demo.Producing.{produce-IsSound, report-IsSound}
use trading_matcher.Demo.Consuming.{consume-IsSound, note-IsSound, leave-IsSound}

module _ (host : Host) where
  pub Step-IsSound : (s t : Demo) → IsSound host s → Step host s t → IsSound host t
  Step-IsSound s t v (Step.producing i p h e) =
      subst (IsSound host) (sym e) (produce-IsSound host i s v p h)
  Step-IsSound s t v (Step.reporting i order done p e) =
      subst (IsSound host) (sym e) (report-IsSound host i order done s v p)
  Step-IsSound s t v (Step.finishing p e) =
      let m = subst (λ x. Made host s.pool.pool x s.pool.next_free s.producer_done) p v.made_by in
      subst (IsSound host) (sym e) (record {
        ring = v.ring;
        made = v.made;
        made_by = (m.0, refl);
        seen = Seen-done s.consumer s.producer_done _ m.1 v.seen;
        held = v.held;
        flow = v.flow;
        numbered = v.numbered;
        in_order = v.in_order;
        told = rw p at v.told;
      })
  Step-IsSound s t v (Step.exiting p e) =
      let m = subst (λ x. Made host s.pool.pool x s.pool.next_free s.producer_done) p v.made_by in
      subst (IsSound host) (sym e) (record {
        ring = v.ring;
        made = v.made;
        made_by = m;
        seen = v.seen;
        held = v.held;
        flow = v.flow;
        numbered = v.numbered;
        in_order = v.in_order;
        told = rw p at v.told;
      })
  Step-IsSound s t v (Step.loading p e) = subst (IsSound host) (sym e) (
      consumer-IsSound host s (Consumer.tested s.producer_done) s.lines v (λ h. h) tt
        (rw p at v.told))
  Step-IsSound s t v (Step.continuing done p h e) =
      subst (IsSound host) (sym e)
        (consumer-IsSound host s Consumer.popping s.lines v tt tt (rw p at v.told))
  Step-IsSound s t v (Step.leaving p h e) =
      subst (IsSound host) (sym e)
        (leave-IsSound host s v p (empty-contents s.order_queue v.ring h))
  Step-IsSound s t v (Step.consuming null p e) =
      subst (IsSound host) (sym e) (consume-IsSound host null s v p)
  Step-IsSound s t v (Step.noting order p alive e) =
      subst (IsSound host) (sym e) (note-IsSound host order s v p)
  Step-IsSound s t v (Step.missing order p dead e) =
      subst (IsSound host) (sym e)
        (consumer-IsSound host s Consumer.undefined s.lines v tt tt (rw p at v.told))

  start-IsSound :
      (orders : Heap) (slots : ℕ → Place) (reads : ℕ) → IsSound host (start host orders slots reads)
  unfolding start new_pool trading_matcher.SpscQueue.count
  start-IsSound orders slots reads = record {
    ring = record {
      power = (10, refl);
      several = omega arith;
      read_in = omega arith;
      write_in = omega arith;
    };
    made = omega arith;
    made_by = (refl, refl);
    seen = tt;
    held = tt;
    flow = refl;
    numbered = tt;
    in_order = refl;
    told = Merge.none;
  }

  pub Reach-IsSound :
      (orders : Heap) (slots : ℕ → Place) (reads : ℕ) (s : Demo)
      → Reach host orders slots reads s
      → IsSound host s
  Reach-IsSound orders slots reads s Reach.here = start-IsSound orders slots reads
  Reach-IsSound orders slots reads s (Reach.later q step) =
      Step-IsSound _ s (Reach-IsSound orders slots reads _ q) step

-- However the steps of the two threads interleave, the consumer has at all times popped the pointers to
-- the slots 0, 1, … of the producer's pool, each once and in order.
pub Reach-in_order :
    (host : Host) (orders : Heap) (slots : ℕ → Place) (reads : ℕ) (s : Demo)
    → Reach host orders slots reads s
    → (s.processed ≡ places 0 (length s.processed)) × (length s.processed ≤ order_count)
Reach-in_order host orders slots reads s reach =
    let v = Reach-IsSound host orders slots reads s reach in
    (v.in_order, omega (arith, v.flow, v.made))

-- However the steps of the two threads interleave: when the consumer has left its loop, so without
-- having read an order of a pool that is destroyed, it has popped the pointers to all ten orders of the
-- producer, each once and in order, and the size of the queue that is printed is 0. The lines that were logged are the ten of the producer, one for each push, none of
-- which failed, and the ten of the consumer, one for each order with its id and price, before the one
-- on the number of them: those of each thread in their order, merged in some way.
pub Reach-all_processed :
    (host : Host) (orders : Heap) (slots : ℕ → Place) (reads : ℕ) (s : Demo)
    → Reach host orders slots reads s
    → s.consumer ≡ Consumer.ended
    → (s.processed ≡ places 0 order_count)
      × (count queue_size s.order_queue ≡ 0)
      × Merge
          (pushed_lines host order_count)
          (popped_lines host order_count ++ total_line host order_count ∷ [])
          s.lines
Reach-all_processed host orders slots reads s reach e =
    let v = Reach-IsSound host orders slots reads s reach in
    let q = s.order_queue in
    let k = rw e at v.seen in
    let (done, made) =
      Made-done host s.pool.pool s.producer s.pool.next_free s.producer_done v.made_by k.0 in
    let all : length s.processed ≡ order_count = omega (arith, v.flow, made, ap length k.1) in
    (
      v.in_order ∙ ap (places 0) all,
      (pop_agrees queue_size q (q.buffer 0)).3 ∙ (count_lem queue_size q v.ring).0 ∙ ap length k.1,
      subst
          (λ n.
            Merge (pushed_lines host order_count) (popped_lines host n ++ total_line host n ∷ [])
              s.lines)
          all
          (subst (λ made. Merge made (by_consumer host Consumer.ended (length s.processed)) s.lines)
            done (rw e at v.told)),
    )
