-- ===== src/Demo/Outliving.antt =====
-- Orders that wait in the queue when the thread whose pool they are in has ended.
use trading_matcher.Base.{
  ℕ, zero, suc, ◌-◌, ◌<◌, ◌≤◌, ◌≡◌, refl, ap, ◌∙◌, subst, inl, inr, true, [], ◌∷◌, arith, length,
  length-append,
}
use trading_matcher.PriceLevel.{Heap}
use trading_matcher.MemoryPool.{Place}
use trading_matcher.SpscQueue.Fifo.{contents, count_lem}
use trading_matcher.SpscQueue.Pointers.{count, pop_agrees}
use trading_matcher.Console.{Host}
use trading_matcher.Demo.{
  order_count, queue_size, Producer, Consumer, Demo, produce, report, consume, note, Step, start,
  Reach,
}
use trading_matcher.Demo.Invariant.{IsSound, Made, Numbered, pop_cases}
use trading_matcher.Demo.Delivery.{Reach-IsSound}

module _ (host : Host) (orders : Heap) (slots : ℕ → Place) (reads : ℕ) where
  -- The producer has made `i` orders and the consumer has processed `n`, and tests its loop.
  record Between (i n : ℕ) : Type 0 where
    pub state : Demo
    pub reached : Reach host orders slots reads state
    pub made : state.producer ≡ Producer.making i
    pub tests : state.consumer ≡ Consumer.testing
    pub taken : length state.processed ≡ n

  makes : (i : ℕ) → i ≤ order_count → Between i 0
  unfolding start produce report
  makes zero h = record {
    state = start host orders slots reads;
    reached = Reach.here;
    made = refl;
    tests = refl;
    taken = refl;
  }
  makes (suc i) h =
      let b = makes i (omega arith) in
      record {
        state = _;
        reached =
            Reach.later (Reach.later b.reached (Step.producing i b.made (omega arith) refl))
              (Step.reporting i _ _ refl refl);
        made = ap Producer.making (omega arith);
        tests = b.tests;
        taken = b.taken;
      }

  popping : Demo → Demo
  popping s = record s { consumer = Consumer.popping }

  -- A `pop` while an order waits.
  consume-some :
      (s : Demo)
      → IsSound host s
      → 0 < length (contents queue_size s.order_queue)
      → (x : Place) × ((consume host (Place.heaped 0) (popping s)).consumer ≡ Consumer.logging x)
        × ((consume host (Place.heaped 0) (popping s)).producer ≡ s.producer)
        × (length (consume host (Place.heaped 0) (popping s)).processed ≡ suc (length s.processed))
  unfolding consume popping
  consume-some s v h = elim (pop_cases s.order_queue (Place.heaped 0) v.ring) [
    | inl (e, f) ↦ absurd (omega (arith, h, ap length e))
    | inr (x, rest, ring, e, f) ↦
        rw f (x, refl, refl, omega (arith, length-append s.processed (x ∷ [])))
  ]

  takes : (n : ℕ) → n ≤ order_count → Between order_count n
  unfolding note popping
  takes zero h = makes order_count (omega arith)
  takes (suc n) h =
      let b = takes n (omega arith) in
      let s = b.state in
      let v = Reach-IsSound host orders slots reads s b.reached in
      let m =
        subst (λ x. Made host s.pool.pool x s.pool.next_free s.producer_done) b.made v.made_by in
      let waits : 0 < length (contents queue_size s.order_queue) =
        omega (arith, v.flow, m.0, b.taken) in
      let (x, holds, same, more) = consume-some s v waits in
      record {
        state = note host x (consume host (Place.heaped 0) (popping s));
        reached =
            Reach.later
              (Reach.later
                (Reach.later (Reach.later b.reached (Step.loading b.tests refl))
                  (Step.continuing s.producer_done refl (rw m.1 refl) refl))
                (Step.consuming (Place.heaped 0) refl refl))
              (Step.noting x holds (rw (same ∙ b.made) refl) refl);
        made = same ∙ b.made;
        tests = refl;
        taken = more ∙ ap suc b.taken;
      }

-- The consumer may have processed any number of the ten orders when the producer ends: all others then
-- wait in the queue, and each is in a slot of the pool of the thread that has ended.
pub Reach-outlives :
    (host : Host) (orders : Heap) (slots : ℕ → Place) (reads n : ℕ)
    → n ≤ order_count
    → (s : Demo) × Reach host orders slots reads s
      × (s.producer ≡ Producer.ended)
      × (length s.processed ≡ n)
      × (count queue_size s.order_queue ≡ order_count - n)
      × Numbered host s.pool.pool n (contents queue_size s.order_queue)
Reach-outlives host orders slots reads n h =
    let b = takes host orders slots reads n h in
    let s = record b.state { producer_done = true; producer = Producer.ended } in
    let reach =
      Reach.later (Reach.later b.reached (Step.finishing b.made refl)) (Step.exiting refl refl) in
    let v = Reach-IsSound host orders slots reads s reach in
    let q = s.order_queue in
    (
      s,
      reach,
      refl,
      b.taken,
      (pop_agrees queue_size q (q.buffer 0)).3
          ∙ (count_lem queue_size q v.ring).0
          ∙ omega (arith, v.flow, v.made_by.0, b.taken),
      subst (λ k. Numbered host s.pool.pool k (contents queue_size q)) b.taken v.numbered,
    )
