-- ===== src/Demo/Producing.antt =====
-- The steps of the producer of the demonstration keep what holds of it.
use trading_matcher.Base.{
  ℕ, suc, ◌+◌, ◌<◌, ◌≡◌, refl, Bool, sym, ap, ◌∙◌, subst, inl, inr, true, [], ◌∷◌, ◌++◌, arith,
  length, length-append,
}
use trading_matcher.Order.{Order, empty_order}
use trading_matcher.PriceLevel.{write}
use trading_matcher.MemoryPool.{Place}
use trading_matcher.SpscQueue
use trading_matcher.SpscQueue.{Queue}
use trading_matcher.SpscQueue.Fifo.{contents, push-IsRing, push_refines}
use trading_matcher.SpscQueue.Pointers.{push}
use trading_matcher.Console.{Host}
use trading_matcher.Demo.{
  order_count, queue_size, Producer, Consumer, Demo, at, sample_order, produce, report, consume,
  note, leave, push_line, pop_line, total_line, Step, start, Reach,
}
use trading_matcher.Demo.Lines.{Merge, left_end, pushed, pushed_lines, by_producer, by_consumer}
use trading_matcher.Demo.Invariant.{
  Sample, Sample-made, Numbered, Numbered-push, Made, Held-write, Seen-open, capacity_lem, IsSound,
  allocate-pooled,
}

module _ (host : Host) where
  produce-eq :
      (i : ℕ) (s : Demo)
      → s.pool.next_free < order_count
      → let k = s.pool.next_free in
        let (queue, done) =
          trading_matcher.SpscQueue.push queue_size s.order_queue (Place.pooled k) in
        produce host i s ≡ record s {
          pool = record s.pool {
            next_free = k + 1;
            pool = write (write s.pool.pool k empty_order) k (sample_order host i s.reads);
          };
          reads = s.reads + 1;
          order_queue = queue;
          producer = Producer.logging i (Place.pooled k) done;
        }
  unfolding produce push trading_matcher.SpscQueue.push
  produce-eq i s h = rw (allocate-pooled s.pool h, produce) refl

  pub produce-IsSound :
      (i : ℕ) (s : Demo)
      → IsSound host s
      → s.producer ≡ Producer.making i
      → i < order_count
      → IsSound host (produce host i s)
  unfolding sample_order
  produce-IsSound i s v p h =
      let m = subst (λ x. Made host s.pool.pool x s.pool.next_free s.producer_done) p v.made_by in
      let k = s.pool.next_free in
      let g = write (write s.pool.pool k empty_order) k (sample_order host i s.reads) in
      let fresh : Sample host g k =
        Sample-made host s.pool.pool k empty_order (sample_order host i s.reads)
          (omega (arith, m.0)) (ap (λ j. trading_matcher.Demo.price_of host j) (sym m.0)) in
      elim (push_refines queue_size s.order_queue (Place.pooled k) v.ring) [
        | inl (full, e) ↦ absurd (ground (arith, full, v.flow, m.0, capacity_lem))
        | inr (room, ok, e) ↦
            subst (IsSound host) (sym (produce-eq i s (omega (arith, m.0)))) (record {
              ring = push-IsRing queue_size s.order_queue (Place.pooled k) v.ring;
              made = omega (arith, m.0);
              made_by = (
                omega (arith, m.0),
                m.1,
                ap Place.pooled m.0,
                ok,
                subst (Sample host g) m.0 fresh,
              );
              seen = Seen-open s.consumer s.producer_done _ _ m.1 v.seen;
              held =
                  Held-write host s.pool.pool k empty_order (sample_order host i s.reads) s.consumer
                    (length s.processed) (omega (arith, v.flow)) v.held;
              flow = omega (
                arith,
                ap length e,
                length-append (contents queue_size s.order_queue) (Place.pooled k ∷ []),
                v.flow,
              );
              numbered = subst (Numbered host g (length s.processed)) (sym e) (
                  Numbered-push host s.pool.pool k (length s.processed) empty_order
                    (sample_order host i s.reads) _ v.numbered v.flow fresh);
              in_order = v.in_order;
              told =
                  subst
                    (λ x.
                      Merge (by_producer host x) (by_consumer host s.consumer (length s.processed))
                        s.lines)
                    p v.told;
            })
      ]

  push_line-Sample :
      (i : ℕ) (o : Order) (done : Bool)
      → o.id ≡ 100 + i
      → done ≡ true
      → push_line host o done ≡ pushed host i
  push_line-Sample i o done e f = rw (e, f) refl

  pub report-IsSound :
      (i : ℕ) (order : Place) (done : Bool) (s : Demo)
      → IsSound host s
      → s.producer ≡ Producer.logging i order done
      → IsSound host (report host i order done s)
  unfolding report
  report-IsSound i order done s v p =
      let m = subst (λ x. Made host s.pool.pool x s.pool.next_free s.producer_done) p v.made_by in
      let line : push_line host (at s.pool order) done ≡ pushed host i =
        push_line-Sample i (at s.pool order) done (ap (λ x. (at s.pool x).id) m.2 ∙ m.4.0) m.3 in
      record {
        ring = v.ring;
        made = v.made;
        made_by = (m.0, m.1);
        seen = v.seen;
        held = v.held;
        flow = v.flow;
        numbered = v.numbered;
        in_order = v.in_order;
        told = rw line (
            subst
              (λ n.
                Merge (pushed_lines host n) (by_consumer host s.consumer (length s.processed))
                  (s.lines ++ pushed host i ∷ []))
              {x = suc i} {y = i + 1} (omega arith) (left_end (pushed host i) (rw p at v.told)));
      }
