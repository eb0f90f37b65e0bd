-- ===== src/Demo/Consuming.antt =====
-- The steps of the consumer of the demonstration keep what holds of it.
use trading_matcher.Base.{
  ℕ, suc, ◌-◌, ◌≡◌, refl, sym, ap, ◌∙◌, subst, inl, inr, true, [], ◌∷◌, ◌++◌, arith, length,
  length-append,
}
use trading_matcher.Order.{price_as_double}
use trading_matcher.PriceLevel.{Heap}
use trading_matcher.MemoryPool.{Place}
use trading_matcher.SpscQueue.Fifo.{contents}
use trading_matcher.Console.{Host}
use trading_matcher.Demo.{
  queue_size, Consumer, Demo, at, consume, note, leave, pop_line, total_line,
}
use trading_matcher.Demo.Lines.{Merge, right_end, popped, popped_lines, by_producer}
use trading_matcher.Demo.Invariant.{
  places, places-suc, Sample, Numbered, Held, IsSound, consumer-IsSound, pop_cases,
}

module _ (host : Host) where
  pop_line-Sample : (i : ℕ) (h : Heap) → Sample host h i → pop_line host (h i) ≡ popped host i
  unfolding price_as_double
  pop_line-Sample i h s = rw (s.0, s.1) refl

  pub consume-IsSound :
      (null : Place) (s : Demo)
      → IsSound host s
      → s.consumer ≡ Consumer.popping
      → IsSound host (consume host null s)
  unfolding consume
  consume-IsSound null s v p =
      let told = rw p at v.told in
      elim (pop_cases s.order_queue null v.ring) [
        | inl (e, f) ↦ rw f (consumer-IsSound host s Consumer.testing s.lines v tt tt told)
        | inr (x, rest, ring, e, f) ↦
            let n : Numbered host s.pool.pool (length s.processed) (x ∷ contents queue_size rest) =
              subst (Numbered host s.pool.pool (length s.processed)) e v.numbered in
            let grown = length-append s.processed (x ∷ []) in
            let longer : suc (length s.processed) ≡ length (s.processed ++ x ∷ []) =
              omega (arith, grown) in
            rw f (record {
              ring = ring;
              made = v.made;
              made_by = v.made_by;
              seen = tt;
              held = (length s.processed, sym longer, n.0, n.1);
              flow = omega (arith, grown, ap length e, v.flow);
              numbered =
                  subst (λ k. Numbered host s.pool.pool k (contents queue_size rest)) (sym grown)
                    n.2;
              in_order =
                  ap (λ l. l ++ x ∷ []) v.in_order
                  ∙ ap (λ y. places 0 (length s.processed) ++ y ∷ [])
                      (n.0 ∙ ap Place.pooled (omega arith))
                  ∙ places-suc 0 (length s.processed)
                  ∙ ap (places 0) longer;
              told =
                  subst (λ k. Merge (by_producer host s.producer) (popped_lines host k) s.lines)
                    {x = length s.processed} {y = length (s.processed ++ x ∷ []) - 1}
                    (omega (arith, longer)) told;
            })
      ]

  pub note-IsSound :
      (order : Place) (s : Demo)
      → IsSound host s
      → s.consumer ≡ Consumer.logging order
      → IsSound host (note host order s)
  unfolding note
  note-IsSound order s v p =
      let (k, n, place, sample) =
        subst (λ c. Held host s.pool.pool c (length s.processed)) p v.held in
      let line : pop_line host (at s.pool order) ≡ popped host k =
        ap (λ x. pop_line host (at s.pool x)) place ∙ pop_line-Sample k s.pool.pool sample in
      let told : Merge (by_producer host s.producer) (popped_lines host k) s.lines =
        subst (λ j. Merge (by_producer host s.producer) (popped_lines host j) s.lines)
          {x = length s.processed - 1} {y = k} (omega (arith, n)) (rw p at v.told) in
      consumer-IsSound host s Consumer.testing (s.lines ++ pop_line host (at s.pool order) ∷ []) v
        tt tt
        (subst
          (λ x.
            Merge (by_producer host s.producer) (popped_lines host (length s.processed))
              (s.lines ++ x ∷ []))
          (sym line)
          (subst
            (λ j.
              Merge (by_producer host s.producer) (popped_lines host j)
                (s.lines ++ popped host k ∷ []))
            (sym n) (right_end (popped host k) told)))

  pub leave-IsSound :
      (s : Demo)
      → IsSound host s
      → s.consumer ≡ Consumer.tested true
      → contents queue_size s.order_queue ≡ []
      → IsSound host (leave host s)
  unfolding leave
  leave-IsSound s v p e =
      let k = rw p at v.seen in
      consumer-IsSound host s Consumer.ended (s.lines ++ total_line host (length s.processed) ∷ [])
        v (k refl, e) tt (right_end (total_line host (length s.processed)) (rw p at v.told))
