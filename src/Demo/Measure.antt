-- ===== src/Demo/Measure.antt =====
-- What each step of the demonstration lowers, and that its threads can always step.
use trading_matcher.Base.{
  ℕ, zero, suc, ◌+◌, ◌-◌, ◌*◌, ◌<◌, ◌≤◌, ◌≡◌, ◌≢◌, ◌⊎◌, refl, sym, ap, ◌∙◌, subst, inl, inr, true,
  false, arith, length, Bool-cases,
}
use trading_matcher.MemoryPool.{Place}
use trading_matcher.SpscQueue.Fifo.{contents, count_lem}
use trading_matcher.SpscQueue.Pointers.{is_empty}
use trading_matcher.Console.{Host}
use trading_matcher.Demo.{
  order_count, queue_size, Producer, Consumer, Demo, lives, produce, report, consume, note, leave,
  Step,
}
use trading_matcher.Demo.Invariant.{IsSound, Made, pop_cases}
use native.Mathlib.Decide.{ℕ_discrete as dec_eq}

-- What the producer has still to do.
abbrev pub work_left : Producer → ℕ
work_left (Producer.making i) = 2 * (order_count - i) + 1
work_left (Producer.logging i order pushed) = 2 * (order_count - i)
work_left Producer.returning = 0
work_left Producer.ended = 0

-- What the consumer has still to do when `producer_done` is stored, with `n` orders in the queue.
abbrev pub phase : Consumer → ℕ → ℕ
phase Consumer.testing n = 5 * n + 2
phase (Consumer.tested true) n = 5 * n + 1
phase (Consumer.tested false) n = 5 * n + 4
phase Consumer.popping zero = 3
phase Consumer.popping (suc n) = 5 * n + 5
phase (Consumer.logging order) n = 5 * n + 3
phase Consumer.ended n = 0
phase Consumer.undefined n = 0

abbrev pub left : Demo → ℕ
left s = phase s.consumer (length (contents queue_size s.order_queue))

waiting :
    (s : Demo) (host : Host)
    → IsSound host s
    → is_empty s.order_queue ≡ false
    → length (contents queue_size s.order_queue) ≢ 0
unfolding is_empty trading_matcher.SpscQueue.is_empty
waiting s host v e z = ground (arith, e, (count_lem queue_size s.order_queue v.ring).1.1 z)

phase-popping : (n : ℕ) → n ≢ 0 → phase Consumer.popping n ≡ 5 * n
phase-popping zero h = absurd (h refl)
phase-popping (suc n) h = omega arith

phase_after : (n : ℕ) → phase Consumer.popping n < phase (Consumer.tested false) n
phase_after zero = omega arith
phase_after (suc n) = omega arith

phase_small : (c : Consumer) (n : ℕ) → phase c n ≤ 5 * n + 4
phase_small Consumer.testing n = omega arith
phase_small (Consumer.tested true) n = omega arith
phase_small (Consumer.tested false) n = omega arith
phase_small Consumer.popping zero = omega arith
phase_small Consumer.popping (suc n) = omega arith
phase_small (Consumer.logging order) n = omega arith
phase_small Consumer.ended n = omega arith
phase_small Consumer.undefined n = omega arith

pub work_small : (p : Producer) → work_left p ≤ 21
work_small (Producer.making i) = omega arith
work_small (Producer.logging i order pushed) = omega arith
work_small Producer.returning = omega arith
work_small Producer.ended = omega arith

pub left_small : (host : Host) (s : Demo) → IsSound host s → left s ≤ 54
left_small host s v =
    omega
      (arith, phase_small s.consumer (length (contents queue_size s.order_queue)), v.flow, v.made)

-- Nothing new for the producer, and less for the consumer.
abbrev pub Lowers : Demo → Demo → Type 0
Lowers s t = (t.producer ≡ s.producer) × (t.producer_done ≡ s.producer_done) × (left t < left s)

-- The orders that the consumer has not read: those in the queue, and one that it holds.
abbrev pub held_count : Consumer → ℕ
held_count Consumer.testing = 0
held_count (Consumer.tested done) = 0
held_count Consumer.popping = 0
held_count (Consumer.logging order) = 1
held_count Consumer.ended = 0
held_count Consumer.undefined = 1

abbrev pub unread : Demo → ℕ
unread s = length (contents queue_size s.order_queue) + held_count s.consumer

module _ (host : Host) where
  consume-Lowers :
      (null : Place) (s : Demo)
      → IsSound host s
      → s.consumer ≡ Consumer.popping
      → Lowers s (consume host null s) × (unread (consume host null s) ≡ unread s)
  unfolding consume
  consume-Lowers null s v p = elim (pop_cases s.order_queue null v.ring) [
    | inl (e, f) ↦ rw (f, p, e) ((refl, refl, omega arith), refl)
    | inr (x, rest, ring, e, f) ↦ rw (f, p, e) ((refl, refl, omega arith), omega arith)
  ]

  -- Once `producer_done` is stored, a step is the end of the producer's thread, or one of the consumer.
  pub Step-Lowers :
      (s t : Demo)
      → IsSound host s
      → s.producer_done ≡ true
      → Step host s t
      → ((s.producer ≡ Producer.returning) × (t.producer ≡ Producer.ended)) ⊎ Lowers s t
  unfolding leave note
  Step-Lowers s t v d (Step.producing i p h e) =
      let m = subst (λ x. Made host s.pool.pool x s.pool.next_free s.producer_done) p v.made_by in
      absurd (ground (arith, m.1, d))
  Step-Lowers s t v d (Step.reporting i order done p e) =
      let m = subst (λ x. Made host s.pool.pool x s.pool.next_free s.producer_done) p v.made_by in
      absurd (ground (arith, m.1, d))
  Step-Lowers s t v d (Step.finishing p e) =
      let m = subst (λ x. Made host s.pool.pool x s.pool.next_free s.producer_done) p v.made_by in
      absurd (ground (arith, m.1, d))
  Step-Lowers s t v d (Step.exiting p e) = inl (p, ap (λ x. x.producer) e)
  Step-Lowers s t v d (Step.loading p e) =
      inr (subst (Lowers s) (sym e) (refl, refl, rw (p, d) (omega arith)))
  Step-Lowers s t v d (Step.continuing true p h e) =
      let n = waiting s host v h in
      inr (subst (Lowers s) (sym e) (refl, refl, rw p (omega (arith, phase-popping _ n))))
  Step-Lowers s t v d (Step.continuing false p h e) = inr (
      subst (Lowers s) (sym e)
        (refl, refl, rw p (phase_after (length (contents queue_size s.order_queue)))))
  Step-Lowers s t v d (Step.leaving p h e) =
      inr (subst (Lowers s) (sym e) (refl, refl, rw p (omega arith)))
  Step-Lowers s t v d (Step.consuming null p e) =
      inr (subst (Lowers s) (sym e) (consume-Lowers null s v p).0)
  Step-Lowers s t v d (Step.noting order p alive e) =
      inr (subst (Lowers s) (sym e) (refl, refl, rw p (omega arith)))
  Step-Lowers s t v d (Step.missing order p dead e) =
      inr (subst (Lowers s) (sym e) (refl, refl, rw p (omega arith)))

  -- After the end of the producer's thread no order is read any more.
  pub Step-unread :
      (s t : Demo)
      → IsSound host s
      → s.producer ≡ Producer.ended
      → Step host s t
      → unread t ≡ unread s
  unfolding leave note
  Step-unread s t v d (Step.producing i p h e) = absurd (cc)
  Step-unread s t v d (Step.reporting i order done p e) = absurd (cc)
  Step-unread s t v d (Step.finishing p e) = absurd (cc)
  Step-unread s t v d (Step.exiting p e) = absurd (cc)
  Step-unread s t v d (Step.loading p e) = rw (e, p) refl
  Step-unread s t v d (Step.continuing done p h e) = rw (e, p) refl
  Step-unread s t v d (Step.leaving p h e) = rw (e, p) refl
  Step-unread s t v d (Step.consuming null p e) = rw e (consume-Lowers null s v p).1
  Step-unread s t v d (Step.noting order p alive e) = let dead = rw d at alive in absurd (cc)
  Step-unread s t v d (Step.missing order p dead e) = rw (e, p) refl

  -- The consumer has come to its end or to an order that is destroyed, or it can take a step.
  pub consumer_moves :
      (s : Demo) (c : Consumer)
      → IsSound host s
      → s.consumer ≡ c
      → (s.consumer ≡ Consumer.ended)
        ⊎ ((s.consumer ≡ Consumer.undefined)
            ⊎ ((t : Demo) × Step host s t × (t.producer ≡ s.producer)))
  unfolding leave note
  consumer_moves s Consumer.testing v p = inr (inr (_, Step.loading p refl, refl))
  consumer_moves s (Consumer.tested false) v p =
      inr (inr (_, Step.continuing false p refl refl, refl))
  consumer_moves s (Consumer.tested true) v p = elim (Bool-cases (is_empty s.order_queue)) [
    | inl e ↦ inr (inr (_, Step.leaving p e refl, refl))
    | inr e ↦ inr (inr (_, Step.continuing true p e refl, refl))
  ]
  consumer_moves s Consumer.popping v p =
      let null = Place.heaped 0 in
      inr (inr (_, Step.consuming null p refl, (consume-Lowers null s v p).0.0))
  consumer_moves s (Consumer.logging order) v p = elim (Bool-cases (lives s.producer)) [
    | inl e ↦ inr (inr (_, Step.noting order p e refl, refl))
    | inr e ↦ inr (inr (_, Step.missing order p e refl, refl))
  ]
  consumer_moves s Consumer.ended v p = inl p
  consumer_moves s Consumer.undefined v p = inr (inl p)

  -- A producer that has not stored `producer_done` can take a step.
  pub producer_moves :
      (s : Demo) (p : Producer)
      → IsSound host s
      → s.producer ≡ p
      → lives p ≡ true
      → (s.producer ≡ Producer.returning)
        ⊎ ((t : Demo) × Step host s t
            × (lives t.producer ≡ true)
            × (work_left t.producer < work_left s.producer))
  unfolding produce report
  producer_moves s (Producer.making i) v p a = elim (dec_eq i order_count) [
    | yes e ↦ inr (_, Step.finishing (p ∙ ap Producer.making e) refl, refl, rw p (omega arith))
    | no n ↦
        let m = subst (λ x. Made host s.pool.pool x s.pool.next_free s.producer_done) p v.made_by in
        let small : i < order_count = omega (arith, v.made, m.0, n) in
        inr (_, Step.producing i p small refl, refl, rw p (omega (arith, small)))
  ]
  producer_moves s (Producer.logging i order done) v p a =
      let m = subst (λ x. Made host s.pool.pool x s.pool.next_free s.producer_done) p v.made_by in
      inr (_, Step.reporting i order done p refl, refl, rw p (omega (arith, v.made, m.0)))
  producer_moves s Producer.returning v p a = inl p
  producer_moves s Producer.ended v p a = absurd (cc)
