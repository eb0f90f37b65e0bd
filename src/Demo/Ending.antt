-- ===== src/Demo/Ending.antt =====
-- The threads of the demonstration come to an end.
use trading_matcher.Base.{
  ℕ, zero, suc, ◌+◌, ◌<◌, ◌≤◌, ◌≡◌, ◌≢◌, ◌⊎◌, ◌∙◌, refl, sym, ap, subst, inl, inr, true, false,
  arith,
}
use trading_matcher.PriceLevel.{Heap}
use trading_matcher.MemoryPool.{Place}
use trading_matcher.Console.{Host}
use trading_matcher.Demo.{
  Producer, Consumer, Demo, lives, start, produce, report, consume, note, leave, Step, Reach,
}
use trading_matcher.Demo.Invariant.{IsSound, Made, pop_cases}
use trading_matcher.Demo.Delivery.{Step-IsSound, Reach-IsSound}
use trading_matcher.Demo.Measure.{
  work_left, left, Lowers, unread, work_small, left_small, Step-Lowers, Step-unread, consumer_moves,
  producer_moves,
}

-- `n` steps of the threads, in any order.
pub data Steps (host : Host) : ℕ → Demo → Demo → Type 0 where
  none : {s : Demo} → Steps host zero s s
  first : {n : ℕ} {s t u : Demo} → Step host s t → Steps host n t u → Steps host (suc n) s u

Steps-join :
    {host : Host} {m n : ℕ} {s t u : Demo}
    → Steps host m s t
    → Steps host n t u
    → (k : ℕ) × (k ≡ m + n) × Steps host k s u
Steps-join Steps.none q = (_, omega arith, q)
Steps-join (Steps.first step p) q =
    let (k, e, r) = Steps-join p q in (suc k, omega (arith, e), Steps.first step r)

pub Reach-Steps :
    {host : Host} {orders : Heap} {slots : ℕ → Place} {reads n : ℕ} {s t : Demo}
    → Reach host orders slots reads s
    → Steps host n s t
    → Reach host orders slots reads t
Reach-Steps r Steps.none = r
Reach-Steps r (Steps.first step p) = Reach-Steps (Reach.later r step) p

lives-ended : (p : Producer) → lives p ≡ false → p ≡ Producer.ended
lives-ended (Producer.making i) h = absurd (cc)
lives-ended (Producer.logging i order done) h = absurd (cc)
lives-ended Producer.returning h = absurd (cc)
lives-ended Producer.ended h = refl

ended-lives : (p : Producer) → p ≢ Producer.ended → lives p ≡ true
ended-lives (Producer.making i) h = refl
ended-lives (Producer.logging i order done) h = refl
ended-lives Producer.returning h = refl
ended-lives Producer.ended h = absurd (h refl)

consume-defined :
    (host : Host) (null : Place) (s : Demo)
    → IsSound host s
    → (consume host null s).consumer ≢ Consumer.undefined
unfolding consume
consume-defined host null s v e = elim (pop_cases s.order_queue null v.ring) [
  | inl (f, g) ↦ let h = rw g at e in absurd (cc)
  | inr (x, rest, ring, f, g) ↦ let h = rw g at e in absurd (cc)
]

module _ (host : Host) where
  producer_returns :
      (w : ℕ) (s : Demo)
      → IsSound host s
      → lives s.producer ≡ true
      → work_left s.producer ≤ w
      → (t : Demo) × (k : ℕ) × Steps host k s t
        × IsSound host t
        × (t.producer ≡ Producer.returning)
        × (k ≤ w)
  producer_returns zero s v a h = elim (producer_moves host s s.producer v refl a) [
    | inl e ↦ (s, 0, Steps.none, v, e, omega arith)
    | inr (u, step, alive, less) ↦ absurd (omega (arith, less, h))
  ]
  producer_returns (suc w) s v a h = elim (producer_moves host s s.producer v refl a) [
    | inl e ↦ (s, 0, Steps.none, v, e, omega arith)
    | inr (u, step, alive, less) ↦
        let (t, k, steps, sound, e, l) =
          producer_returns w u (Step-IsSound host s u v step) alive (omega (arith, less, h)) in
        (t, suc k, Steps.first step steps, sound, e, omega (arith, l))
  ]

  goes_down :
      (s u : Demo)
      → IsSound host s
      → s.producer_done ≡ true
      → Step host s u
      → u.producer ≡ s.producer
      → Lowers s u
  goes_down s u v d step same = elim (Step-Lowers host s u v d step) [
    | inl (p, q) ↦ absurd (cc)
    | inr l ↦ l
  ]

  -- Once `producer_done` is stored, the consumer can go on until it has come to its end or to an order
  -- that is destroyed.
  consumer_ends :
      (w : ℕ) (s : Demo)
      → IsSound host s
      → s.producer_done ≡ true
      → left s ≤ w
      → (t : Demo) × (k : ℕ) × Steps host k s t
        × IsSound host t
        × (t.producer ≡ s.producer)
        × ((t.consumer ≡ Consumer.ended) ⊎ (t.consumer ≡ Consumer.undefined))
        × (k ≤ w)
  consumer_ends zero s v d h = elim (consumer_moves host s s.consumer v refl) [
    | inl e ↦ (s, 0, Steps.none, v, refl, inl e, omega arith)
    | inr (inl e) ↦ (s, 0, Steps.none, v, refl, inr e, omega arith)
    | inr (inr (u, step, same)) ↦ absurd (omega (arith, (goes_down s u v d step same).2, h))
  ]
  consumer_ends (suc w) s v d h = elim (consumer_moves host s s.consumer v refl) [
    | inl e ↦ (s, 0, Steps.none, v, refl, inl e, omega arith)
    | inr (inl e) ↦ (s, 0, Steps.none, v, refl, inr e, omega arith)
    | inr (inr (u, step, same)) ↦
        let less = goes_down s u v d step same in
        let (t, k, steps, sound, p, e, l) =
          consumer_ends w u (Step-IsSound host s u v step) (less.1 ∙ d)
            (omega (arith, less.2, h)) in
        (t, suc k, Steps.first step steps, sound, p ∙ same, e, omega (arith, l))
  ]

  done_ended : (s : Demo) → IsSound host s → s.producer ≡ Producer.ended → s.producer_done ≡ true
  done_ended s v p =
      (subst (λ x. Made host s.pool.pool x s.pool.next_free s.producer_done) p v.made_by).1

  done_returning :
      (s : Demo) → IsSound host s → s.producer ≡ Producer.returning → s.producer_done ≡ true
  done_returning s v p =
      (subst (λ x. Made host s.pool.pool x s.pool.next_free s.producer_done) p v.made_by).1

  -- `n` steps after the end of the producer's thread.
  Steps-Lowers :
      (n : ℕ) (s t : Demo)
      → IsSound host s
      → s.producer ≡ Producer.ended
      → Steps host n s t
      → IsSound host t
        × (t.producer ≡ Producer.ended)
        × (n + left t ≤ left s)
        × (unread t ≡ unread s)
  Steps-Lowers zero s t v p Steps.none = (v, p, omega arith, refl)
  Steps-Lowers (suc n) s t v p (Steps.first {t = x} step steps) =
      elim (Step-Lowers host s x v (done_ended s v p) step) [
        | inl (q, r) ↦ absurd (cc)
        | inr l ↦
            let (sound, ended, less, same) =
              Steps-Lowers n x t (Step-IsSound host s x v step) (l.0 ∙ p) steps in
            (sound, ended, omega (arith, less, l.2), same ∙ Step-unread host s x v p step)
      ]

  -- The consumer that has come to its end has read all, and the other one has not.
  unread_end :
      (t : Demo)
      → IsSound host t
      → (t.consumer ≡ Consumer.ended) ⊎ (t.consumer ≡ Consumer.undefined)
      → ((unread t ≡ 0) × (t.consumer ≡ Consumer.ended))
        ⊎ ((0 < unread t) × (t.consumer ≡ Consumer.undefined))
  unread_end t v (inl e) = inl (rw (e, (rw e at v.seen).1) refl, e)
  unread_end t v (inr e) = inr (rw e (omega arith), e)

  -- The consumer meets an order that is destroyed only after the end of the producer's thread.
  Step-undefined :
      (s t : Demo)
      → IsSound host s
      → (s.consumer ≡ Consumer.undefined → s.producer ≡ Producer.ended)
      → Step host s t
      → t.consumer ≡ Consumer.undefined
      → t.producer ≡ Producer.ended
  unfolding produce report leave note
  Step-undefined s t v h (Step.producing i p l e) q =
      let z = h (sym (ap (λ x. x.consumer) e) ∙ q) in absurd (cc)
  Step-undefined s t v h (Step.reporting i order done p e) q =
      let z = h (sym (ap (λ x. x.consumer) e) ∙ q) in absurd (cc)
  Step-undefined s t v h (Step.finishing p e) q =
      let z = h (sym (ap (λ x. x.consumer) e) ∙ q) in absurd (cc)
  Step-undefined s t v h (Step.exiting p e) q = ap (λ x. x.producer) e
  Step-undefined s t v h (Step.loading p e) q =
      let z = sym (ap (λ x. x.consumer) e) ∙ q in absurd (cc)
  Step-undefined s t v h (Step.continuing done p l e) q =
      let z = sym (ap (λ x. x.consumer) e) ∙ q in absurd (cc)
  Step-undefined s t v h (Step.leaving p l e) q =
      let z = sym (ap (λ x. x.consumer) e) ∙ q in absurd (cc)
  Step-undefined s t v h (Step.consuming null p e) q =
      absurd (consume-defined host null s v (sym (ap (λ x. x.consumer) e) ∙ q))
  Step-undefined s t v h (Step.noting order p alive e) q =
      let z = sym (ap (λ x. x.consumer) e) ∙ q in absurd (cc)
  Step-undefined s t v h (Step.missing order p dead e) q =
      ap (λ x. x.producer) e ∙ lives-ended s.producer dead

  Reach-undefined :
      (orders : Heap) (slots : ℕ → Place) (reads : ℕ) (s : Demo)
      → Reach host orders slots reads s
      → s.consumer ≡ Consumer.undefined
      → s.producer ≡ Producer.ended
  unfolding start
  Reach-undefined orders slots reads s Reach.here q = absurd (cc)
  Reach-undefined orders slots reads s (Reach.later {s = r} reach step) q =
      Step-undefined r s (Reach-IsSound host orders slots reads r reach)
        (Reach-undefined orders slots reads r reach) step q

-- However the steps of the two threads have interleaved so far, while the producer's thread has not
-- ended: they can go on to their ends, within 76 more steps, without a read of a destroyed order.
pub Reach-ends :
    (host : Host) (orders : Heap) (slots : ℕ → Place) (reads : ℕ) (s : Demo)
    → Reach host orders slots reads s
    → s.producer ≢ Producer.ended
    → (t : Demo) × (k : ℕ) × Steps host k s t
      × (t.producer ≡ Producer.ended)
      × (t.consumer ≡ Consumer.ended)
      × (k ≤ 76)
Reach-ends host orders slots reads s reach open_yet =
    let v = Reach-IsSound host orders slots reads s reach in
    let (t, k, steps, sound, d, l) =
      producer_returns host (work_left s.producer) s v (ended-lives s.producer open_yet)
        (omega arith) in
    let (u, j, more, good, p, e, m) =
      consumer_ends host (left t) t sound (done_returning host t sound d) (omega arith) in
    let (n, same, all) = Steps-join steps more in
    let last = Steps-join all (Steps.first (Step.exiting (p ∙ d) refl) Steps.none) in
    let ends : u.consumer ≡ Consumer.ended = elim e [
      | inl q ↦ q
      | inr q ↦
          let z = Reach-undefined host orders slots reads u (Reach-Steps reach all) q in absurd (cc)
    ] in
    (
      record u { producer = Producer.ended },
      last.0,
      last.2,
      refl,
      ends,
      omega (arith, last.1, same, l, m, work_small s.producer, left_small host t sound),
    )

-- When the producer's thread has ended, and its pool with it, at most 54 steps are left, whatever the
-- consumer does, and after any number of them it can go on within these: to its end if, when the
-- thread ended, no order was in the queue and none was popped without having been read; and to a read
-- of an order that is destroyed if there was one.
pub Steps-end :
    (host : Host) (orders : Heap) (slots : ℕ → Place) (reads : ℕ) (s : Demo) (n : ℕ) (t : Demo)
    → Reach host orders slots reads s
    → s.producer ≡ Producer.ended
    → Steps host n s t
    → (u : Demo) × (k : ℕ) × Steps host k t u
      × (n + k ≤ 54)
      × (((unread s ≡ 0) × (u.consumer ≡ Consumer.ended))
          ⊎ ((0 < unread s) × (u.consumer ≡ Consumer.undefined)))
Steps-end host orders slots reads s n t reach p steps =
    let v = Reach-IsSound host orders slots reads s reach in
    let (sound, ended, less, same) = Steps-Lowers host n s t v p steps in
    let (u, k, more, good, q, e, l) =
      consumer_ends host (left t) t sound (done_ended host t sound ended) (omega arith) in
    let rest = Steps-Lowers host k t u sound ended more in
    (
      u,
      k,
      more,
      omega (arith, l, less, left_small host s v),
      subst
          (λ x.
            ((x ≡ 0) × (u.consumer ≡ Consumer.ended))
            ⊎ ((0 < x) × (u.consumer ≡ Consumer.undefined)))
          (rest.3 ∙ same) (unread_end host u good e),
    )
