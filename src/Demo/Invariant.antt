-- ===== src/Demo/Invariant.antt =====
-- What holds of the demonstration whatever its threads have done, and its parts.
use trading_matcher.Base.{
  ℕ, zero, suc, ◌+◌, ◌<◌, ◌≤◌, ◌≡◌, ◌⊎◌, refl, ap, ◌∙◌, subst, inl, inr, Bool, true, false, List,
  [], ◌∷◌, ◌++◌, arith, length,
}
use trading_matcher.Order.{Order, empty_order}
use trading_matcher.PriceLevel.{Heap, write}
use trading_matcher.MemoryPool.{Place, MemoryPool, allocate}
use trading_matcher.SpscQueue
use trading_matcher.SpscQueue.{Queue, new_queue}
use trading_matcher.SpscQueue.Fifo.{IsRing, contents, pop-IsRing, pop_refines, count_lem}
use trading_matcher.SpscQueue.Pointers.{pop, is_empty}
use trading_matcher.Console.{Host, Line}
use trading_matcher.Demo.{order_count, queue_size, pool_size, Producer, Consumer, Demo, price_of}
use trading_matcher.Demo.Lines.{Merge, pushed_lines, by_producer, by_consumer}

-- `k` places of the pool from `n` on.
abbrev pub places : ℕ → ℕ → List Place
places n zero = []
places n (suc k) = Place.pooled n ∷ places (n + 1) k

pub places-suc : (n k : ℕ) → places n k ++ Place.pooled (n + k) ∷ [] ≡ places n (suc k)
places-suc n zero = ap (λ i. Place.pooled i ∷ []) (omega arith)
places-suc n (suc k) =
    ap (λ l. Place.pooled n ∷ l)
      (ap (λ i. places (n + 1) k ++ Place.pooled i ∷ []) (omega arith) ∙ places-suc (n + 1) k)

-- The order in slot `k` of the pool, as iteration `k` makes it.
abbrev pub Sample : Host → Heap → ℕ → Type 0
Sample host h k = ((h k).id ≡ 100 + k) × ((h k).price_scaled ≡ price_of host k)

-- The places are those of the pool from `k` on, with the orders of their iterations.
abbrev pub Numbered : Host → Heap → ℕ → List Place → Type 0
Numbered host h k [] = Unit
Numbered host h k (x ∷ xs) = (x ≡ Place.pooled k) × Sample host h k × Numbered host h (k + 1) xs

pub Sample-write :
    (host : Host) (h : Heap) (i k : ℕ) (e o : Order)
    → k < i
    → Sample host h k
    → Sample host (write (write h i e) i o) k
Sample-write host h i k e o l s = (ground (arith, s.0), ground (arith, s.1))

pub Sample-made :
    (host : Host) (h : Heap) (i : ℕ) (e o : Order)
    → o.id ≡ 100 + i
    → o.price_scaled ≡ price_of host i
    → Sample host (write (write h i e) i o) i
Sample-made host h i e o d p = (ground (arith, d), ground (arith, p))

pub Numbered-push :
    (host : Host) (h : Heap) (i k : ℕ) (e o : Order) (xs : List Place)
    → Numbered host h k xs
    → k + length xs ≡ i
    → Sample host (write (write h i e) i o) i
    → Numbered host (write (write h i e) i o) k (xs ++ Place.pooled i ∷ [])
Numbered-push host h i k e o [] n l d =
    let same : i ≡ k = omega (arith, l) in
    (ap Place.pooled same, subst (Sample host (write (write h i e) i o)) same d, tt)
Numbered-push host h i k e o (x ∷ xs) n l d = (
  n.0,
  Sample-write host h i k e o (omega (arith, l)) n.1,
  Numbered-push host h i (k + 1) e o xs n.2 (omega (arith, l)) d,
)

abbrev pub Made : Host → Heap → Producer → ℕ → Bool → Type 0
Made host h (Producer.making i) made done = (made ≡ i) × (done ≡ false)
Made host h (Producer.logging i order pushed) made done =
    (made ≡ i + 1) × (done ≡ false) × (order ≡ Place.pooled i) × (pushed ≡ true) × Sample host h i
Made host h Producer.returning made done = (made ≡ order_count) × (done ≡ true)
Made host h Producer.ended made done = (made ≡ order_count) × (done ≡ true)

-- The order that the consumer has popped and not yet logged.
abbrev pub Held : Host → Heap → Consumer → ℕ → Type 0
Held host h Consumer.testing n = Unit
Held host h (Consumer.tested done) n = Unit
Held host h Consumer.popping n = Unit
Held host h (Consumer.logging order) n =
    (k : ℕ) × (n ≡ suc k) × (order ≡ Place.pooled k) × Sample host h k
Held host h Consumer.ended n = Unit
Held host h Consumer.undefined n = Unit

pub Held-write :
    (host : Host) (h : Heap) (i : ℕ) (e o : Order) (c : Consumer) (n : ℕ)
    → n ≤ i
    → Held host h c n
    → Held host (write (write h i e) i o) c n
Held-write host h i e o Consumer.testing n l d = tt
Held-write host h i e o (Consumer.tested done) n l d = tt
Held-write host h i e o Consumer.popping n l d = tt
Held-write host h i e o (Consumer.logging order) n l (k, s, p, d) =
    (k, s, p, Sample-write host h i k e o (omega (arith, s)) d)
Held-write host h i e o Consumer.ended n l d = tt
Held-write host h i e o Consumer.undefined n l d = tt

abbrev pub Seen : Consumer → Bool → List Place → Type 0
Seen Consumer.testing done items = Unit
Seen (Consumer.tested seen) done items = seen ≡ true → done ≡ true
Seen Consumer.popping done items = Unit
Seen (Consumer.logging order) done items = Unit
Seen Consumer.ended done items = (done ≡ true) × (items ≡ [])
Seen Consumer.undefined done items = Unit

-- While the producer runs, the consumer has not seen it done.
pub Seen-open :
    (c : Consumer) (done : Bool) (xs ys : List Place)
    → done ≡ false
    → Seen c done xs
    → Seen c done ys
Seen-open Consumer.testing done xs ys e h = tt
Seen-open (Consumer.tested seen) done xs ys e h = h
Seen-open Consumer.popping done xs ys e h = tt
Seen-open (Consumer.logging order) done xs ys e h = tt
Seen-open Consumer.ended done xs ys e h = absurd (ground (arith, e, h.0))
Seen-open Consumer.undefined done xs ys e h = tt

pub capacity_lem : trading_matcher.SpscQueue.capacity queue_size ≡ 1023
unfolding trading_matcher.SpscQueue.capacity
capacity_lem = refl

pub record IsSound (host : Host) (s : Demo) : Type 0 where
  pub ring : IsRing queue_size s.order_queue
  pub made : s.pool.next_free ≤ order_count
  pub made_by : Made host s.pool.pool s.producer s.pool.next_free s.producer_done
  pub seen : Seen s.consumer s.producer_done (contents queue_size s.order_queue)
  pub held : Held host s.pool.pool s.consumer (length s.processed)
  pub flow : length s.processed + length (contents queue_size s.order_queue) ≡ s.pool.next_free
  pub numbered : Numbered host s.pool.pool (length s.processed) (contents queue_size s.order_queue)
  pub in_order : s.processed ≡ places 0 (length s.processed)
  pub told :
      Merge (by_producer host s.producer) (by_consumer host s.consumer (length s.processed)) s.lines

-- The consumer moves on without a `pop`, with the lines that this takes.
pub consumer-IsSound :
    (host : Host) (s : Demo) (c : Consumer) (lines : List Line)
    → IsSound host s
    → Seen c s.producer_done (contents queue_size s.order_queue)
    → Held host s.pool.pool c (length s.processed)
    → Merge (by_producer host s.producer) (by_consumer host c (length s.processed)) lines
    → IsSound host (record s { consumer = c; lines = lines })
consumer-IsSound host s c lines v k h m = record {
  ring = v.ring;
  made = v.made;
  made_by = v.made_by;
  seen = k;
  held = h;
  flow = v.flow;
  numbered = v.numbered;
  in_order = v.in_order;
  told = m;
}

pub allocate-pooled :
    (p : MemoryPool)
    → p.next_free < order_count
    → allocate pool_size p ≡ (
      record p { next_free = p.next_free + 1; pool = write p.pool p.next_free empty_order },
      Place.pooled p.next_free,
    )
unfolding allocate
allocate-pooled p h = ground arith

pub pop_cases :
    (q : Queue Place) (null : Place)
    → IsRing queue_size q
    → ((contents queue_size q ≡ []) × (pop queue_size q null ≡ (q, null, false)))
      ⊎ ((x : Place) × (rest : Queue Place) × IsRing queue_size rest
          × (contents queue_size q ≡ x ∷ contents queue_size rest)
          × (pop queue_size q null ≡ (rest, x, true)))
unfolding pop trading_matcher.SpscQueue.pop
pop_cases q null v = elim (pop_refines queue_size q v) [
  | inl (e, f) ↦ inl (e, ground (arith, f))
  | inr (x, e, f) ↦ inr (
    x,
    (trading_matcher.SpscQueue.pop queue_size q).0,
    pop-IsRing queue_size q v,
    e,
    ground (arith, f),
  )
]

pub Seen-done :
    (c : Consumer) (done : Bool) (xs : List Place) → done ≡ false → Seen c done xs → Seen c true xs
Seen-done Consumer.testing done xs e h = tt
Seen-done (Consumer.tested seen) done xs e h = λ q. refl
Seen-done Consumer.popping done xs e h = tt
Seen-done (Consumer.logging order) done xs e h = tt
Seen-done Consumer.ended done xs e h = (refl, h.1)
Seen-done Consumer.undefined done xs e h = tt

nothing : {A : Type 0} (xs : List A) → length xs ≡ 0 → xs ≡ []
nothing [] h = refl
nothing (x ∷ xs) h = absurd (omega (arith, h))

pub empty-contents :
    (q : Queue Place) → IsRing queue_size q → is_empty q ≡ true → contents queue_size q ≡ []
unfolding is_empty trading_matcher.SpscQueue.is_empty
empty-contents q v h = nothing (contents queue_size q) ((count_lem queue_size q v).1.0 h)

pub Made-done :
    (host : Host) (h : Heap) (p : Producer) (made : ℕ) (done : Bool)
    → Made host h p made done
    → done ≡ true
    → (by_producer host p ≡ pushed_lines host order_count) × (made ≡ order_count)
Made-done host h (Producer.making i) made done m e = absurd (ground (arith, m.1, e))
Made-done host h (Producer.logging i order pushed) made done m e = absurd (ground (arith, m.1, e))
Made-done host h Producer.returning made done m e = (refl, m.0)
Made-done host h Producer.ended made done m e = (refl, m.0)
