-- ===== src/SpscQueue/Interleaved.antt =====
-- An invariant of the steps of a producer and a consumer.
use mathlib.Core.List.{append_assoc}
use trading_matcher.Base.{
  ℕ, ◌<◌, ◌≤◌, ◌^◌, ◌≡◌, refl, sym, ap, ◌∙◌, subst, List, [], ◌∷◌, ◌++◌, arith, length,
}
use trading_matcher.SpscQueue.{Queue, count, capacity}
use trading_matcher.SpscQueue.Window.{length-window}
use trading_matcher.SpscQueue.Fifo.{IsRing, contents, count-lt}
use trading_matcher.SpscQueue.Threads.{Producer, Consumer, Shared, Step, start, Reach}
use trading_matcher.SpscQueue.Advance.{
  ProducerKnows, ConsumerKnows, next, advance_write, advance_read, advance_write-IsRing,
  advance_read-IsRing, producer-advance, consumer-write, consumer-advance, contents-write,
  contents-advance_write, contents-advance_read,
}

pub record IsSafe {A : Type 0} (size : ℕ) (s : Shared A) : Type 0 where
  pub ring_ok : IsRing size s.ring
  pub producer_ok : ProducerKnows size s.ring s.producer
  pub consumer_ok : ConsumerKnows s.ring s.consumer
  pub flow : s.sent ≡ s.received ++ contents size s.ring

module _ {A : Type 0} (size : ℕ) where
  -- A thread moves on without a write to shared memory.
  producer-IsSafe :
      (s : Shared A) (p : Producer A)
      → IsSafe size s
      → ProducerKnows size s.ring p
      → IsSafe size (record s { producer = p })
  producer-IsSafe s p v k = record {
    ring_ok = v.ring_ok;
    producer_ok = k;
    consumer_ok = v.consumer_ok;
    flow = v.flow;
  }

  consumer-IsSafe :
      (s : Shared A) (c : Consumer A)
      → IsSafe size s
      → ConsumerKnows s.ring c
      → IsSafe size (record s { consumer = c })
  consumer-IsSafe s c v k = record {
    ring_ok = v.ring_ok;
    producer_ok = v.producer_ok;
    consumer_ok = k;
    flow = v.flow;
  }

  pub Step-IsSafe : (s t : Shared A) → IsSafe size s → Step size s t → IsSafe size t
  unfolding count advance_write advance_read
  Step-IsSafe s t v (Step.push_start x p e) =
      subst (IsSafe size) (sym e) (producer-IsSafe s (Producer.started x) v tt)
  Step-IsSafe s t v (Step.push_look x p e) =
      subst (IsSafe size) (sym e) (producer-IsSafe s (Producer.looked x s.ring.write_pos) v refl)
  Step-IsSafe s t v (Step.push_full x w p f e) =
      subst (IsSafe size) (sym e) (producer-IsSafe s Producer.idle v tt)
  Step-IsSafe s t v (Step.push_free x w p f e) =
      let k = rw p at v.producer_ok in
      subst (IsSafe size) (sym e) (
        producer-IsSafe s (Producer.free x w) v
          (k, ground (arith, next size s.ring w v.ring_ok, v.ring_ok.write_in)))
  Step-IsSafe s t v (Step.push_write x w p e) =
      let k = rw p at v.producer_ok in
      subst (IsSafe size) (sym e) (record {
        ring_ok = record {
          power = v.ring_ok.power;
          several = v.ring_ok.several;
          read_in = v.ring_ok.read_in;
          write_in = v.ring_ok.write_in;
        };
        producer_ok = (k.0, k.1, ground arith);
        consumer_ok = consumer-write size s.ring s.consumer w x k.0 v.consumer_ok;
        flow = v.flow ∙ ap (◌++◌ s.received) (sym (contents-write size s.ring w x v.ring_ok k.0));
      })
  Step-IsSafe s t v (Step.push_store x w p e) =
      let k = rw p at v.producer_ok in
      subst (IsSafe size) (sym e) (record {
        ring_ok =
            advance_write-IsRing size s.ring w v.ring_ok (ground (arith, k.0, v.ring_ok.write_in));
        producer_ok = tt;
        consumer_ok = consumer-advance size s.ring s.consumer w v.ring_ok k.0 k.1 v.consumer_ok;
        flow =
            ap (λ l. l ++ x ∷ []) v.flow
            ∙ append_assoc s.received _ (x ∷ [])
            ∙ ap (◌++◌ s.received) (
                ap (λ y. contents size s.ring ++ y ∷ []) (sym k.2)
                ∙ sym (contents-advance_write size s.ring w v.ring_ok k.0 k.1));
      })
  Step-IsSafe s t v (Step.pop_start p e) =
      subst (IsSafe size) (sym e) (consumer-IsSafe s Consumer.started v tt)
  Step-IsSafe s t v (Step.pop_look p e) =
      subst (IsSafe size) (sym e) (consumer-IsSafe s (Consumer.looked s.ring.read_pos) v refl)
  Step-IsSafe s t v (Step.pop_empty r p f e) =
      subst (IsSafe size) (sym e) (consumer-IsSafe s Consumer.idle v tt)
  Step-IsSafe s t v (Step.pop_present r p f e) =
      subst (IsSafe size) (sym e)
        (consumer-IsSafe s (Consumer.present r) v (rw p at v.consumer_ok, f))
  Step-IsSafe s t v (Step.pop_read r p e) =
      let k = rw p at v.consumer_ok in
      subst (IsSafe size) (sym e)
        (consumer-IsSafe s (Consumer.taken r (s.ring.buffer r)) v (k.0, k.1, refl))
  Step-IsSafe s t v (Step.pop_store r x p e) =
      let k = rw p at v.consumer_ok in
      subst (IsSafe size) (sym e) (record {
        ring_ok =
            advance_read-IsRing size s.ring r v.ring_ok (ground (arith, k.0, v.ring_ok.read_in));
        producer_ok = producer-advance size s.ring s.producer r v.ring_ok k.0 k.1 v.producer_ok;
        consumer_ok = tt;
        flow =
            v.flow
            ∙ ap (◌++◌ s.received) (
                contents-advance_read size s.ring r v.ring_ok k.0 k.1
                ∙ ap (λ y. y ∷ contents size (advance_read size s.ring r)) k.2)
            ∙ sym (append_assoc s.received (x ∷ []) _);
      })

  start-IsSafe :
      (k : ℕ) (memory : ℕ → A) → size ≡ 2 ^ k → 1 < size → IsSafe size (start size memory)
  unfolding count
  start-IsSafe k memory e h = record {
    ring_ok = record { power = (k, e); several = h; read_in = omega arith; write_in = omega arith };
    producer_ok = tt;
    consumer_ok = tt;
    flow = refl;
  }

  Reach-IsSafe :
      (k : ℕ) (memory : ℕ → A) (s : Shared A)
      → size ≡ 2 ^ k
      → 1 < size
      → Reach size memory s
      → IsSafe size s
  Reach-IsSafe k memory s e h Reach.here = start-IsSafe k memory e h
  Reach-IsSafe k memory s e h (Reach.later q step) =
      Step-IsSafe _ s (Reach-IsSafe k memory _ e h q) step

-- The item that a `pop` under way has read is the first of the list.
abbrev pub Oldest : {A : Type 0} → Consumer A → List A → Type 0
Oldest {A} (Consumer.taken r x) items = (rest : List A) × (items ≡ x ∷ rest)
Oldest _ items = Unit

oldest :
    {A : Type 0} (size : ℕ) (q : Queue A) (c : Consumer A)
    → IsRing size q
    → ConsumerKnows q c
    → Oldest c (contents size q)
oldest size q Consumer.idle v k = tt
oldest size q Consumer.started v k = tt
oldest size q (Consumer.looked r) v k = tt
oldest size q (Consumer.present r) v k = tt
oldest size q (Consumer.taken r x) v k = (
  contents size (advance_read size q r),
  contents-advance_read size q r v k.0 k.1
      ∙ ap (λ y. y ∷ contents size (advance_read size q r)) k.2,
)

-- However the steps of a producer and a consumer interleave on a ring whose size is a power of two
-- greater than 1: the items sent are those received, then those in the ring, in this order; the ring
-- holds at most `capacity` items; and the item that a `pop` under way has read is the oldest in it.
pub Reach-delivers :
    {A : Type 0} (size k : ℕ) (memory : ℕ → A) (s : Shared A)
    → size ≡ 2 ^ k
    → 1 < size
    → Reach size memory s
    → (s.sent ≡ s.received ++ contents size s.ring)
      × (length (contents size s.ring) ≤ capacity size)
      × Oldest s.consumer (contents size s.ring)
unfolding capacity
Reach-delivers size k memory s e h reach =
    let v = Reach-IsSafe size k memory s e h reach in
    let q = s.ring in
    (
      v.flow,
      ground
          (arith, length-window size q.buffer q.read_pos (count size q), count-lt size q v.ring_ok),
      oldest size q s.consumer v.ring_ok v.consumer_ok,
    )
