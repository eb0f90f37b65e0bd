-- ===== src/SpscQueue/Threads.antt =====
-- `push` and `pop` running at once, one on a producer and one on a consumer thread: each step is one
-- access to shared memory, in the order of the source. The release stores and acquire loads make the
-- accesses of the two threads appear in one order, which is the order of the steps.
use trading_matcher.Base.{ℕ, ◌≡◌, ◌≢◌, List, [], ◌∷◌, ◌++◌}
use trading_matcher.SpscQueue.{Queue, write_slot, next_index}

-- Where the producer stands in `push`, with its locals: the item, and `current_write`.
pub data Producer (A : Type 0) : Type 0 where
  idle : Producer A
  started : (item : A) → Producer A  -- before the load of write_pos_
  looked : (item : A) (current_write : ℕ) → Producer A  -- before the load of read_pos_
  free : (item : A) (current_write : ℕ) → Producer A  -- before the write to the buffer
  filled : (item : A) (current_write : ℕ) → Producer A  -- before the store of write_pos_

-- Where the consumer stands in `pop`.
pub data Consumer (A : Type 0) : Type 0 where
  idle : Consumer A
  started : Consumer A  -- before the load of read_pos_
  looked : (current_read : ℕ) → Consumer A  -- before the load of write_pos_
  present : (current_read : ℕ) → Consumer A  -- before the read of the buffer
  taken : (current_read : ℕ) (item : A) → Consumer A  -- before the store of read_pos_

-- The shared ring and both threads. `sent` has the items of the calls of `push` that have made their
-- last store, oldest first, and `received` those of `pop`.
pub record Shared (A : Type 0) : Type 0 where
  pub ring : Queue A
  pub producer : Producer A
  pub consumer : Consumer A
  pub sent : List A
  pub received : List A

pub data Step {A : Type 0} (size : ℕ) (s : Shared A) (t : Shared A) : Type 0 where
  push_start :
      (x : A)
      → s.producer ≡ Producer.idle
      → t ≡ record s { producer = Producer.started x }
      → Step size s t
  push_look :
      (x : A)
      → s.producer ≡ Producer.started x
      → t ≡ record s { producer = Producer.looked x s.ring.write_pos }
      → Step size s t
  push_full :
      (x : A) (w : ℕ)
      → s.producer ≡ Producer.looked x w
      → next_index size w ≡ s.ring.read_pos
      → t ≡ record s { producer = Producer.idle }
      → Step size s t
  push_free :
      (x : A) (w : ℕ)
      → s.producer ≡ Producer.looked x w
      → next_index size w ≢ s.ring.read_pos
      → t ≡ record s { producer = Producer.free x w }
      → Step size s t
  push_write :
      (x : A) (w : ℕ)
      → s.producer ≡ Producer.free x w
      → t ≡ record s {
        ring = record s.ring { buffer = write_slot s.ring.buffer w x };
        producer = Producer.filled x w;
      }
      → Step size s t
  push_store :
      (x : A) (w : ℕ)
      → s.producer ≡ Producer.filled x w
      → t ≡ record s {
        ring = record s.ring { write_pos = next_index size w };
        producer = Producer.idle;
        sent = s.sent ++ x ∷ [];
      }
      → Step size s t
  pop_start :
      s.consumer ≡ Consumer.idle → t ≡ record s { consumer = Consumer.started } → Step size s t
  pop_look :
      s.consumer ≡ Consumer.started
      → t ≡ record s { consumer = Consumer.looked s.ring.read_pos }
      → Step size s t
  pop_empty :
      (r : ℕ)
      → s.consumer ≡ Consumer.looked r
      → r ≡ s.ring.write_pos
      → t ≡ record s { consumer = Consumer.idle }
      → Step size s t
  pop_present :
      (r : ℕ)
      → s.consumer ≡ Consumer.looked r
      → r ≢ s.ring.write_pos
      → t ≡ record s { consumer = Consumer.present r }
      → Step size s t
  pop_read :
      (r : ℕ)
      → s.consumer ≡ Consumer.present r
      → t ≡ record s { consumer = Consumer.taken r (s.ring.buffer r) }
      → Step size s t
  pop_store :
      (r : ℕ) (x : A)
      → s.consumer ≡ Consumer.taken r x
      → t ≡ record s {
        ring = record s.ring { read_pos = next_index size r };
        consumer = Consumer.idle;
        received = s.received ++ x ∷ [];
      }
      → Step size s t

-- Both threads idle over a new ring.
abbrev pub start : {A : Type 0} → ℕ → (ℕ → A) → Shared A
start size memory = record {
  ring = record { write_pos = 0; buffer = memory; read_pos = 0 };
  producer = Producer.idle;
  consumer = Consumer.idle;
  sent = [];
  received = [];
}

pub data Reach {A : Type 0} (size : ℕ) (memory : ℕ → A) : Shared A → Type 0 where
  here : Reach size memory (start size memory)
  later : {s t : Shared A} → Reach size memory s → Step size s t → Reach size memory t
