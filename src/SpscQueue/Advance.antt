-- ===== src/SpscQueue/Advance.antt =====
-- What each thread knows of the ring survives the steps of the other, and what the steps do to the
-- items in it.
use trading_matcher.Base.{ℕ, suc, ◌<◌, ◌≡◌, ◌≢◌, ap, ◌∙◌, [], ◌∷◌, ◌++◌, arith}
use trading_matcher.SpscQueue.{Queue, write_slot, next_index, count}
use trading_matcher.SpscQueue.Mask.{step_index, next_index_lem}
use trading_matcher.SpscQueue.Window.{window, window-write_slot, window-suc}
use trading_matcher.SpscQueue.Fifo.{IsRing, contents, count-Ahead, count-lt}
use trading_matcher.SpscQueue.Threads.{Producer, Consumer}

-- What the producer knows of the ring at each point of `push`.
abbrev pub ProducerKnows : {A : Type 0} → ℕ → Queue A → Producer A → Type 0
ProducerKnows size q Producer.idle = Unit
ProducerKnows size q (Producer.started x) = Unit
ProducerKnows size q (Producer.looked x w) = w ≡ q.write_pos
ProducerKnows size q (Producer.free x w) = (w ≡ q.write_pos) × (step_index size w ≢ q.read_pos)
ProducerKnows size q (Producer.filled x w) =
    (w ≡ q.write_pos) × (step_index size w ≢ q.read_pos) × (q.buffer w ≡ x)

-- What the consumer knows of the ring at each point of `pop`.
abbrev pub ConsumerKnows : {A : Type 0} → Queue A → Consumer A → Type 0
ConsumerKnows q Consumer.idle = Unit
ConsumerKnows q Consumer.started = Unit
ConsumerKnows q (Consumer.looked r) = r ≡ q.read_pos
ConsumerKnows q (Consumer.present r) = (r ≡ q.read_pos) × (r ≢ q.write_pos)
ConsumerKnows q (Consumer.taken r x) = (r ≡ q.read_pos) × (r ≢ q.write_pos) × (q.buffer r ≡ x)

module _ {A : Type 0} (size : ℕ) where
  pub next :
      (q : Queue A) (i : ℕ) → IsRing size q → i < size → next_index size i ≡ step_index size i
  next q i v h = next_index_lem size v.power.0 i v.power.1 h

  unfoldable pub advance_write : Queue A → ℕ → Queue A
  advance_write q w = record q { write_pos = next_index size w }

  unfoldable pub advance_read : Queue A → ℕ → Queue A
  advance_read q r = record q { read_pos = next_index size r }

  pub advance_write-IsRing :
      (q : Queue A) (w : ℕ) → IsRing size q → w < size → IsRing size (advance_write q w)
  unfolding advance_write
  advance_write-IsRing q w v h = record {
    power = v.power;
    several = v.several;
    read_in = v.read_in;
    write_in = ground (arith, next q w v, v.several);
  }

  pub advance_read-IsRing :
      (q : Queue A) (r : ℕ) → IsRing size q → r < size → IsRing size (advance_read q r)
  unfolding advance_read
  advance_read-IsRing q r v h = record {
    power = v.power;
    several = v.several;
    read_in = ground (arith, next q r v, v.several);
    write_in = v.write_in;
  }

  pub producer-advance :
      (q : Queue A) (p : Producer A) (r : ℕ)
      → IsRing size q
      → r ≡ q.read_pos
      → r ≢ q.write_pos
      → ProducerKnows size q p
      → ProducerKnows size (advance_read q r) p
  unfolding advance_read
  producer-advance q Producer.idle r v e n k = k
  producer-advance q (Producer.started x) r v e n k = k
  producer-advance q (Producer.looked x w) r v e n k = k
  producer-advance q (Producer.free x w) r v e n k = (k.0, ground (arith, next q r v))
  producer-advance q (Producer.filled x w) r v e n k = (k.0, ground (arith, next q r v), k.2)

  pub consumer-write :
      (q : Queue A) (c : Consumer A) (w : ℕ) (x : A)
      → w ≡ q.write_pos
      → ConsumerKnows q c
      → ConsumerKnows (record q { buffer = write_slot q.buffer w x }) c
  consumer-write q Consumer.idle w x e k = k
  consumer-write q Consumer.started w x e k = k
  consumer-write q (Consumer.looked r) w x e k = k
  consumer-write q (Consumer.present r) w x e k = k
  consumer-write q (Consumer.taken r y) w x e k = (k.0, k.1, ground arith)

  pub consumer-advance :
      (q : Queue A) (c : Consumer A) (w : ℕ)
      → IsRing size q
      → w ≡ q.write_pos
      → step_index size w ≢ q.read_pos
      → ConsumerKnows q c
      → ConsumerKnows (advance_write q w) c
  unfolding advance_write
  consumer-advance q Consumer.idle w v e n k = k
  consumer-advance q Consumer.started w v e n k = k
  consumer-advance q (Consumer.looked r) w v e n k = k
  consumer-advance q (Consumer.present r) w v e n k = (k.0, ground (arith, next q w v))
  consumer-advance q (Consumer.taken r x) w v e n k = (k.0, ground (arith, next q w v), k.2)

  pub contents-write :
      (q : Queue A) (w : ℕ) (x : A)
      → IsRing size q
      → w ≡ q.write_pos
      → contents size (record q { buffer = write_slot q.buffer w x }) ≡ contents size q
  unfolding count
  contents-write q w x v e =
      window-write_slot size q.buffer x (count size q) q.read_pos w v.read_in
        (ground (arith, v.write_in)) (count-lt size q v) (ground (arith, count-Ahead size q v))

  pub contents-advance_write :
      (q : Queue A) (w : ℕ)
      → IsRing size q
      → w ≡ q.write_pos
      → step_index size w ≢ q.read_pos
      → contents size (advance_write q w) ≡ contents size q ++ q.buffer w ∷ []
  unfolding advance_write count
  contents-advance_write q w v e n =
      let more : count size (advance_write q w) ≡ suc (count size q) =
        ground (arith, next q w v, v.read_in, v.write_in) in
      ap (window size q.buffer q.read_pos) more
      ∙ window-suc size q.buffer (count size q) q.read_pos w v.read_in (ground (arith, v.write_in))
          (count-lt size q v) (ground (arith, count-Ahead size q v))

  pub contents-advance_read :
      (q : Queue A) (r : ℕ)
      → IsRing size q
      → r ≡ q.read_pos
      → r ≢ q.write_pos
      → contents size q ≡ q.buffer r ∷ contents size (advance_read q r)
  unfolding advance_read count
  contents-advance_read q r v e n =
      let less : count size q ≡ suc (count size (advance_read q r)) =
        ground (arith, next q r v, v.read_in, v.write_in) in
      ap (window size q.buffer q.read_pos) less ∙ ground (arith, next q r v, v.read_in)
