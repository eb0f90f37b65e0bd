-- ===== src/SpscQueue/Pointers.antt =====
-- The specialization `SPSCQueue<T*, Size>` of include/utils/SPSCQueue.hpp. `pop` writes the item
-- through its reference parameter, so it takes what the parameter held before.
use trading_matcher.Base.{
  ℕ, ◌+◌, ◌-◌, ◌≡◌, refl, Bool, true, false, some, none, leb, ◌==◌, if◌then◌else◌, arith,
}
use trading_matcher.SpscQueue
use trading_matcher.SpscQueue.{Queue, write_slot, next_index}

-- `SPSCQueue()`
abbrev pub new_queue : {A : Type 0} → (ℕ → A) → Queue A
new_queue memory = record { write_pos = 0; buffer = memory; read_pos = 0 }

abbrev pub capacity : ℕ → ℕ
capacity size = size - 1

module _ {A : Type 0} (size : ℕ) where
  unfoldable pub push : Queue A → A → Queue A × Bool
  push q item =
      let next_write = next_index size q.write_pos in
      if next_write == q.read_pos then (q, false) else (
        record q { buffer = write_slot q.buffer q.write_pos item; write_pos = next_write },
        true,
      )

  unfoldable pub pop : Queue A → A → Queue A × A × Bool
  pop q item =
      if q.read_pos == q.write_pos
      then (q, item, false)
      else (record q { read_pos = next_index size q.read_pos }, q.buffer q.read_pos, true)

  -- `size()`
  unfoldable pub count : Queue A → ℕ
  count q =
      if leb q.read_pos q.write_pos
      then q.write_pos - q.read_pos
      else size - q.read_pos + q.write_pos

-- `empty()`
unfoldable pub is_empty : {A : Type 0} → Queue A → Bool
is_empty q = q.read_pos == q.write_pos

-- The specialization does what the general queue does: the same pushes are refused and the same items
-- are popped, and a `pop` that fails leaves the item that was there.
pub pop_agrees :
    {A : Type 0} (size : ℕ) (q : Queue A) (item : A)
    → let (q', item', ok) = pop size q item in
      (trading_matcher.SpscQueue.pop size q ≡ (q', if ok then some item' else none))
      × ((if ok then item else item') ≡ item)
      × ((x : A) → push size q x ≡ trading_matcher.SpscQueue.push size q x)
      × (count size q ≡ trading_matcher.SpscQueue.count size q)
      × (is_empty q ≡ trading_matcher.SpscQueue.is_empty q)
      × (capacity size ≡ trading_matcher.SpscQueue.capacity size)
      × ((memory : ℕ → A) → new_queue memory ≡ trading_matcher.SpscQueue.new_queue size memory)
unfolding pop push count is_empty trading_matcher.SpscQueue.pop trading_matcher.SpscQueue.push
    trading_matcher.SpscQueue.count trading_matcher.SpscQueue.is_empty
    trading_matcher.SpscQueue.new_queue trading_matcher.SpscQueue.capacity
pop_agrees size q item = (ground arith, ground arith, λ x. refl, refl, refl, refl, λ memory. refl)
