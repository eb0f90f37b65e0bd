-- ===== src/SpscQueue.antt =====
-- `SPSCQueue` of include/utils/SPSCQueue.hpp, called by one thread at a time; `Threads` has the
-- interleavings of a producer and a consumer. The array is a function of the index.
pub mod Mask
pub mod Window
pub mod Fifo
pub mod Sequence
pub mod Threads
pub mod Advance
pub mod Interleaved
pub mod Pointers
pub mod Misuse
use Prim.Native.Nat.{bit_and}
use trading_matcher.Base.{
  ℕ, ◌+◌, ◌-◌, Bool, true, false, Option, none, some, leb, ◌==◌, if◌then◌else◌,
}

pub record Queue (A : Type 0) : Type 0 where
  pub write_pos : ℕ
  pub buffer : ℕ → A
  pub read_pos : ℕ

-- `buffer_[i] = x`
abbrev pub write_slot : {A : Type 0} → (ℕ → A) → ℕ → A → ℕ → A
write_slot buffer i x j = if i == j then x else buffer j

-- `(i + 1) & (Size - 1)`
unfoldable pub next_index : ℕ → ℕ → ℕ
next_index size i = bit_and (i + 1) (size - 1)

module _ {A : Type 0} (size : ℕ) where
  -- `SPSCQueue()`; the array starts with what is in memory.
  unfoldable pub new_queue : (ℕ → A) → Queue A
  new_queue memory = record { write_pos = 0; buffer = memory; read_pos = 0 }

  unfoldable pub push : Queue A → A → Queue A × Bool
  push q item =
      let next_write = next_index size q.write_pos in
      if next_write == q.read_pos then (q, false) else (
        record q { buffer = write_slot q.buffer q.write_pos item; write_pos = next_write },
        true,
      )

  -- `some` is what goes through the reference parameter when the result is true.
  unfoldable pub pop : Queue A → Queue A × Option A
  pop q =
      if q.read_pos == q.write_pos
      then (q, none)
      else (record q { read_pos = next_index size q.read_pos }, some (q.buffer q.read_pos))

  -- `try_push` and `try_pop`
  abbrev pub try_push : Queue A → A → Queue A × Bool
  try_push q item = push q item

  abbrev pub try_pop : Queue A → Queue A × Option A
  try_pop q = pop q

  unfoldable pub is_full : Queue A → Bool
  is_full q = next_index size q.write_pos == q.read_pos

  -- `size()`
  unfoldable pub count : Queue A → ℕ
  count q =
      if leb q.read_pos q.write_pos
      then q.write_pos - q.read_pos
      else size - q.read_pos + q.write_pos

-- `empty()`
unfoldable pub is_empty : {A : Type 0} → Queue A → Bool
is_empty q = q.read_pos == q.write_pos

unfoldable pub capacity : ℕ → ℕ
capacity size = size - 1
