-- ===== src/Tests/Ring.antt =====
-- A ring of 4 places, after three pushes and a pop.
use trading_matcher.Base.{ℕ, List, ◌≡◌, refl, false, [], ◌∷◌, ◌++◌, arith}
use trading_matcher.SpscQueue.{Queue, new_queue, push, pop, next_index, count, capacity}
use trading_matcher.SpscQueue.Misuse.{Leads, idle, two_pushes_lose}
use trading_matcher.SpscQueue.Sequence.{
  Operation, pushes, pops, answers, fifo_answers, answers-fifo,
}
use trading_matcher.SpscQueue.Fifo.{IsRing, contents, push-IsRing, pop-IsRing}

abbrev empty : Queue ℕ
empty = new_queue 4 (λ i. 0)

abbrev three : Queue ℕ
three = (push 4 (push 4 (push 4 empty 10).0 20).0 30).0

abbrev two : Queue ℕ
two = (pop 4 three).0

empty-IsRing : IsRing 4 empty
unfolding new_queue
empty-IsRing = record {
  power = (2, refl);
  several = omega arith;
  read_in = omega arith;
  write_in = omega arith;
}

two-IsRing : IsRing 4 two
two-IsRing =
    pop-IsRing 4 three
      (push-IsRing 4 _ 30 (push-IsRing 4 _ 20 (push-IsRing 4 empty 10 empty-IsRing)))

two_run : (contents 4 two ≡ 20 ∷ 30 ∷ []) × ((push 4 three 40).1 ≡ false)
unfolding push pop next_index new_queue count
two_run = (refl, refl)

-- Three items fit into a queue of size 4.
abbrev calls : List (Operation ℕ)
calls = pops ∷ pushes 10 ∷ pushes 20 ∷ pops ∷ pushes 30 ∷ pushes 40 ∷ pushes 50 ∷ pops ∷ []

answers-fifo_example : answers 4 calls (new_queue 4 (λ i. 0)) ≡ fifo_answers (capacity 4) calls []
answers-fifo_example = answers-fifo 4 2 (λ i. 0) calls refl (omega arith)

two_pushes_lose_example :
    (ring : Queue ℕ) × Leads 4 (idle two [] []) (idle ring ([] ++ 40 ∷ [] ++ 50 ∷ []) [])
    × (contents 4 ring ≡ contents 4 two ++ 50 ∷ [])
unfolding capacity push pop next_index new_queue count
two_pushes_lose_example = two_pushes_lose 4 two [] [] 40 50 two-IsRing (omega arith)
