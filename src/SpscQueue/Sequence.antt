-- ===== src/SpscQueue/Sequence.antt =====
-- Any sequence of calls on one queue, against a list of bounded length.
use trading_matcher.Base.{
  ℕ, ◌<◌, ◌^◌, ◌≡◌, refl, ◌∙◌, ap, ap₂, inl, inr, Bool, true, false, Option, none, some, List, [],
  ◌∷◌, ◌++◌, ◌==◌, if◌then◌else◌, arith, length,
}
use trading_matcher.SpscQueue.{Queue, new_queue, push, pop, count, capacity}
use trading_matcher.SpscQueue.Fifo.{
  IsRing, contents, push-IsRing, pop-IsRing, push_refines, pop_refines,
}

pub data Operation (A : Type 0) : Type 0 where
  pushes : (item : A) → Operation A
  pops : Operation A

pub data Answer (A : Type 0) : Type 0 where
  pushed : (ok : Bool) → Answer A
  popped : (item : Option A) → Answer A

module _ {A : Type 0} where
  -- What the calls return.
  abbrev pub answers : ℕ → List (Operation A) → Queue A → List (Answer A)
  answers size [] q = []
  answers size (Operation.pushes x ∷ ops) q =
      Answer.pushed (push size q x).1 ∷ answers size ops (push size q x).0
  answers size (Operation.pops ∷ ops) q =
      Answer.popped (pop size q).1 ∷ answers size ops (pop size q).0

  -- What a first-in first-out list of at most `bound` items returns.
  abbrev pub fifo_answers : ℕ → List (Operation A) → List A → List (Answer A)
  fifo_answers bound [] xs = []
  fifo_answers bound (Operation.pushes x ∷ ops) xs =
      let full = length xs == bound in
      Answer.pushed (if full then false else true)
      ∷ fifo_answers bound ops (if full then xs else xs ++ x ∷ [])
  fifo_answers bound (Operation.pops ∷ ops) [] = Answer.popped none ∷ fifo_answers bound ops []
  fifo_answers bound (Operation.pops ∷ ops) (x ∷ xs) =
      Answer.popped (some x) ∷ fifo_answers bound ops xs

  answers-contents :
      (size : ℕ) (ops : List (Operation A)) (q : Queue A)
      → IsRing size q
      → answers size ops q ≡ fifo_answers (capacity size) ops (contents size q)
  answers-contents size [] q v = refl
  answers-contents size (Operation.pushes x ∷ ops) q v =
      let rest = answers-contents size ops (push size q x).0 (push-IsRing size q x v) in
      elim (push_refines size q x v) [
        | inl (full, e) ↦
            let test : (length (contents size q) == capacity size) ≡ true = ground arith in
            rw test (
              ap₂ (λ ok xs. Answer.pushed ok ∷ xs) (ap (λ p. p.1) e)
                (rest ∙ ap (λ p. fifo_answers (capacity size) ops (contents size p.0)) e))
        | inr (room, ok, e) ↦
            let test : (length (contents size q) == capacity size) ≡ false = ground arith in
            rw test (
              ap₂ (λ b xs. Answer.pushed b ∷ xs) ok
                (rest ∙ ap (fifo_answers (capacity size) ops) e))
      ]
  answers-contents size (Operation.pops ∷ ops) q v =
      let rest = answers-contents size ops (pop size q).0 (pop-IsRing size q v) in
      elim (pop_refines size q v) [
        | inl (empty, e) ↦ rw empty (
            ap₂ (λ x xs. Answer.popped x ∷ xs) (ap (λ p. p.1) e)
              (rest
                ∙ ap (λ p. fifo_answers (capacity size) ops (contents size p.0)) e
                ∙ ap (fifo_answers (capacity size) ops) empty))
        | inr (x, e, some_x) ↦ rw e (ap₂ (λ y xs. Answer.popped y ∷ xs) some_x rest)
      ]

-- For every size that the static_assert of the queue admits, and whatever its array starts with: any
-- sequence of calls of `push` and `pop` on a new queue returns what a first-in first-out list of at
-- most `capacity` items returns for it.
pub answers-fifo :
    {A : Type 0} (size k : ℕ) (memory : ℕ → A) (ops : List (Operation A))
    → size ≡ 2 ^ k
    → 1 < size
    → answers size ops (new_queue size memory) ≡ fifo_answers (capacity size) ops []
unfolding new_queue count
answers-fifo size k memory ops e h =
    answers-contents size ops (new_queue size memory)
      (record { power = (k, e); several = h; read_in = omega arith; write_in = omega arith })
