-- ===== src/Demo/Lines.antt =====
-- What the two threads of the demonstration log, and in which orders their calls can come.
use trading_matcher.Base.{ℕ, zero, suc, ◌+◌, ◌-◌, pos, List, [], ◌∷◌, ◌++◌, codes}
use trading_matcher.Console.{Host, Argument, Line, debug_f, count_of}
use trading_matcher.Demo.{order_count, Producer, Consumer, price_of, total_line}
use trading_matcher.Order.{price_scale}

-- `zs` has the items of `xs` and of `ys`, each in their order.
pub data Merge {A : Type 0} : List A → List A → List A → Type 0 where
  none : Merge [] [] []
  left : (x : A) {xs ys zs : List A} → Merge xs ys zs → Merge (x ∷ xs) ys (x ∷ zs)
  right : (y : A) {xs ys zs : List A} → Merge xs ys zs → Merge xs (y ∷ ys) (y ∷ zs)

module _ {A : Type 0} where
  pub left_end :
      (x : A) {xs ys zs : List A} → Merge xs ys zs → Merge (xs ++ x ∷ []) ys (zs ++ x ∷ [])
  left_end x Merge.none = Merge.left x Merge.none
  left_end x (Merge.left y m) = Merge.left y (left_end x m)
  left_end x (Merge.right y m) = Merge.right y (left_end x m)

  pub right_end :
      (x : A) {xs ys zs : List A} → Merge xs ys zs → Merge xs (ys ++ x ∷ []) (zs ++ x ∷ [])
  right_end x Merge.none = Merge.right x Merge.none
  right_end x (Merge.left y m) = Merge.left y (right_end x m)
  right_end x (Merge.right y m) = Merge.right y (right_end x m)

module _ (host : Host) where
  open host use {doubles}

  -- The lines on iteration `i`, with an order of id `100 + i`.
  abbrev pub pushed : ℕ → Line
  pushed i = debug_f host (codes "Producer: Pushed order %d") (count_of host (100 + i) ∷ [])

  abbrev pub popped : ℕ → Line
  popped i = debug_f host (codes "Consumer: Processed order %d (Price: $%.2f)") (
      count_of host (100 + i)
      ∷ Argument.real
          (doubles.over (doubles.of_int (price_of host i)) (doubles.of_int (pos price_scale)))
      ∷ [])

  -- The lines on the first `n` orders.
  abbrev pub pushed_lines : ℕ → List Line
  pushed_lines zero = []
  pushed_lines (suc n) = pushed_lines n ++ pushed n ∷ []

  abbrev pub popped_lines : ℕ → List Line
  popped_lines zero = []
  popped_lines (suc n) = popped_lines n ++ popped n ∷ []

  abbrev pub by_producer : Producer → List Line
  by_producer (Producer.making i) = pushed_lines i
  by_producer (Producer.logging i order done) = pushed_lines i
  by_producer Producer.returning = pushed_lines order_count
  by_producer Producer.ended = pushed_lines order_count

  -- `n` is the number of orders that the consumer has popped.
  abbrev pub by_consumer : Consumer → ℕ → List Line
  by_consumer Consumer.testing n = popped_lines n
  by_consumer (Consumer.tested done) n = popped_lines n
  by_consumer Consumer.popping n = popped_lines n
  by_consumer (Consumer.logging order) n = popped_lines (n - 1)
  by_consumer Consumer.ended n = popped_lines n ++ total_line host n ∷ []
  by_consumer Consumer.undefined n = popped_lines (n - 1)
