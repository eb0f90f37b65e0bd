-- ===== src/Matcher/Session.antt =====
-- A session of the engine: what the owner of a book and a matcher may call, in any order.
use trading_matcher.Base.{
  ℕ, suc, ◌≡◌, ◌≢◌, ◌<◌, ◌%◌, ◌^◌, sym, subst, ℤ, none, some, List, arith, length,
}
use trading_matcher.Timestamp.{Clock}
use trading_matcher.Order.{Order}
use trading_matcher.PriceLevel.{Heap, write}
use trading_matcher.OrderBook.{OrderBook, World, empty_book, add_order, cancel_order, modify_order}
use trading_matcher.OrderBook.Invariant.{IsLinked, IsValid, empty_book-IsLinked}
use trading_matcher.OrderBook.Add.{add_order-IsValid}
use trading_matcher.OrderBook.Cancel.{cancel_order-IsValid}
use trading_matcher.OrderBook.Modify.{modify_order-IsValid}
use trading_matcher.OrderBook.Size.{size}
use trading_matcher.Matcher.{Trade, Matcher, match_orders}
use trading_matcher.Matcher.Run.{Outcome, match_orders-Outcome}

-- The owner writes to orders that are not in the book, and gives ids and quantities as the members of
-- `Order` hold them, no id twice.
pub data Step (clock : Clock) (w : World) (w' : World) : Type 0 where
  writes :
      (r : ℕ) (o : Order)
      → ((id : ℕ) → w.book.order_map id ≢ some r)
      → w' ≡ record w { heap = write w.heap r o }
      → Step clock w w'
  adds :
      (r : ℕ)
      → w.book.order_map (w.heap r).id ≡ none
      → (w.heap r).quantity < 2 ^ 32
      → w' ≡ (add_order clock w (some r)).0
      → Step clock w w'
  cancels : (id : ℕ) → w' ≡ record w { book = (cancel_order w.heap w.book id).0 } → Step clock w w'
  modifies :
      (id : ℕ) (price : ℤ) (quantity : ℕ)
      → quantity < 2 ^ 32
      → w' ≡ (modify_order clock w id price quantity).0
      → Step clock w w'
  matches :
      (fuel : ℕ) (m m' : Matcher) (count : ℕ)
      → size w.book < fuel
      → match_orders fuel clock w m ≡ some (w', m', count)
      → Step clock w w'

pub data Reach (clock : Clock) : World → Type 0 where
  opened :
      (heap : Heap) (reads : ℕ)
      → Reach clock (record { book = empty_book; heap = heap; reads = reads })
  later : {w w' : World} → Reach clock w → Step clock w w' → Reach clock w'

write-IsLinked :
    (h : Heap) (b : OrderBook) (r : ℕ) (o : Order)
    → ((id : ℕ) → b.order_map id ≢ some r)
    → IsLinked h b
    → IsLinked (write h r o) b
write-IsLinked h b r o n v = record {
  shaped = v.shaped;
  listed = λ s p q i. ground (arith, v.listed s p q i, n (h q).id);
  distinct = v.distinct;
  indexed = λ id q e. ground (arith, v.indexed id q e, n id);
}

module _ (clock : Clock) where
  Step-IsValid : (w w' : World) → IsValid w → Step clock w w' → IsValid w'
  Step-IsValid w w' v (Step.writes r o n e) = subst IsValid (sym e) (record {
    linked = write-IsLinked w.heap w.book r o n v.linked;
    live = λ id q f. ground (arith, v.live id q f, n id);
  })
  Step-IsValid w w' v (Step.adds r fresh small e) =
      subst IsValid (sym e) (add_order-IsValid clock w r v small fresh)
  Step-IsValid w w' v (Step.cancels id e) = subst IsValid (sym e) (cancel_order-IsValid w id v)
  Step-IsValid w w' v (Step.modifies id price quantity small e) =
      subst IsValid (sym e) (modify_order-IsValid clock w id price quantity v small)
  Step-IsValid w w' v (Step.matches fuel m m' count h e) =
      let (w1, m1, trades, f, o) = match_orders-Outcome fuel clock w m v h in
      subst IsValid (ground (arith, f, e)) o.valid

  pub Reach-IsValid : (w : World) → Reach clock w → IsValid w
  Reach-IsValid w (Reach.opened heap reads) = record {
    linked = empty_book-IsLinked heap;
    live = λ id r e. cc;
  }
  Reach-IsValid w (Reach.later q step) = Step-IsValid _ w (Reach-IsValid _ q) step

-- Whatever sequence of `addOrder`, `cancelOrder`, `modifyOrder` and `matchOrders` a session makes of
-- an empty book, with ids that are not in use and quantities that fit into 32 bits, and with writes
-- between the calls to orders that are not in the book: the book is well formed, and the next
-- `matchOrders` ends within one round more than the book has orders, with `hasMatch` false, and each
-- order lowered by exactly what the logged trades give it.
pub session-Outcome :
    (clock : Clock) (w : World) (m : Matcher)
    → Reach clock w
    → IsValid w
      × ((w' : World) × (m' : Matcher) × (trades : List Trade) × (match_orders
              (suc (size w.book))
              clock
              w
              m
            ≡ some (w', m', length trades % 2 ^ 64))
          × Outcome w m trades w' m')
session-Outcome clock w m reach =
    let v = Reach-IsValid clock w reach in
    (v, match_orders-Outcome (suc (size w.book)) clock w m v (omega arith))
