-- ===== src/OrderBook/Invariant.antt =====
-- The well-formedness of a book over a store of orders.
use trading_matcher.Base.{arith, ℕ, ◌≡◌, refl, ◌<◌, ◌^◌, ℤ, Bool, true, false, some, In, Distinct}
use trading_matcher.Order.{is_buy}
use trading_matcher.PriceLevel.{Heap}
use trading_matcher.Ladder.{find}
use trading_matcher.OrderBook.{OrderBook, World, empty_book}
use trading_matcher.OrderBook.View.{IsShaped, queue, empty_book-IsShaped}

-- The ladders and the id map hold the same orders, each at its own side and price, once.
pub record IsLinked (h : Heap) (b : OrderBook) : Type 0 where
  pub shaped : IsShaped b
  pub listed :
      (s : Bool) (p : ℤ) (r : ℕ)
      → In r (queue b s p)
      → (is_buy (h r) ≡ s) × ((h r).price_scaled ≡ p) × (b.order_map (h r).id ≡ some r)
  pub distinct : (s : Bool) (p : ℤ) → Distinct (queue b s p)
  pub indexed :
      (id r : ℕ)
      → b.order_map id ≡ some r
      → ((h r).id ≡ id) × In r (queue b (is_buy (h r)) (h r).price_scaled)

-- Every order in the book still has something to trade, as a uint32_t.
abbrev pub IsLive : Heap → OrderBook → Type 0
IsLive h b = (id r : ℕ) → b.order_map id ≡ some r → (0 < (h r).quantity) × ((h r).quantity < 2 ^ 32)

pub record IsValid (w : World) : Type 0 where
  pub linked : IsLinked w.heap w.book
  pub live : IsLive w.heap w.book

pub empty_book-IsLinked : (h : Heap) → IsLinked h empty_book
unfolding find
empty_book-IsLinked h = record {
  shaped = empty_book-IsShaped;
  listed = elim [ true ↦ λ p r i. absurd i | false ↦ λ p r i. absurd i ];
  distinct = elim [ true ↦ λ p. tt | false ↦ λ p. tt ];
  indexed = λ id r e. cc;
}

-- The invariant reads no field of an order but its id, its side and its price.
abbrev pub SameKeys : Heap → Heap → Type 0
SameKeys h g =
    (r : ℕ)
    → ((h r).id ≡ (g r).id) × ((h r).side ≡ (g r).side) × ((h r).price_scaled ≡ (g r).price_scaled)

pub IsLinked-SameKeys : (h g : Heap) (b : OrderBook) → SameKeys h g → IsLinked h b → IsLinked g b
IsLinked-SameKeys h g b k v = record {
  shaped = v.shaped;
  listed = λ s p r i. ground (arith, k r, v.listed s p r i);
  distinct = v.distinct;
  indexed = λ id r e. ground (arith, k r, v.indexed id r e);
}

-- Nor does it read an order that is not in the book.
pub IsLinked-elsewhere :
    (h g : Heap) (b : OrderBook)
    → ((id r : ℕ) → b.order_map id ≡ some r → g r ≡ h r)
    → IsLinked h b
    → IsLinked g b
IsLinked-elsewhere h g b same v = record {
  shaped = v.shaped;
  listed = λ s p r i.
      let (side, price, known) = v.listed s p r i in
      let o = same (h r).id r known in rw (o, side, price, known) (refl, refl, refl);
  distinct = v.distinct;
  indexed = λ id r e. rw (same id r e) (v.indexed id r e);
}

pub IsValid-elsewhere :
    (w : World) (g : Heap) (reads : ℕ)
    → ((id r : ℕ) → w.book.order_map id ≡ some r → g r ≡ w.heap r)
    → IsValid w
    → IsValid (record { book = w.book; heap = g; reads = reads })
IsValid-elsewhere w g reads same v = record {
  linked = IsLinked-elsewhere w.heap g w.book same v.linked;
  live = λ id r e. rw (same id r e) (v.live id r e);
}
