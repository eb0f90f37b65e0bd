-- ===== src/OrderBook/Add.antt =====
-- What `addOrder` does.
use trading_matcher.Base.{
  ℕ, ◌≡◌, ◌≢◌, refl, ap, ◌<◌, ◌^◌, ℤ, Bool, true, false, Option, none, some, [], ◌∷◌, ◌++◌, ◌==◌,
  if◌then◌else◌, arith,
}
use trading_matcher.Timestamp.{Clock}
use trading_matcher.Order.{is_buy}
use trading_matcher.PriceLevel.{Heap}
use trading_matcher.OrderBook.{World, get_order, link, stamp, add_order}
use trading_matcher.OrderBook.View.{IsShaped, queue, is_at}
use trading_matcher.OrderBook.Invariant.{IsLinked, IsLive, IsValid, SameKeys, IsLinked-SameKeys}
use trading_matcher.OrderBook.Link.{order_map-link, queue-link, link-IsLinked}
use native.Mathlib.Decide.{ℕ_discrete as dec_eq}

stamp-SameKeys : (clock : Clock) (w : World) (r : ℕ) → SameKeys w.heap (stamp clock w r).heap
unfolding stamp
stamp-SameKeys clock w r q = ground arith

pub stamp-quantity :
    (clock : Clock) (w : World) (r q : ℕ)
    → ((stamp clock w r).heap q).quantity ≡ (w.heap q).quantity
unfolding stamp
stamp-quantity clock w r q = ground arith

pub book-stamp : (clock : Clock) (w : World) (r : ℕ) → (stamp clock w r).book ≡ w.book
unfolding stamp
book-stamp clock w r = ground arith

-- The order is at the end of the queue at its side and price, the other queues are as they were, and
-- its id leads to it.
pub record Added (w : World) (r : ℕ) (w' : World) : Type 0 where
  pub queued :
      (s : Bool) (p : ℤ)
      → queue w'.book s p ≡ (
          if is_at (is_buy (w.heap r)) (w.heap r).price_scaled s p
          then queue w.book s p ++ r ∷ []
          else queue w.book s p)
  pub mapped :
      (id : ℕ)
      → get_order w'.book id ≡ (if (w.heap r).id == id then some r else get_order w.book id)

-- A null pointer and an order of quantity 0 are refused, and nothing changes.
pub add_order-refuses :
    (clock : Clock) (w : World) (r : Option ℕ)
    → ((q : ℕ) → r ≡ some q → (w.heap q).quantity ≡ 0)
    → add_order clock w r ≡ (w, false)
unfolding add_order
add_order-refuses clock w none h = refl
add_order-refuses clock w (some r) h = ground (arith, h r refl)

linked_world : Clock → World → ℕ → World
linked_world clock w r = let w' = stamp clock w r in record w' { book = link w'.heap w'.book r }

add_order-eq :
    (clock : Clock) (w : World) (r : ℕ)
    → (w.heap r).quantity ≢ 0
    → add_order clock w (some r) ≡ (linked_world clock w r, true)
unfolding add_order linked_world
add_order-eq clock w r n = ground arith

linked_world-Added :
    (clock : Clock) (w : World) (r : ℕ) → IsShaped w.book → Added w r (linked_world clock w r)
unfolding linked_world get_order
linked_world-Added clock w r v =
    let g = (stamp clock w r).heap in
    record {
      queued = λ s p.
          rw book-stamp (ground (arith, queue-link g w.book r v s p, stamp-SameKeys clock w r r));
      mapped = λ id.
          rw book-stamp (
            ground (arith, ap (λ m. m id) (order_map-link g w.book r), stamp-SameKeys clock w r r));
    }

-- On a well-formed book an order of another quantity than 0 is accepted, also under an id in use: it
-- joins the end of the queue at its side and price, and its id leads to it.
pub add_order-Added :
    (clock : Clock) (w : World) (r : ℕ)
    → IsValid w
    → (w.heap r).quantity ≢ 0
    → ((add_order clock w (some r)).1 ≡ true) × Added w r (add_order clock w (some r)).0
add_order-Added clock w r v n =
    rw (add_order-eq clock w r n) (refl, linked_world-Added clock w r v.linked.shaped)

linked_world-IsValid :
    (clock : Clock) (w : World) (r : ℕ)
    → IsLinked w.heap w.book
    → IsLive w.heap w.book
    → (w.heap r).quantity ≢ 0
    → (w.heap r).quantity < 2 ^ 32
    → w.book.order_map (w.heap r).id ≡ none
    → IsValid (linked_world clock w r)
unfolding linked_world
linked_world-IsValid clock w r v live n small fresh = rw book-stamp (record {
  linked =
      link-IsLinked g w.book r (IsLinked-SameKeys w.heap g w.book same v)
        (ground (arith, same r, fresh));
  live = λ id q e.
      let f = rw order_map-link at e in ground (arith, live id q, stamp-quantity clock w r q);
})
  where
    g : Heap
    g = (stamp clock w r).heap

    same : SameKeys w.heap g
    same = stamp-SameKeys clock w r

-- Adding an order whose id is not in use, with a quantity that fits into 32 bits, keeps a book well
-- formed.
pub add_order-IsValid :
    (clock : Clock) (w : World) (r : ℕ)
    → IsValid w
    → (w.heap r).quantity < 2 ^ 32
    → w.book.order_map (w.heap r).id ≡ none
    → IsValid (add_order clock w (some r)).0
add_order-IsValid clock w r v small fresh = elim (dec_eq (w.heap r).quantity 0) [
  | yes e ↦ rw (add_order-refuses clock w (some r) (λ q f. ground arith)) v
  | no n ↦
      rw (add_order-eq clock w r n) (linked_world-IsValid clock w r v.linked v.live n small fresh)
]

-- Of the orders in memory `addOrder` changes timestamps only.
pub add_order-keeps :
    (clock : Clock) (w : World) (r : Option ℕ) (q : ℕ)
    → let o = w.heap q in
      let o' = (add_order clock w r).0.heap q in
      (o'.id ≡ o.id)
      × (o'.side ≡ o.side)
      × (o'.price_scaled ≡ o.price_scaled)
      × (o'.quantity ≡ o.quantity)
unfolding add_order
add_order-keeps clock w none q = (refl, refl, refl, refl)
add_order-keeps clock w (some r) q =
    ground (arith, stamp-SameKeys clock w r q, stamp-quantity clock w r q)
