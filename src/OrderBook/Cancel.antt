-- ===== src/OrderBook/Cancel.antt =====
-- What `cancelOrder` does.
use trading_matcher.Base.{
  ℕ, ◌≡◌, refl, ap, ◌⊎◌, inl, inr, ℤ, Bool, true, false, none, some, ◌==◌, if◌then◌else◌,
  Option-cases, arith, In, without, without-absent, In-without, In-without_of_ne, Distinct-without,
}
use trading_matcher.Order.{is_buy}
use trading_matcher.Ladder.{find}
use trading_matcher.PriceLevel.{Heap, PriceLevel, remove_order}
use trading_matcher.PriceLevel.Queue.{shrunk, orders-shrunk, remove_order_lem}
use trading_matcher.OrderBook.{
  OrderBook, World, map_id, cancel_bid, cancel_ask, cancel_order, get_order,
}
use trading_matcher.OrderBook.View.{
  IsShaped, ladder, queue_of, queue, with_level, queue-with_level, with_level-IsShaped, is_at_iff,
  queue-map_id, IsShaped-map_id, order_map-with_level,
}
use trading_matcher.OrderBook.Invariant.{IsLinked, IsValid}

-- Two orders of one queue with the same id are one order.
id-injective :
    (h : Heap) (b : OrderBook)
    → IsLinked h b
    → (s : Bool) (p : ℤ) (r : ℕ) → In r (queue b s p)
    → (q : ℕ) → In q (queue b s p)
    → (h q).id ≡ (h r).id
    → q ≡ r
id-injective h b v s p r i q j e =
    ground (arith, v.listed s p r i, v.listed s p q j, ap b.order_map e)

-- The branch for the order's side, as one write to its ladder.
cancel_branch :
    (h : Heap) (b : OrderBook) (id : ℕ) (s : Bool) (p : ℤ) (level level' : PriceLevel)
    → find p (ladder s b) ≡ some level
    → remove_order h level id ≡ (level', true)
    → (if s then cancel_bid h b id p else cancel_ask h b id p) ≡ (with_level s p level' b, true)
unfolding cancel_bid cancel_ask with_level
cancel_branch h b id true p level level' f e = rw (f, cancel_bid, e)
cancel_branch h b id false p level level' f e = rw (f, cancel_ask, e)

-- The level of one side and price, which is there if an order rests in it.
level_of_In :
    (b : OrderBook) (s : Bool) (p : ℤ) (r : ℕ)
    → In r (queue b s p)
    → (level : PriceLevel) × (find p (ladder s b) ≡ some level) × (queue b s p ≡ level.orders)
level_of_In b s p r i = elim (Option-cases (find p (ladder s b))) [
  | inl e ↦ absurd (rw e at i)
  | inr (level, e) ↦ (level, e, ap queue_of e)
]

-- The book without the order at `r`: one write to its ladder, and one to the id map.
unfoldable pub unlinked :
    (b : OrderBook) (id : ℕ) (s : Bool) (p : ℤ) (level : PriceLevel) → OrderBook
unlinked b id s p level = record (with_level s p level b) { order_map = map_id b.order_map id none }

-- The order at `r` is in no queue, the other orders keep their places, and only `id` is forgotten.
pub record Cancelled (b : OrderBook) (id r : ℕ) (b' : OrderBook) : Type 0 where
  pub queued : (s : Bool) (p : ℤ) → queue b' s p ≡ without r (queue b s p)
  pub mapped : (j : ℕ) → get_order b' j ≡ (if id == j then none else get_order b j)

module _ (h : Heap) (b : OrderBook) (v : IsLinked h b) (id r : ℕ)
    (known : b.order_map id ≡ some r) where
  abbrev pub own_side : Bool
  own_side = is_buy (h r)

  abbrev pub own_price : ℤ
  own_price = (h r).price_scaled

  pub resting : In r (queue b own_side own_price)
  resting = (v.indexed id r known).1

  cancel_at :
      (level : PriceLevel)
      → find own_price (ladder own_side b) ≡ some level
      → queue b own_side own_price ≡ level.orders
      → cancel_order h b id ≡ (unlinked b id own_side own_price (shrunk h level r), true)
  unfolding cancel_order unlinked
  cancel_at level f q = rw (
    known,
    cancel_order,
    cancel_branch h b id own_side own_price level (shrunk h level r) f removes,
    order_map-with_level,
  )
    where
      removes : remove_order h level id ≡ (shrunk h level r, true)
      removes = rw (← (v.indexed id r known).0) (
          remove_order_lem h level r (rw q at resting) (rw q at (v.distinct own_side own_price))
            (λ x k. id-injective h b v own_side own_price r resting x (rw (← q) at k)))

  -- Cancelling a known order succeeds, and is one write to its ladder and one to the id map.
  pub cancel_order_level :
      (level : PriceLevel) × (find own_price (ladder own_side b) ≡ some level)
      × (queue b own_side own_price ≡ level.orders)
      × (cancel_order h b id ≡ (unlinked b id own_side own_price (shrunk h level r), true))
  cancel_order_level =
      let (level, f, q) = level_of_In b own_side own_price r resting in
      (level, f, q, cancel_at level f q)

  cancel_order_lem :
      (level' : PriceLevel) × (cancel_order h b id
        ≡ (unlinked b id own_side own_price level', true))
      × (level'.orders ≡ without r (queue b own_side own_price))
  cancel_order_lem =
      let (level, f, q, c) = cancel_order_level in
      (shrunk h level r, c, rw (orders-shrunk h level r, q))

  module _ (level' : PriceLevel)
      (left : level'.orders ≡ without r (queue b own_side own_price)) where
    abbrev after : OrderBook
    after = unlinked b id own_side own_price level'

    order_map-after : after.order_map ≡ map_id b.order_map id none
    unfolding unlinked
    order_map-after = refl

    -- The order rests in no other queue, so the write takes it out everywhere.
    queue-after : (s : Bool) (p : ℤ) → queue after s p ≡ without r (queue b s p)
    unfolding unlinked
    queue-after s p =
        rw (queue-map_id, queue-with_level own_side own_price level' b v.shaped s p)
          (ground (
            arith,
            is_at_iff own_side own_price s p,
            v.listed s p r,
            without-absent r (queue b s p),
          ))

    after-Cancelled : Cancelled b id r after
    unfolding get_order
    after-Cancelled = record { queued = queue-after; mapped = λ j. rw order_map-after }

    after-IsShaped : IsShaped after
    unfolding unlinked
    after-IsShaped = IsShaped-map_id _ _ (with_level-IsShaped own_side own_price level' b v.shaped)

    after-IsLinked : IsLinked h after
    after-IsLinked = record {
      shaped = after-IsShaped;
      listed = λ s p q i.
          let (j, n) = In-without q r (queue b s p) (rw queue-after at i) in
          rw order_map-after (ground (arith, v.listed s p q j, v.indexed id r known));
      distinct = λ s p. rw queue-after (Distinct-without r (queue b s p) (v.distinct s p));
      indexed = λ j q e.
          let f = rw order_map-after at e in
          rw queue-after (
            ground (
              arith,
              v.indexed j q,
              v.indexed id r known,
              In-without_of_ne q r (queue b (is_buy (h q)) (h q).price_scaled),
            ));
    }

pub cancel_order_known :
    (h : Heap) (b : OrderBook) (id r : ℕ)
    → IsLinked h b
    → get_order b id ≡ some r
    → ((cancel_order h b id).1 ≡ true)
      × Cancelled b id r (cancel_order h b id).0
      × IsLinked h (cancel_order h b id).0
unfolding get_order
cancel_order_known h b id r v e =
    let (level', c, left) = cancel_order_lem h b v id r e in
    (
      rw c,
      rw c (after-Cancelled h b v id r e level' left),
      rw c (after-IsLinked h b v id r e level' left),
    )

-- Cancelling an unknown id fails and changes nothing. Cancelling a known one succeeds: the order
-- leaves its queue, the others keep their places, only this id is forgotten, and the book stays
-- well formed.
pub cancel_order-Cancelled :
    (h : Heap) (b : OrderBook) (id : ℕ)
    → IsLinked h b
    → ((get_order b id ≡ none) × (cancel_order h b id ≡ (b, false)))
      ⊎ ((r : ℕ) × (get_order b id ≡ some r)
          × ((cancel_order h b id).1 ≡ true)
          × Cancelled b id r (cancel_order h b id).0
          × IsLinked h (cancel_order h b id).0)
unfolding get_order cancel_order
cancel_order-Cancelled h b id v = elim (Option-cases (b.order_map id)) [
  | inl e ↦ inl (e, rw (e, cancel_order))
  | inr (r, e) ↦ let (t, c, l) = cancel_order_known h b id r v e in inr (r, e, t, c, l)
]

-- A cancellation, of a known id or not, keeps a book well formed.
pub cancel_order-IsValid :
    (w : World) (id : ℕ)
    → IsValid w
    → IsValid (record w { book = (cancel_order w.heap w.book id).0 })
unfolding get_order
cancel_order-IsValid w id v = elim (cancel_order-Cancelled w.heap w.book id v.linked) [
  | inl (e, f) ↦ rw f v
  | inr (r, e, t, c, l) ↦ record {
    linked = l;
    live = λ j q f. ground (arith, c.mapped j, v.live j q);
  }
]
