-- ===== src/OrderBook/Link.antt =====
-- The part of `addOrder` from the store into `order_map_` on: the order joins the queue at its side
-- and price.
use trading_matcher.Base.{
  ℕ, ◌≡◌, refl, ◌⊎◌, inl, inr, ℤ, Bool, false, none, some, List, [], ◌∷◌, ◌++◌, if◌then◌else◌,
  Bool-cases, arith, In, In-append, In-append_left, In-append_right, Distinct-push,
}
use trading_matcher.Order.{is_buy}
use trading_matcher.Ladder.{find}
use trading_matcher.PriceLevel.{Heap, PriceLevel, is_empty, push_order}
use trading_matcher.OrderBook.{OrderBook, map_id, level_at, update_best_bid, update_best_ask, link}
use trading_matcher.OrderBook.View.{
  IsShaped, ladder, queue, with_level, queue-with_level, find-with_level, ladder-map_id,
  with_level-IsShaped, is_at, is_at_iff, queue-map_id, IsShaped-map_id,
}
use trading_matcher.OrderBook.Invariant.{IsLinked}

snoc_cases : (xs : List ℕ) (r : ℕ) → (y : ℕ) × (ys : List ℕ) × (xs ++ r ∷ [] ≡ y ∷ ys)
snoc_cases [] r = (r, [], refl)
snoc_cases (x ∷ xs) r = (x, xs ++ r ∷ [], refl)

is_empty-push : (h : Heap) (level : PriceLevel) (r : ℕ) → is_empty (push_order h level r) ≡ false
unfolding push_order
is_empty-push h level r = let (y, ys, e) = snoc_cases level.orders r in rw e

module _ (h : Heap) (b : OrderBook) (r : ℕ) where
  abbrev pub own_side : Bool
  own_side = is_buy (h r)

  abbrev pub own_price : ℤ
  own_price = (h r).price_scaled

  abbrev pub pushed : PriceLevel
  pushed = push_order h (level_at own_price (ladder own_side b)) r

  -- `link` is one write to the ladder of the order's side.
  link_lem : link h b r ≡ record (with_level own_side own_price pushed b) {
    order_map = map_id b.order_map (h r).id (some r);
  }
  unfolding link with_level update_best_bid update_best_ask
  link_lem = elim (Bool-cases (is_buy (h r))) [
    | inl e ↦ rw (e, is_empty-push)
    | inr e ↦ rw (e, is_empty-push)
  ]

  orders-pushed : pushed.orders ≡ queue b own_side own_price ++ r ∷ []
  unfolding push_order
  orders-pushed = ground arith

  -- The levels after the order has joined its own.
  pub find-link :
      IsShaped b
      → (s : Bool) (p : ℤ)
      → find p (ladder s (link h b r))
        ≡ (if is_at own_side own_price s p then some pushed else find p (ladder s b))
  find-link v s p = rw (
    link_lem,
    ladder-map_id _ _ s,
    find-with_level own_side own_price pushed b v s p,
    is_empty-push,
  )

  pub order_map-link : (link h b r).order_map ≡ map_id b.order_map (h r).id (some r)
  order_map-link = rw link_lem

  -- The order goes to the end of the queue at its price; every other queue stays.
  pub queue-link :
      IsShaped b
      → (s : Bool) (p : ℤ)
      → queue (link h b r) s p
        ≡ (if is_at own_side own_price s p then queue b s p ++ r ∷ [] else queue b s p)
  queue-link v s p =
      rw (link_lem, queue-map_id, queue-with_level own_side own_price pushed b v s p)
        (ground (arith, is_at_iff own_side own_price s p, orders-pushed))

  link-IsShaped : IsShaped b → IsShaped (link h b r)
  link-IsShaped v =
      rw link_lem (IsShaped-map_id _ _ (with_level-IsShaped own_side own_price pushed b v))

  In-link :
      IsShaped b
      → (s : Bool) (p : ℤ) (q : ℕ) → In q (queue (link h b r) s p)
      → In q (queue b s p) ⊎ ((r ≡ q) × (own_side ≡ s) × (own_price ≡ p))
  In-link v s p q i = elim (Bool-cases (is_at own_side own_price s p)) [
    | inl e ↦
        let j = rw (queue-link v s p, e) at i in
        ground (arith, is_at_iff own_side own_price s p, In-append q (queue b s p) (r ∷ []) j)
    | inr e ↦ inl (rw (queue-link v s p, e) at i)
  ]

  In-link_left :
      IsShaped b → (s : Bool) (p : ℤ) (q : ℕ) → In q (queue b s p) → In q (queue (link h b r) s p)
  In-link_left v s p q i = rw (queue-link v s p) (elim (Bool-cases (is_at own_side own_price s p)) [
    | inl e ↦ rw e (In-append_left q (queue b s p) (r ∷ []) i)
    | inr e ↦ rw e i
  ])

  In-link_self : IsShaped b → In r (queue (link h b r) own_side own_price)
  In-link_self v =
      rw
        (
          queue-link v own_side own_price,
          (is_at_iff own_side own_price own_side own_price).1 (refl, refl),
        )
        (In-append_right r (queue b own_side own_price) (r ∷ []) (inl refl))

  -- An order with a new id is linked in.
  pub link-IsLinked : IsLinked h b → b.order_map (h r).id ≡ none → IsLinked h (link h b r)
  link-IsLinked v fresh = record {
    shaped = link-IsShaped v.shaped;
    listed =
        λ s p q i. rw order_map-link (ground (arith, In-link v.shaped s p q i, v.listed s p q));
    distinct = λ s p. rw (queue-link v.shaped s p) (
        ground
          (arith, v.distinct s p, v.listed s p r, Distinct-push r (queue b s p) (v.distinct s p)));
    indexed = λ id q e.
        let f = rw order_map-link at e in
        ground (
          arith,
          v.indexed id q,
          In-link_left v.shaped (is_buy (h q)) (h q).price_scaled q,
          In-link_self v.shaped,
        );
  }
