-- ===== src/OrderBook/Counted.antt =====
-- The counters of the price levels.
use trading_matcher.Base.{
  ℕ, ◌≡◌, refl, sym, ap, ◌∙◌, inl, inr, ◌+◌, ◌%◌, ◌<◌, ◌^◌, ℤ, Bool, Option, none, some, List, [],
  ◌∷◌, ◌++◌, ◌==◌, Bool-cases, Option-cases, arith, length, length-append, length-without, In,
  Distinct, without, without-absent,
}
use trading_matcher.Timestamp.{Clock}
use trading_matcher.Order.{is_buy}
use trading_matcher.Ladder.{Ladder, find}
use trading_matcher.PriceLevel.{Heap, PriceLevel, push_order}
use trading_matcher.PriceLevel.Queue.{shrunk}
use trading_matcher.OrderBook.{OrderBook, World, link, level_at, stamp, add_order, cancel_order}
use trading_matcher.OrderBook.View.{IsShaped, ladder, ladder-map_id, find-with_level}
use trading_matcher.OrderBook.Invariant.{IsLinked, IsLive}
use trading_matcher.OrderBook.Link.{find-link}
use trading_matcher.OrderBook.Add.{stamp-quantity, book-stamp}
use trading_matcher.OrderBook.Cancel.{unlinked, cancel_order_level, resting}

unfoldable pub volume : Heap → List ℕ → ℕ
volume h [] = 0
volume h (r ∷ rs) = (h r).quantity + volume h rs

volume-append : (h : Heap) (xs ys : List ℕ) → volume h (xs ++ ys) ≡ volume h xs + volume h ys
unfolding volume
volume-append h [] ys = omega arith
volume-append h (x ∷ xs) ys = omega (arith, volume-append h xs ys)

pub volume-without :
    (h : Heap) (x : ℕ) (xs : List ℕ)
    → Distinct xs
    → In x xs
    → volume h (without x xs) + (h x).quantity ≡ volume h xs
unfolding volume
volume-without h x [] d i = absurd i
volume-without h x (y ∷ ys) d i = ground (arith, volume-without h x ys d.1, without-absent x ys)

-- The counters of a level, which wrap, against its queue.
pub record IsCounted (h : Heap) (level : PriceLevel) : Type 0 where
  pub totalled : level.total_quantity ≡ volume h level.orders % 2 ^ 32
  pub numbered : level.order_count ≡ length level.orders % 2 ^ 64

abbrev pub AllCounted : Heap → OrderBook → Type 0
AllCounted h b =
    (s : Bool) (p : ℤ) (level : PriceLevel) → find p (ladder s b) ≡ some level → IsCounted h level

push_order-IsCounted :
    (h : Heap) (level : PriceLevel) (r : ℕ) → IsCounted h level → IsCounted h (push_order h level r)
unfolding push_order volume
push_order-IsCounted h level r c = record {
  totalled = ground (arith, c.totalled, volume-append h level.orders (r ∷ []));
  numbered = ground (arith, c.numbered, length-append level.orders (r ∷ []));
}

shrunk-IsCounted :
    (h : Heap) (level : PriceLevel) (r : ℕ)
    → Distinct level.orders
    → In r level.orders
    → (h r).quantity < 2 ^ 32
    → IsCounted h level
    → IsCounted h (shrunk h level r)
unfolding shrunk
shrunk-IsCounted h level r d i small c = record {
  totalled = ground (arith, c.totalled, volume-without h r level.orders d i);
  numbered = ground (arith, c.numbered, length-without r level.orders d i);
}

level_at-IsCounted :
    (h : Heap) (p : ℤ) (m : Ladder PriceLevel)
    → ((level : PriceLevel) → find p m ≡ some level → IsCounted h level)
    → IsCounted h (level_at p m)
unfolding volume
level_at-IsCounted h p m c = elim (Option-cases (find p m)) [
  | inl e ↦ rw (e, level_at) (record { totalled = refl; numbered = refl })
  | inr (level, e) ↦ rw (e, level_at) (c level e)
]

link-AllCounted :
    (h : Heap) (b : OrderBook) (r : ℕ) → IsShaped b → AllCounted h b → AllCounted h (link h b r)
link-AllCounted h b r v c s p level f =
    let own = is_buy (h r) in
    let price = (h r).price_scaled in
    let old = level_at price (ladder own b) in
    ground (
      arith,
      find-link h b r v s p,
      push_order-IsCounted h old r (level_at-IsCounted h price (ladder own b) (c own price)),
      c s p level,
    )

volume-heaps :
    (h g : Heap) (xs : List ℕ)
    → ((r : ℕ) → (g r).quantity ≡ (h r).quantity)
    → volume g xs ≡ volume h xs
unfolding volume
volume-heaps h g [] e = refl
volume-heaps h g (x ∷ xs) e = ground (arith, e x, volume-heaps h g xs e)

-- Stamping an order changes no quantity.
stamp-AllCounted :
    (clock : Clock) (w : World) (r : ℕ)
    → AllCounted w.heap w.book
    → AllCounted (stamp clock w r).heap (stamp clock w r).book
stamp-AllCounted clock w r c = rw book-stamp (λ s p level f. record {
  totalled =
      (c s p level f).totalled
      ∙ ap (λ n. n % 2 ^ 32)
          (sym
            (volume-heaps w.heap (stamp clock w r).heap level.orders (stamp-quantity clock w r)));
  numbered = (c s p level f).numbered;
})

-- If the counters of all levels of a well-linked book are right, they are right after `addOrder`,
-- whatever it is given.
pub add_order-AllCounted :
    (clock : Clock) (w : World) (order : Option ℕ)
    → IsLinked w.heap w.book
    → AllCounted w.heap w.book
    → AllCounted (add_order clock w order).0.heap (add_order clock w order).0.book
unfolding add_order
add_order-AllCounted clock w none v c = c
add_order-AllCounted clock w (some r) v c = elim (Bool-cases ((w.heap r).quantity == 0)) [
  | inl e ↦ rw e c
  | inr e ↦ rw e (
      link-AllCounted (stamp clock w r).heap (stamp clock w r).book r (rw book-stamp v.shaped)
        (stamp-AllCounted clock w r c))
]

unlinked-AllCounted :
    (h : Heap) (b : OrderBook) (id r : ℕ) (level : PriceLevel)
    → IsShaped b
    → AllCounted h b
    → IsCounted h (shrunk h level r)
    → AllCounted h (unlinked b id (is_buy (h r)) (h r).price_scaled (shrunk h level r))
unfolding unlinked
unlinked-AllCounted h b id r level v c k s p found f =
    let own = is_buy (h r) in
    let price = (h r).price_scaled in
    let g = rw (ladder-map_id _ _ s) at f in
    ground (arith, find-with_level own price (shrunk h level r) b v s p, c s p found, k, g)

-- If the counters of all levels of a well-formed book are right, they are right after `cancelOrder`.
pub cancel_order-AllCounted :
    (h : Heap) (b : OrderBook) (id : ℕ)
    → IsLinked h b
    → IsLive h b
    → AllCounted h b
    → AllCounted h (cancel_order h b id).0
unfolding cancel_order
cancel_order-AllCounted h b id v live c = elim (Option-cases (b.order_map id)) [
  | inl e ↦ rw (e, cancel_order) c
  | inr (r, e) ↦
      let (level, f, q, d) = cancel_order_level h b v id r e in
      let s = is_buy (h r) in
      let p = (h r).price_scaled in
      let k =
        shrunk-IsCounted h level r (rw q at (v.distinct s p)) (rw q at (resting h b v id r e))
          (live id r e).1 (c s p level f) in
      rw d (unlinked-AllCounted h b id r level v.shaped c k)
]

-- If the counters of all levels of a well-formed book are right, they are right after `addOrder`,
-- whatever it is given, and after `cancelOrder`.
pub operations-AllCounted :
    (clock : Clock) (w : World) (order : Option ℕ) (id : ℕ)
    → IsLinked w.heap w.book
    → IsLive w.heap w.book
    → AllCounted w.heap w.book
    → AllCounted (add_order clock w order).0.heap (add_order clock w order).0.book
      × AllCounted w.heap (cancel_order w.heap w.book id).0
operations-AllCounted clock w order id v live c =
    (add_order-AllCounted clock w order v c, cancel_order-AllCounted w.heap w.book id v live c)
