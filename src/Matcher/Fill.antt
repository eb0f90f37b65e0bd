-- ===== src/Matcher/Fill.antt =====
-- What becomes of an order after its part of a trade.
use trading_matcher.Base.{
  ℕ, ◌≡◌, ◌≢◌, inl, inr, ◌+◌, ℤ, Bool, ◌&&◌, none, some, ◌==◌, if◌then◌else◌, Bool-cases, arith,
  without,
}
use trading_matcher.PriceLevel.{Heap}
use trading_matcher.OrderBook.{OrderBook, get_order}
use trading_matcher.OrderBook.View.{queue}
use trading_matcher.OrderBook.Invariant.{IsLinked}
use trading_matcher.OrderBook.Cancel.{cancel_order_known}
use trading_matcher.OrderBook.Size.{size, size-cancel_order}
use trading_matcher.Matcher.{drop_filled}

abbrev pub filled : Heap → ℕ → Bool
filled h r = (h r).quantity == 0

-- An order leaves the book if it is filled, and stays where it is otherwise.
pub record Dropped (h : Heap) (b : OrderBook) (r : ℕ) (b' : OrderBook) : Type 0 where
  pub linked : IsLinked h b'
  pub queued :
      (s : Bool) (p : ℤ)
      → queue b' s p ≡ (if filled h r then without r (queue b s p) else queue b s p)
  pub mapped :
      (j : ℕ) → get_order b' j ≡ (if filled h r && (h r).id == j then none else get_order b j)
  pub sized : size b' + (if filled h r then 1 else 0) ≡ size b

pub drop_filled-Dropped :
    (h : Heap) (b : OrderBook) (r : ℕ)
    → IsLinked h b
    → get_order b (h r).id ≡ some r
    → Dropped h b r (drop_filled h b r)
unfolding drop_filled
drop_filled-Dropped h b r v known = elim (Bool-cases (filled h r)) [
  | inl e ↦
      let (t, c, l) = cancel_order_known h b (h r).id r v known in
      rw e (record {
        linked = l;
        queued = λ s p. rw e (c.queued s p);
        mapped = λ j. rw e (c.mapped j);
        sized = rw e (omega (arith, size-cancel_order h b (h r).id r v known));
      })
  | inr e ↦
      rw e (record {
        linked = v;
        queued = λ s p. rw e;
        mapped = λ j. rw e;
        sized = rw e (omega arith);
      })
]

-- An order that is in the book afterwards was in it before, and is not the filled one.
pub Dropped-known :
    {h : Heap} {b b' : OrderBook} {x : ℕ}
    → Dropped h b x b'
    → (j r : ℕ) → get_order b' j ≡ some r
    → (get_order b j ≡ some r) × ((r ≡ x → (h r).quantity ≢ 0))
unfolding get_order
Dropped-known d j r e =
    (ground (arith, d.mapped j), λ s z. ground (arith, d.mapped j, d.linked.indexed j r e))
