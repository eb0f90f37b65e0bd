-- ===== src/OrderBook/Modify.antt =====
-- What `modifyOrder` does.
use trading_matcher.Base.{
  ℕ, ◌≡◌, ◌≢◌, refl, ap, ◌∙◌, ◌+◌, ◌<◌, ◌^◌, ◌⊎◌, inl, inr, ℤ, Bool, true, false, none, some, [],
  ◌∷◌, ◌++◌, if◌then◌else◌, Option-cases, arith, without,
}
use native.Mathlib.Decide.{ℕ_discrete as dec_eq}
use trading_matcher.Timestamp.{Clock, get_timestamp_ns}
use trading_matcher.Order.{Order, is_buy}
use trading_matcher.PriceLevel.{Heap, write}
use trading_matcher.OrderBook.{OrderBook, World, cancel_order, add_order, modify_order, get_order}
use trading_matcher.OrderBook.View.{queue, is_at}
use trading_matcher.OrderBook.Invariant.{IsLinked, IsLive, IsValid}
use trading_matcher.OrderBook.Add.{
  add_order-refuses, add_order-Added, add_order-IsValid, add_order-keeps,
}
use trading_matcher.OrderBook.Cancel.{Cancelled, cancel_order_known}

module _ (h : Heap) (b : OrderBook) (r : ℕ) (o : Order)
    (absent : (j : ℕ) → b.order_map j ≢ some r) where
  -- An order outside the book may be written to.
  IsLinked-write : IsLinked h b → IsLinked (write h r o) b
  IsLinked-write v = record {
    shaped = v.shaped;
    listed = λ s p q i. ground (arith, v.listed s p q i, absent (h q).id);
    distinct = v.distinct;
    indexed = λ j q e. ground (arith, v.indexed j q e, absent j);
  }

  IsLive-write : IsLive h b → IsLive (write h r o) b
  IsLive-write v j q e = ground (arith, v j q e, absent j)

-- The order is at the end of the queue at its new price with its new quantity, the other orders
-- keep their places, and every id leads where it led.
pub record Modified (w : World) (r : ℕ) (price : ℤ) (quantity : ℕ) (w' : World) : Type 0 where
  pub queued :
      (s : Bool) (p : ℤ)
      → queue w'.book s p ≡ (
          if is_at (is_buy (w.heap r)) price s p
          then without r (queue w.book s p) ++ r ∷ []
          else without r (queue w.book s p))
  pub mapped : (j : ℕ) → get_order w'.book j ≡ get_order w.book j
  pub repriced : (w'.heap r).price_scaled ≡ price
  pub resized : (w'.heap r).quantity ≡ quantity

module _ (clock : Clock) (w : World) (v : IsValid w) (id r : ℕ) (price : ℤ) (quantity : ℕ)
    (known : get_order w.book id ≡ some r) where
  abbrev updated : Order
  updated = record (w.heap r) {
    price_scaled = price;
    quantity = quantity;
    timestamp_ns = get_timestamp_ns clock w.reads;
  }

  -- The state before the order is added again.
  abbrev taken_out : World
  taken_out = record {
    book = (cancel_order w.heap w.book id).0;
    heap = write w.heap r updated;
    reads = w.reads + 1;
  }

  modify_known : modify_order clock w id price quantity ≡ add_order clock taken_out (some r)
  unfolding modify_order get_order
  modify_known = rw (known, modify_order)

  unlinked : Cancelled w.book id r taken_out.book × IsLinked w.heap taken_out.book
  unlinked = let (t, c, l) = cancel_order_known w.heap w.book id r v.linked known in (c, l)

  own_id : (w.heap r).id ≡ id
  unfolding get_order
  own_id = (v.linked.indexed id r known).0

  absent : (j : ℕ) → taken_out.book.order_map j ≢ some r
  unfolding get_order
  absent j e = ground (arith, unlinked.0.mapped j, v.linked.indexed j r, own_id)

  taken_out-IsValid : IsValid taken_out
  unfolding get_order
  taken_out-IsValid = record {
    linked = IsLinked-write w.heap taken_out.book r updated absent unlinked.1;
    live =
        IsLive-write w.heap taken_out.book r updated absent
          (λ j q e. ground (arith, unlinked.0.mapped j, v.live j q));
  }

  forgotten : taken_out.book.order_map id ≡ none
  unfolding get_order
  forgotten = ground (arith, unlinked.0.mapped id)

  written : taken_out.heap r ≡ updated
  written = ground arith

  modify-IsValid : quantity < 2 ^ 32 → IsValid (modify_order clock w id price quantity).0
  modify-IsValid small = rw modify_known (
      add_order-IsValid clock taken_out r taken_out-IsValid (rw written small)
        (rw (written, own_id) forgotten))

  modify-Modified :
      quantity ≢ 0
      → ((modify_order clock w id price quantity).1 ≡ true)
        × Modified w r price quantity (modify_order clock w id price quantity).0
  modify-Modified n = rw modify_known (
      let (t, a) = add_order-Added clock taken_out r taken_out-IsValid (rw written n) in
      let (i, s, p, q) = add_order-keeps clock taken_out (some r) r in
      (
        t,
        record {
          queued = λ s p. ground (arith, a.queued s p, unlinked.0.queued s p, written);
          mapped = λ j. ground (arith, a.mapped j, unlinked.0.mapped j, written, own_id, known);
          repriced = p ∙ ap (λ o. o.price_scaled) written;
          resized = q ∙ ap (λ o. o.quantity) written;
        },
      ))

  modify_to_zero :
      quantity ≡ 0
      → ((modify_order clock w id price quantity).1 ≡ false)
        × Cancelled w.book id r (modify_order clock w id price quantity).0.book
  modify_to_zero e =
      let refused = add_order-refuses clock taken_out (some r) (λ q f. ground arith) in
      rw (modify_known, refused) (refl, unlinked.0)

modify_unknown :
    (clock : Clock) (w : World) (id : ℕ) (price : ℤ) (quantity : ℕ)
    → get_order w.book id ≡ none
    → modify_order clock w id price quantity ≡ (w, false)
unfolding modify_order get_order
modify_unknown clock w id price quantity e = rw (e, modify_order)

-- An unknown id is refused and nothing changes. A known order given quantity 0 is reported as
-- refused, but has left the book. Any other change succeeds: the order waits at the end of the queue
-- at its new price, with its new quantity, and the other orders keep their places.
pub modify_order-Modified :
    (clock : Clock) (w : World) (id : ℕ) (price : ℤ) (quantity : ℕ)
    → IsValid w
    → let (w', done) = modify_order clock w id price quantity in
      ((get_order w.book id ≡ none) × (w' ≡ w) × (done ≡ false))
      ⊎ ((r : ℕ) × (get_order w.book id ≡ some r)
          × (quantity ≡ 0)
          × (done ≡ false)
          × Cancelled w.book id r w'.book)
      ⊎ ((r : ℕ) × (get_order w.book id ≡ some r) × (done ≡ true) × Modified w r price quantity w')
modify_order-Modified clock w id price quantity v = elim (Option-cases (get_order w.book id)) [
  | inl e ↦ inl (
    e,
    ap (λ t. t.0) (modify_unknown clock w id price quantity e),
    ap (λ t. t.1) (modify_unknown clock w id price quantity e),
  )
  | inr (r, e) ↦ elim (dec_eq quantity 0) [
    | yes z ↦
        let (f, c) = modify_to_zero clock w v id r price quantity e z in inr (inl (r, e, z, f, c))
    | no n ↦
        let (f, m) = modify-Modified clock w v id r price quantity e n in inr (inr (r, e, f, m))
  ]
]

-- A modification to a quantity that fits into 32 bits keeps a book well formed.
pub modify_order-IsValid :
    (clock : Clock) (w : World) (id : ℕ) (price : ℤ) (quantity : ℕ)
    → IsValid w
    → quantity < 2 ^ 32
    → IsValid (modify_order clock w id price quantity).0
modify_order-IsValid clock w id price quantity v small = elim (Option-cases (get_order w.book id)) [
  | inl e ↦ rw (modify_unknown clock w id price quantity e) v
  | inr (r, e) ↦ modify-IsValid clock w v id r price quantity e small
]
