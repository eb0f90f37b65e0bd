-- ===== src/Program/Placing.antt =====
-- The orders that `main` places: its book is over the memory of its pool.
use std.Path.{fun_ext}
use trading_matcher.Base.{
  ℕ, suc, ◌+◌, ◌%◌, ℤ, ◌<◌, ◌^◌, ◌≡◌, ◌≢◌, refl, sym, ap, subst, ltb, inl, inr, Bool, true, some,
  Bool-cases, arith, ◌∙◌, false,
}
use trading_matcher.Timestamp.Doubles.{Doubles}
use trading_matcher.Timestamp.{get_timestamp_ns}
use trading_matcher.Order.{is_buy, Order, empty_order, make_order, double_to_price}
use trading_matcher.PriceLevel.{Heap, write}
use trading_matcher.OrderBook.{World, add_order}
use trading_matcher.MemoryPool.{MemoryPool, Place, allocate}
use trading_matcher.Demo.{pool_size}
use trading_matcher.Console.{Host}
use trading_matcher.Program.{
  memory, with_memory, Program, world_of, with_world, new_order, place_order,
}
use trading_matcher.Program.Adding.{IsModest, Sample, Fits, before, after, add_next-Fits}

memory-with_memory : (h : Heap) (p : MemoryPool) → memory (with_memory h p) ≡ h
memory-with_memory h p = fun_ext (λ a. elim (Bool-cases (ltb a pool_size)) [
  | inl e ↦ rw e refl
  | inr e ↦ rw e (ap h (ground arith))
])

pub world_of-with_world : {d : Doubles} (w : World) (s : Program d) → world_of (with_world w s) ≡ w
world_of-with_world w s =
    ap (λ h. record { book = w.book; heap = h; reads = w.reads }) (memory-with_memory w.heap s.pool)

allocate-pooled :
    (k : ℕ) (p : MemoryPool)
    → k < pool_size
    → p.next_free ≡ k
    → allocate pool_size p
      ≡ (record p { pool = write p.pool k empty_order; next_free = suc k }, Place.pooled k)
unfolding allocate
allocate-pooled k p room e =
    let on : ltb k pool_size ≡ true = ground arith in
    let next : (k + 1) % 2 ^ 64 ≡ suc k = omega arith in rw (e, on, next) refl

-- A slot of the pool taken for a new order.
record Taken {d : Doubles} (order : Order) (k : ℕ) (s s' : Program d) (r : ℕ) : Type 0 where
  pub place : r ≡ k
  pub next : s'.pool.next_free ≡ suc k
  pub there : memory s'.pool k ≡ order
  pub same : (a : ℕ) → a ≢ k → memory s'.pool a ≡ memory s.pool a

module _ (host : Host) where
  open host use {doubles, clock}
  open doubles use {Double}

  new_order-Taken :
      (order : Order) (k : ℕ) (s : Program doubles)
      → k < pool_size
      → s.pool.next_free ≡ k
      → Taken order k s (new_order host order s).0 (new_order host order s).1
  unfolding new_order
  new_order-Taken order k s room e =
      let on : ltb k pool_size ≡ true = ground arith in
      rw (allocate-pooled k s.pool room e) (record {
        place = refl;
        next = refl;
        there = rw on (ground arith);
        same = λ a n. ground (arith, n);
      })

  -- The sample that `main` makes an order of.
  abbrev pub sample_of : Bool → ℕ → Double → Sample
  sample_of is_buy_order qty price = record {
    is_buy_order = is_buy_order;
    quantity = qty;
    price = double_to_price doubles price;
  }

  side-make_order :
      (id qty : ℕ) (is_buy_order : Bool) (price time : ℤ)
      → is_buy (make_order id is_buy_order qty price time 0) ≡ is_buy_order
  side-make_order id qty true price time = refl
  side-make_order id qty false price time = refl

  pub place_order-Fits :
      (samples : ℕ → Sample) (k : ℕ) (is_buy_order : Bool) (qty : ℕ) (price : Double)
      (s : Program doubles)
      → samples k ≡ sample_of is_buy_order qty price
      → k < pool_size
      → 0 < qty
      → qty < 2 ^ 32
      → IsModest (double_to_price doubles price)
      → Fits samples k (world_of s)
      → s.pool.next_free ≡ k
      → let s' = place_order host (suc k) is_buy_order qty price s in
        Fits samples (suc k) (world_of s') × (s'.pool.next_free ≡ suc k)
  unfolding place_order new_order after before
  place_order-Fits samples k is_buy_order qty price s made room some_qty small modest f next =
      let limit = double_to_price doubles price in
      let time = get_timestamp_ns clock s.reads in
      let order = make_order (suc k) is_buy_order qty limit time 0 in
      let before = record s { reads = s.reads + 1 } in
      let (filled, r) = new_order host order before in
      let t = new_order-Taken order k before room next in
      let fits : Fits samples (suc k) (add_order clock (world_of filled) (some k)).0 =
        add_next-Fits clock k (world_of s) (memory filled.pool) (s.reads + 1) samples f t.same
          (ap (λ o. o.id) t.there) (rw t.there some_qty) (rw t.there small) (rw t.there modest)
          (ap is_buy t.there
            ∙ side-make_order (suc k) qty is_buy_order limit time
            ∙ sym (ap (λ x. x.is_buy_order) made))
          (ap (λ o. o.quantity) t.there ∙ sym (ap (λ x. x.quantity) made))
          (ap (λ o. o.price_scaled) t.there ∙ sym (ap (λ x. x.price) made)) in
      (
        subst (Fits samples (suc k))
            (sym (world_of-with_world (add_order clock (world_of filled) (some r)).0 filled))
            (subst (λ x. Fits samples (suc k) (add_order clock (world_of filled) (some x)).0)
              (sym t.place) fits),
        t.next,
      )
