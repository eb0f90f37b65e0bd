-- ===== src/Program/Opening.antt =====
-- The book that `main` builds, before the matching.
use trading_matcher.Base.{
  ℕ, zero, suc, ◌≡◌, refl, sym, ◌∙◌, ap, subst, ℤ, ◌-ℤ◌, inl, inr, true, false, some, [],
  Option-cases, arith,
}
use trading_matcher.Order.{double_to_price}
use trading_matcher.MemoryPool.{new_pool}
use trading_matcher.Ladder.Weight.{weight}
use trading_matcher.Ladder.{first, last}
use trading_matcher.OrderBook.{World, best_of, get_spread, get_order}
use trading_matcher.OrderBook.Invariant.{empty_book-IsLinked}
use trading_matcher.OrderBook.Best.{Front-of_last, Front-of_first}
use trading_matcher.OrderBook.Size.{size}
use trading_matcher.Console.{Host}
use trading_matcher.Program.{
  Program, world_of, launched, set_up, add_orders, place_order, new_order,
}
use trading_matcher.Program.Adding.{IsModest, Fits, Sample}
use trading_matcher.Program.Placing.{sample_of, place_order-Fits}

-- The best prices are 0 or those of orders in the book, so the spread does not overflow.
module _ (samples : ℕ → Sample) (k : ℕ) (w : World) (f : Fits samples k w) where
  bid-IsModest : IsModest w.book.best_bid_price
  bid-IsModest = elim (Option-cases (last w.book.buy_levels)) [
    | inl e ↦
        subst IsModest (sym (f.valid.linked.shaped.bid_cached ∙ ap best_of e))
          (omega arith, omega arith)
    | inr ((p, level), e) ↦
        let (cached, (q, o, front)) = Front-of_last w.heap w.book f.valid.linked p level e in
        subst IsModest front.at_price (f.priced (w.heap q).id q front.known)
  ]

  ask-IsModest : IsModest w.book.best_ask_price
  ask-IsModest = elim (Option-cases (first w.book.sell_levels)) [
    | inl e ↦
        subst IsModest (sym (f.valid.linked.shaped.ask_cached ∙ ap best_of e))
          (omega arith, omega arith)
    | inr ((p, level), e) ↦
        let (cached, (q, o, front)) = Front-of_first w.heap w.book f.valid.linked p level e in
        subst IsModest front.at_price (f.priced (w.heap q).id q front.known)
  ]

  pub spread-some : (d : ℤ) × (get_spread w.book ≡ some d)
  unfolding get_spread ◌-ℤ◌
  spread-some = elim (Option-cases (get_spread w.book)) [
    | inl e ↦ absurd (ground (arith, bid-IsModest, ask-IsModest, e))
    | inr e ↦ e
  ]

-- The three prices of `main`.
pub record Prices (host : Host) : Type 0 where
  pub first_bid : IsModest (double_to_price host.doubles (host.doubles.literal 10050 100))
  pub second_bid : IsModest (double_to_price host.doubles (host.doubles.literal 10075 100))
  pub first_ask : IsModest (double_to_price host.doubles (host.doubles.literal 10025 100))

module _ (host : Host) where
  open host use {doubles}

  -- The book before the matching.
  unfoldable pub opened : Program doubles
  opened = add_orders host (set_up host (launched host))

  -- What `main` makes its orders of, by their slots.
  pub samples : ℕ → Sample
  samples zero = sample_of host true 100 (doubles.literal 10050 100)
  samples (suc zero) = sample_of host true 50 (doubles.literal 10075 100)
  samples (suc (suc r)) = sample_of host false 75 (doubles.literal 10025 100)

  launched-Fits : Fits samples 0 (world_of (launched host))
  unfolding get_order size weight
  launched-Fits = record {
    valid = record { linked = empty_book-IsLinked _; live = λ id r e. cc };
    sized = omega arith;
    bounded = λ id r e. cc;
    priced = λ id r e. cc;
    placed = λ r h. absurd (omega (arith, h));
  }

  pub opened-Fits : Prices host → Fits samples 3 (world_of opened) × (opened.pool.next_free ≡ 3)
  unfolding opened add_orders set_up new_pool samples
  opened-Fits p =
      let s0 = set_up host (launched host) in
      let (f1, n1) =
        place_order-Fits host samples 0 true 100 _ s0 refl (omega arith) (omega arith) (omega arith)
          p.first_bid launched-Fits refl in
      let (f2, n2) =
        place_order-Fits host samples 1 true 50 _ _ refl (omega arith) (omega arith) (omega arith)
          p.second_bid f1 n1 in
      place_order-Fits host samples 2 false 75 _ _ refl (omega arith) (omega arith) (omega arith)
        p.first_ask f2 n2

  -- Nothing has been traded yet.
  pub opened-logged : opened.matcher.logged ≡ []
  unfolding opened add_orders place_order new_order set_up
  opened-logged = refl
