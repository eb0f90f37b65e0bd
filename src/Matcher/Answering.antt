-- ===== src/Matcher/Answering.antt =====
-- What each operation answers in the market of its book.
use std.Path.{fun_ext}
use trading_matcher.Base.{
  ℕ, ◌≡◌, pos, eqb_ℤ_iff, ◌≢◌, refl, ◌∙◌, ap, subst, inl, inr, ◌<◌, ℤ, true, none, some, [], ◌∷◌,
  ◌++◌, if◌then◌else◌, arith, In-without, without,
}
use native.Mathlib.Decide.{ℕ_discrete as dec_eq}
use trading_matcher.Timestamp.{Clock}
use trading_matcher.Order.{Order, is_buy}
use trading_matcher.PriceLevel.{write}
use trading_matcher.OrderBook.{World, add_order, cancel_order, modify_order, get_order, stamp}
use trading_matcher.OrderBook.View.{queue, is_at}
use trading_matcher.OrderBook.Invariant.{IsValid}
use trading_matcher.OrderBook.Add.{add_order-Added, add_order-refuses, add_order-keeps}
use trading_matcher.OrderBook.Cancel.{Cancelled, cancel_order-Cancelled}
use trading_matcher.OrderBook.Modify.{Modified, modify_order-Modified}
use trading_matcher.OrderBook.Size.{size}
use trading_matcher.Matcher.{Matcher, match_orders}
use trading_matcher.Matcher.Priority.{Entry, Market}
use trading_matcher.Matcher.Market.{entry, entries, market_of}
use trading_matcher.Matcher.Refinement.{match_orders-Matching}
use trading_matcher.Matcher.Requests.{Request, Enters, Leaves, Answers}
use trading_matcher.Matcher.Entries.{
  entries-same, entries-joins, unknown-take_id, unknown-Has, own_id, known-Has, known-take_id,
  others-take_id,
}

-- Of the orders in memory `addOrder` and `modifyOrder` change the one that they are given.
add_order-others :
    (clock : Clock) (w : World) (r x : ℕ) → x ≢ r → (add_order clock w (some r)).0.heap x ≡ w.heap x
unfolding add_order stamp
add_order-others clock w r x n = ground arith

add_order-timestamp :
    (clock : Clock) (w : World) (r : ℕ)
    → (w.heap r).timestamp_ns ≢ pos 0
    → ((add_order clock w (some r)).0.heap r).timestamp_ns ≡ (w.heap r).timestamp_ns
unfolding add_order stamp
add_order-timestamp clock w r n = ground (arith, eqb_ℤ_iff (w.heap r).timestamp_ns (pos 0))

pub modify_order-others :
    (clock : Clock) (w : World) (id : ℕ) (price : ℤ) (quantity r x : ℕ)
    → get_order w.book id ≡ some r
    → x ≢ r
    → (modify_order clock w id price quantity).0.heap x ≡ w.heap x
unfolding modify_order get_order
modify_order-others clock w id price quantity r x known n =
    rw (known, modify_order) (add_order-others clock _ r x n ∙ ground arith)

modify_order-id :
    (clock : Clock) (w : World) (id : ℕ) (price : ℤ) (quantity r : ℕ)
    → get_order w.book id ≡ some r
    → ((modify_order clock w id price quantity).0.heap r).id ≡ (w.heap r).id
unfolding modify_order get_order
modify_order-id clock w id price quantity r known =
    rw (known, modify_order) ((add_order-keeps clock _ (some r) r).0 ∙ ground arith)

-- A modification to quantity 0 is reported as refused.
modify_order-positive :
    (clock : Clock) (w : World) (id : ℕ) (price : ℤ) (quantity : ℕ)
    → (modify_order clock w id price quantity).1 ≡ true
    → 0 < quantity
unfolding modify_order add_order stamp
modify_order-positive clock w id price quantity e = ground arith

module _ (clock : Clock) (w : World) (v : IsValid w) where
  pub writes-Answers :
      (r : ℕ) (o : Order)
      → ((id : ℕ) → w.book.order_map id ≢ some r)
      → market_of (record w { heap = write w.heap r o }) ≡ market_of w
  writes-Answers r o absent = fun_ext (λ s. fun_ext (λ p.
      entries-same w.heap (write w.heap r o) (queue w.book s p)
        (λ x i. ground (arith, v.linked.listed s p x i, absent (w.heap x).id))))

  pub adds-Answers :
      (r : ℕ)
      → w.book.order_map (w.heap r).id ≡ none
      → let o = w.heap r in
        Answers
          (Request.adds (is_buy o) o.price_scaled (entry w.heap r))
          (market_of w)
          (market_of (add_order clock w (some r)).0)
  adds-Answers r fresh = elim (dec_eq (w.heap r).quantity 0) [
    | yes z ↦
        inl (z, ap (λ u. market_of u.0) (add_order-refuses clock w (some r) (λ q f. ground arith)))
    | no n ↦
        let w' = (add_order clock w (some r)).0 in
        let (i, side, price, q) = add_order-keeps clock w (some r) r in
        inr (
          omega arith,
          (
            (w'.heap r).timestamp_ns,
            add_order-timestamp clock w r,
            λ s p.
                ap (entries w'.heap) ((add_order-Added clock w r v n).1.queued s p)
                ∙ entries-joins w.heap w'.heap
                    (is_at (is_buy (w.heap r)) (w.heap r).price_scaled s p) (queue w.book s p) r
                    (λ x j.
                      add_order-others clock w r x
                        (λ e. ground (arith, v.linked.listed s p x j, ap (λ y. (w.heap y).id) e)))
                ∙ rw (i, q) refl,
          ),
        )
  ]

  pub cancels-Answers :
      (id : ℕ)
      → Leaves id (market_of w) (market_of (record w { book = (cancel_order w.heap w.book id).0 }))
  cancels-Answers id s p = elim (cancel_order-Cancelled w.heap w.book id v.linked) [
    | inl (e, f) ↦ rw f (unknown-take_id w.heap w.book v.linked id e s p)
    | inr (r, e, t, c, l) ↦
        ap (entries w.heap) (c.queued s p) ∙ known-take_id w.heap w.book v.linked id r e s p
  ]

  module _ (id : ℕ) (price : ℤ) (quantity r : ℕ) (known : get_order w.book id ≡ some r) where
    abbrev modified : World
    modified = (modify_order clock w id price quantity).0

    others : (x : ℕ) → x ≢ r → modified.heap x ≡ w.heap x
    others x = modify_order-others clock w id price quantity r x known

    abbrev left : Market
    left s p = entries w.heap (without r (queue w.book s p))

    leaves : Leaves id (market_of w) left
    leaves = known-take_id w.heap w.book v.linked id r known

    modified-Leaves :
        Cancelled w.book id r modified.book → Leaves id (market_of w) (market_of modified)
    modified-Leaves c s p =
        ap (entries modified.heap) (c.queued s p)
        ∙ others-take_id w.heap w.book v.linked id r known modified.heap others s p

    abbrev entered : Entry
    entered = record { id = id; quantity = quantity; timestamp_ns = (modified.heap r).timestamp_ns }

    modified-entry : Modified w r price quantity modified → entry modified.heap r ≡ entered
    modified-entry m =
        rw
          (
            modify_order-id clock w id price quantity r known,
            own_id w.heap w.book v.linked id r known,
            m.resized,
          )
          refl

    modified-Enters :
        Modified w r price quantity modified
        → Enters (is_buy (w.heap r)) price entered left (market_of modified)
    modified-Enters m s p =
        ap (entries modified.heap) (m.queued s p)
        ∙ entries-joins w.heap modified.heap (is_at (is_buy (w.heap r)) price s p)
            (without r (queue w.book s p)) r
            (λ x i. others x (In-without x r (queue w.book s p) i).1)
        ∙ ap (λ e. if is_at (is_buy (w.heap r)) price s p then left s p ++ e ∷ [] else left s p)
            (modified-entry m)

  pub modifies-Answers :
      (id : ℕ) (price : ℤ) (quantity : ℕ)
      → Answers
          (Request.modifies id price quantity)
          (market_of w)
          (market_of (modify_order clock w id price quantity).0)
  modifies-Answers id price quantity = elim (modify_order-Modified clock w id price quantity v) [
    | inl (e, same, f) ↦ inl (unknown-Has w.heap w.book v.linked id e, ap market_of same)
    | inr (inl (r, e, z, f, c)) ↦ inr (
      is_buy (w.heap r),
      (w.heap r).price_scaled,
      known-Has w.heap w.book v.linked id r e,
      inl (z, modified-Leaves id price quantity r e c),
    )
    | inr (inr (r, e, f, m)) ↦ inr (
      is_buy (w.heap r),
      (w.heap r).price_scaled,
      known-Has w.heap w.book v.linked id r e,
      inr (
        modify_order-positive clock w id price quantity f,
        (
          ((modified id price quantity r e).heap r).timestamp_ns,
          left id price quantity r e,
          leaves id price quantity r e,
          modified-Enters id price quantity r e m,
        ),
      ),
    )
  ]

  pub matches-Answers :
      (fuel : ℕ) (m : Matcher) (w' : World) (m' : Matcher) (count : ℕ)
      → size w.book < fuel
      → match_orders fuel clock w m ≡ some (w', m', count)
      → Answers Request.matches (market_of w) (market_of w')
  matches-Answers fuel m w' m' count h e =
      let (w1, m1, trades, f, logged, few, run, settled) =
        match_orders-Matching fuel clock w m v h in
      subst (λ u. Answers Request.matches (market_of w) (market_of u)) {x = w1} {y = w'}
        (ground (arith, f, e)) (trades, run, settled)
