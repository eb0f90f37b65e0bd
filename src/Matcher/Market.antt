-- ===== src/Matcher/Market.antt =====
-- A book as a market, and what a trade does to one side of it.
use trading_matcher.Base.{
  ℕ, ◌≡◌, ◌≢◌, refl, sym, ◌∙◌, ap, subst, inl, inr, ◌+◌, ◌<◌, ℤ, ◌≤ℤ◌, eqb_ℤ, eqb_ℤ_iff, Bool, true,
  false, not, some, List, [], ◌∷◌, if◌then◌else◌, Bool-cases, arith, In, Distinct,
}
use trading_matcher.Order.{is_buy}
use trading_matcher.PriceLevel.{Heap}
use trading_matcher.OrderBook.{OrderBook, World, get_order, has_match}
use trading_matcher.OrderBook.View.{queue}
use trading_matcher.OrderBook.Invariant.{IsLinked}
use trading_matcher.OrderBook.Best.{Front, best_bid, best_ask}
use trading_matcher.Matcher.Remaining.{remaining}
use trading_matcher.Matcher.Miscount.{not_self}
use trading_matcher.Matcher.Determined.{front-nonempty, IsBest-unique}
use trading_matcher.Matcher.Priority.{Entry, Market, fill, IsBest, IsSettled}

abbrev pub entry : Heap → ℕ → Entry
entry h r = record { id = (h r).id; quantity = (h r).quantity; timestamp_ns = (h r).timestamp_ns }

abbrev pub entries : Heap → List ℕ → List Entry
entries h [] = []
entries h (r ∷ rs) = entry h r ∷ entries h rs

-- The book as a market.
abbrev pub market_of : World → Market
market_of w s p = entries w.heap (queue w.book s p)

-- Orders that a trade does not touch.
abbrev Kept : Heap → Heap → List ℕ → Type 0
Kept h g xs = (r : ℕ) → In r xs → (entry g r ≡ entry h r) × (0 < (h r).quantity)

entries-Kept : (h g : Heap) (xs : List ℕ) → Kept h g xs → entries g (remaining g xs) ≡ entries h xs
entries-Kept h g [] k = refl
entries-Kept h g (x ∷ xs) k =
    ground (arith, k x (inl refl), entries-Kept h g xs (λ r i. k r (inr i)))

entries-filled :
    (h g : Heap) (x k : ℕ) (xs : List ℕ)
    → (g x).id ≡ (h x).id
    → (g x).timestamp_ns ≡ (h x).timestamp_ns
    → (g x).quantity + k ≡ (h x).quantity
    → Kept h g xs
    → entries g (remaining g (x ∷ xs)) ≡ fill k (entries h (x ∷ xs))
entries-filled h g x k xs e t l kept = ground (arith, e, t, l, entries-Kept h g xs kept)

-- The queues of one side after its front order `x` has given up `k` to `y` on the other side.
module _ (h g : Heap) (b : OrderBook) (s : Bool) (best : ℤ) (x y k : ℕ) (v : IsLinked h b)
    (live : (id r : ℕ) → get_order b id ≡ some r → 0 < (h r).quantity) (front : Front h b s best x)
    (other : is_buy (h y) ≡ not s) (others : (r : ℕ) → r ≢ x → r ≢ y → entry g r ≡ entry h r)
    (same_id : (g x).id ≡ (h x).id) (same_time : (g x).timestamp_ns ≡ (h x).timestamp_ns)
    (lowered : (g x).quantity + k ≡ (h x).quantity) where
  kept : (p : ℤ) (xs : List ℕ) → ((r : ℕ) → In r xs → In r (queue b s p) × (r ≢ x)) → Kept h g xs
  unfolding get_order
  kept p xs within r i =
      let (inside, n) = within r i in
      let (side, price, known) = v.listed s p r inside in
      (
        others r n (λ z. not_self s (sym side ∙ ap (λ u. is_buy (h u)) z ∙ other)),
        live (h r).id r known,
      )

  at_best : entries g (remaining g (queue b s best)) ≡ fill k (entries h (queue b s best))
  at_best =
      let (rest, q) = front.behind in
      let distinct : Distinct (x ∷ rest) = subst Distinct q (v.distinct s best) in
      ap (λ xs. entries g (remaining g xs)) q
      ∙ entries-filled h g x k rest same_id same_time lowered (
          kept best rest
            (λ r i. (subst (In r) (sym q) (inr i), λ z. distinct.0 (subst (λ u. In u rest) z i))))
      ∙ ap (λ xs. fill k (entries h xs)) (sym q)

  elsewhere : (p : ℤ) → p ≢ best → entries g (remaining g (queue b s p)) ≡ entries h (queue b s p)
  elsewhere p n = entries-Kept h g (queue b s p) (
      kept p (queue b s p) (λ r i.
        (i, λ z. n (sym (v.listed s p r i).1 ∙ ap (λ u. (h u).price_scaled) z ∙ front.at_price))))

  pub side-filled :
      (p : ℤ)
      → entries g (remaining g (queue b s p))
        ≡ (if eqb_ℤ p best then fill k (entries h (queue b s p)) else entries h (queue b s p))
  side-filled p = elim (Bool-cases (eqb_ℤ p best)) [
    | inl e ↦ rw (e, (eqb_ℤ_iff p best).0 e) at_best
    | inr e ↦ rw e (elsewhere p (λ z. ground (arith, e, (eqb_ℤ_iff p best).1 z)))
  ]

nonempty-In : (h : Heap) (xs : List ℕ) → entries h xs ≢ [] → (r : ℕ) × In r xs
nonempty-In h [] n = absurd (n refl)
nonempty-In h (x ∷ xs) n = (x, inl refl)

-- The best price of a side, with the first order there, is the best of the market.
module _ (w : World) (v : IsLinked w.heap w.book) where
  pub bid_price-IsBest :
      (bid : ℕ)
      → Front w.heap w.book true w.book.best_bid_price bid
      → IsBest (market_of w) true w.book.best_bid_price (entry w.heap bid)
  unfolding get_order
  bid_price-IsBest bid c = record {
    front = (entries w.heap c.behind.0, ap (entries w.heap) c.behind.1);
    unbeaten = λ q n.
        let (r, i) = nonempty-In w.heap (queue w.book true q) n in
        let (side, price, known) = v.listed true q r i in
        let (x, e, f, le) = best_bid w.heap w.book (w.heap r).id r v known side in
        subst (λ p. p ≤ℤ w.book.best_bid_price) price le;
  }

  pub ask_price-IsBest :
      (ask : ℕ)
      → Front w.heap w.book false w.book.best_ask_price ask
      → IsBest (market_of w) false w.book.best_ask_price (entry w.heap ask)
  unfolding get_order
  ask_price-IsBest ask c = record {
    front = (entries w.heap c.behind.0, ap (entries w.heap) c.behind.1);
    unbeaten = λ q n.
        let (r, i) = nonempty-In w.heap (queue w.book false q) n in
        let (side, price, known) = v.listed false q r i in
        let (x, e, f, le) = best_ask w.heap w.book (w.heap r).id r v known side in
        subst (λ p. w.book.best_ask_price ≤ℤ p) price le;
  }

  -- A best price of the market is the cached one.
  bid_price-cached : (p : ℤ) (e : Entry) → IsBest (market_of w) true p e → p ≡ w.book.best_bid_price
  unfolding get_order
  bid_price-cached p e b =
      let (r, i) = nonempty-In w.heap (queue w.book true p) (front-nonempty b) in
      let (side, price, known) = v.listed true p r i in
      let (x, o, f, le) = best_bid w.heap w.book (w.heap r).id r v known side in
      (IsBest-unique b (bid_price-IsBest x f)).0

  ask_price-cached :
      (p : ℤ) (e : Entry) → IsBest (market_of w) false p e → p ≡ w.book.best_ask_price
  unfolding get_order
  ask_price-cached p e b =
      let (r, i) = nonempty-In w.heap (queue w.book false p) (front-nonempty b) in
      let (side, price, known) = v.listed false p r i in
      let (x, o, f, le) = best_ask w.heap w.book (w.heap r).id r v known side in
      (IsBest-unique b (ask_price-IsBest x f)).0

  -- A trade in the market of a book has the cached best prices, so `hasMatch` sees it.
  pub not_has_match-IsSettled : has_match w.book ≡ false → IsSettled (market_of w)
  unfolding has_match
  not_has_match-IsSettled e t x y = ground (
    arith,
    bid_price-cached y.bid_price y.bid y.best_bid,
    ask_price-cached y.ask_price y.ask y.best_ask,
    y.positive,
    y.crossed,
  )
