-- ===== src/Matcher/Traded.antt =====
-- What one round of the loop of `matchOrders` does to the orders and the book.
use trading_matcher.Base.{
  ℕ, ◌≡◌, ◌⊎◌, ◌+◌, ◌≤◌, ◌<◌, ℤ, ◌≤ℤ◌, ◌<ℤ◌, Bool, none, some, [], ◌∷◌, ◌++◌,
}
use trading_matcher.OrderBook.{World, get_order}
use trading_matcher.OrderBook.View.{queue}
use trading_matcher.OrderBook.Size.{size}
use trading_matcher.Matcher.{Trade, Matcher}
use trading_matcher.Matcher.Remaining.{remaining}

-- The round traded the smaller quantity once, between the two fronts, at a price between their
-- limits; it took that quantity from both, and wrote one log line.
pub record Traded (w : World) (m : Matcher) (bid ask : ℕ) (w' : World) (m' : Matcher) : Type 0 where
  pub trade : Trade
  pub last : m'.last_trade ≡ some trade
  pub logged : m'.logged ≡ m.logged ++ trade ∷ []
  pub buyer : trade.buy_order_id ≡ (w.heap bid).id
  pub seller : trade.sell_order_id ≡ (w.heap ask).id
  pub positive : 0 < trade.quantity
  pub from_bid : (w'.heap bid).quantity + trade.quantity ≡ (w.heap bid).quantity
  pub from_ask : (w'.heap ask).quantity + trade.quantity ≡ (w.heap ask).quantity
  pub one_done : ((w'.heap bid).quantity ≡ 0) ⊎ ((w'.heap ask).quantity ≡ 0)
  pub at_least : w.book.best_ask_price ≤ℤ trade.price_scaled
  pub at_most : trade.price_scaled ≤ℤ w.book.best_bid_price
  pub older_sets_price :
      ((trade.price_scaled ≡ (w.heap bid).price_scaled)
        × ((w.heap bid).timestamp_ns <ℤ (w.heap ask).timestamp_ns))
      ⊎ ((trade.price_scaled ≡ (w.heap ask).price_scaled)
          × ((w.heap ask).timestamp_ns ≤ℤ (w.heap bid).timestamp_ns))
  pub queued : (s : Bool) (p : ℤ) → queue w'.book s p ≡ remaining w'.heap (queue w.book s p)
  pub stays :
      (id r : ℕ)
      → get_order w.book id ≡ some r
      → (get_order w'.book id ≡ some r)
        ⊎ ((get_order w'.book id ≡ none) × ((w'.heap r).quantity ≡ 0))
  pub unknown : (id : ℕ) → get_order w.book id ≡ none → get_order w'.book id ≡ none
  pub falling : (r : ℕ) → (w'.heap r).quantity ≤ (w.heap r).quantity
  pub others : (r : ℕ) → (r ≡ bid) ⊎ ((r ≡ ask) ⊎ (w'.heap r ≡ w.heap r))
  pub fewer : size w'.book < size w.book
