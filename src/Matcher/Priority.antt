-- ===== src/Matcher/Priority.antt =====
-- What price-time priority asks of a matching engine, without its levels, pointers and maps.
use trading_matcher.Base.{
  ℕ, ◌-◌, ℤ, pos, ◌≤ℤ◌, ◌<ℤ◌, ◌≡◌, ◌≢◌, Bool, true, false, List, [], ◌∷◌, ◌==◌, eqb_ℤ, ltb, ltb_ℤ,
  if◌then◌else◌,
}
use trading_matcher.Matcher.{Trade}

pub record Entry : Type 0 where
  pub id : ℕ
  pub quantity : ℕ
  pub timestamp_ns : ℤ

-- The entries that wait at a side and price, oldest first; `true` is the side of the buyers.
abbrev pub Market : Type 0
Market = Bool → ℤ → List Entry

-- The first entry gives up `k`, and leaves if that is all it had.
abbrev pub fill : ℕ → List Entry → List Entry
fill k [] = []
fill k (e ∷ es) = if e.quantity == k then es else record e { quantity = e.quantity - k } ∷ es

-- `p` is no better than `q` for the other side.
abbrev pub NoBetter : Bool → ℤ → ℤ → Type 0
NoBetter true p q = p ≤ℤ q
NoBetter false p q = q ≤ℤ p

pub record IsBest (v : Market) (s : Bool) (p : ℤ) (e : Entry) : Type 0 where
  pub front : (rest : List Entry) × (v s p ≡ e ∷ rest)
  pub unbeaten : (q : ℤ) → v s q ≢ [] → NoBetter s q p

-- A trade between the oldest entries at the best prices, which are positive and cross, of the smaller
-- quantity, at the price of the entry with the older timestamp, the ask's on equal ones; nothing else
-- changes.
pub record Executes (v : Market) (t : Trade) (w : Market) : Type 0 where
  pub bid_price : ℤ
  pub ask_price : ℤ
  pub bid : Entry
  pub ask : Entry
  pub best_bid : IsBest v true bid_price bid
  pub best_ask : IsBest v false ask_price ask
  pub buyer : t.buy_order_id ≡ bid.id
  pub seller : t.sell_order_id ≡ ask.id
  pub amount : t.quantity ≡ (if ltb bid.quantity ask.quantity then bid.quantity else ask.quantity)
  pub positive : pos 0 <ℤ ask_price
  pub crossed : ask_price ≤ℤ bid_price
  pub price :
      t.price_scaled ≡ (if ltb_ℤ bid.timestamp_ns ask.timestamp_ns then bid_price else ask_price)
  pub filled :
      (s : Bool) (p : ℤ)
      → w s p
        ≡ (if eqb_ℤ p (if s then bid_price else ask_price) then fill t.quantity (v s p) else v s p)

pub data Matching : Market → List Trade → Market → Type 0 where
  over : (v : Market) → Matching v [] v
  after :
      {u v w : Market} {t : Trade} {ts : List Trade}
      → Executes u t v
      → Matching v ts w
      → Matching u (t ∷ ts) w

-- No trade is left.
abbrev pub IsSettled : Market → Type 0
IsSettled v = (t : Trade) (w : Market) → ¬ Executes v t w
