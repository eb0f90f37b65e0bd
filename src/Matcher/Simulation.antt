-- ===== src/Matcher/Simulation.antt =====
-- A session of the engine against the requests of a market.
use trading_matcher.Base.{sym, ◌∙◌, ap, subst}
use trading_matcher.Timestamp.{Clock}
use trading_matcher.Order.{is_buy}
use trading_matcher.OrderBook.{World}
use trading_matcher.OrderBook.Invariant.{IsValid}
use trading_matcher.Matcher.Market.{entry, market_of}
use trading_matcher.Matcher.Requests.{Request, Answers}
use trading_matcher.Matcher.Answering.{
  writes-Answers, adds-Answers, cancels-Answers, modifies-Answers, matches-Answers,
}
use trading_matcher.Matcher.Session.{Step, Reach, Reach-IsValid}

-- The request that a step of a session makes; a write to an order outside the book makes none.
abbrev pub request_of : {clock : Clock} {w w' : World} → Step clock w w' → Request
request_of (Step.writes r o n e) = Request.nothing
request_of {w = w} (Step.adds r fresh small e) =
    let o = w.heap r in Request.adds (is_buy o) o.price_scaled (entry w.heap r)
request_of (Step.cancels id e) = Request.cancels id
request_of (Step.modifies id price quantity small e) = Request.modifies id price quantity
request_of (Step.matches fuel m m' count h e) = Request.matches

Step-Answers :
    (clock : Clock) (w w' : World)
    → IsValid w
    → (step : Step clock w w') → Answers (request_of step) (market_of w) (market_of w')
Step-Answers clock w w' v (Step.writes r o n e) = ap market_of e ∙ writes-Answers clock w v r o n
Step-Answers clock w w' v (Step.adds r fresh small e) =
    let o = w.heap r in
    subst
      (λ u.
        Answers (Request.adds (is_buy o) o.price_scaled (entry w.heap r)) (market_of w)
          (market_of u))
      (sym e) (adds-Answers clock w v r fresh)
Step-Answers clock w w' v (Step.cancels id e) =
    subst (λ u. Answers (Request.cancels id) (market_of w) (market_of u)) (sym e)
      (cancels-Answers clock w v id)
Step-Answers clock w w' v (Step.modifies id price quantity small e) =
    subst (λ u. Answers (Request.modifies id price quantity) (market_of w) (market_of u)) (sym e)
      (modifies-Answers clock w v id price quantity)
Step-Answers clock w w' v (Step.matches fuel m m' count h e) =
    matches-Answers clock w v fuel m w' m' count h e

-- Whatever a session made of an empty book so far, with ids that are not in use when an order is
-- added, quantities that fit into 32 bits and writes to orders that are not in the book only, its
-- next step answers the request that it stands for in the market of the book, which has the ids,
-- quantities and timestamps that wait on each side at each price, in their order. Such a write
-- changes nothing. An order of positive quantity goes behind those at its side and price, with its
-- timestamp unless that is 0, and one of quantity 0 changes nothing. `cancelOrder` takes the entries
-- of its id away, on both sides and at all prices. `modifyOrder` changes nothing if the id waits
-- nowhere; else it takes its entries away and, unless the quantity is 0, puts one behind those at the
-- new price, on a side where the id has waited, with the new quantity and some timestamp.
-- `matchOrders`, given more rounds than the book has orders, fills by price-time priority until
-- nothing can trade.
pub Reach-Answers :
    (clock : Clock) (w w' : World)
    → Reach clock w
    → (step : Step clock w w') → Answers (request_of step) (market_of w) (market_of w')
Reach-Answers clock w w' reach step = Step-Answers clock w w' (Reach-IsValid clock w reach) step
