-- ===== src/Matcher/Board.antt =====
-- What `matchOrders` reads of a book: two books with the same queues of ids, quantities and timestamps,
-- however their levels, maps and orders lie in memory, are matched alike.
use trading_matcher.Base.{
  ℕ, ◌≡◌, refl, sym, ◌∙◌, ap, ◌%◌, ◌^◌, ◌<◌, Option, none, some, List, [], ◌∷◌, ◌++◌, map,
  length-map, length, subst,
}
use trading_matcher.Timestamp.{Clock}
use trading_matcher.OrderBook.{World}
use trading_matcher.OrderBook.Invariant.{IsValid}
use trading_matcher.OrderBook.Size.{size}
use trading_matcher.Matcher.{Trade, Matcher, match_orders}
use trading_matcher.Matcher.Priority.{Market, Matching}
use trading_matcher.Matcher.Determined.{Terms, terms, Matching-unique}
use trading_matcher.Matcher.Market.{market_of}
use trading_matcher.Matcher.Refinement.{match_orders-Matching}

-- The market and the log after a run, the times of the trades left out, and the number returned.
abbrev pub Report : Type 0
Report = Market × List Terms × ℕ

abbrev pub report : Option (World × Matcher × ℕ) → Option Report
report none = none
report (some (w, m, n)) = some (market_of w, map terms m.logged, n)

same_log :
    (ls ts us : List Trade)
    → map terms ts ≡ map terms us
    → map terms (ls ++ ts) ≡ map terms (ls ++ us)
same_log [] ts us e = e
same_log (l ∷ ls) ts us e = ap (λ xs. terms l ∷ xs) (same_log ls ts us e)

-- With as many rounds as each needs, two runs of `matchOrders` on well-formed books with the same
-- queues of ids, quantities and timestamps at each price log trades of the same parties, quantities and
-- prices in the same order, return the same number, and leave the same queues; whatever their clocks
-- and the places of the orders in memory.
pub match_orders-report :
    (fuel fuel' : ℕ) (clock clock' : Clock) (w w' : World) (m : Matcher)
    → IsValid w
    → IsValid w'
    → size w.book < fuel
    → size w'.book < fuel'
    → market_of w ≡ market_of w'
    → (r : Report) × (report (match_orders fuel clock w m) ≡ some r)
      × (report (match_orders fuel' clock' w' m) ≡ some r)
match_orders-report fuel fuel' clock clock' w w' m v v' h h' same =
    let (x, n, ts, e, logged, few, run, settled) = match_orders-Matching fuel clock w m v h in
    let (x', n', ts', e', logged', few', run', settled') =
      match_orders-Matching fuel' clock' w' m v' h' in
    let (equal, final) =
      Matching-unique run (subst (λ u. Matching u ts' (market_of x')) (sym same) run') settled
        settled' in
    let count : length ts' ≡ length ts =
      sym (length-map terms ts') ∙ ap length (sym equal) ∙ length-map terms ts in
    (
      (market_of x, map terms (m.logged ++ ts), length ts % 2 ^ 64),
      ap report e ∙ ap (λ l. some (market_of x, map terms l, length ts % 2 ^ 64)) logged,
      ap report e'
          ∙ ap (λ l. some (market_of x', map terms l, length ts' % 2 ^ 64)) logged'
          ∙ rw (sym final, same_log m.logged ts' ts (sym equal), count) refl,
    )
