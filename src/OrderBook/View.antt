-- ===== src/OrderBook/View.antt =====
-- The book seen as a queue of orders for each side and price, and the one write to a ladder that
-- `addOrder` and `cancelOrder` come down to.
use trading_matcher.Base.{
  ℕ, ◌≡◌, ◌↔◌, ◌≢◌, refl, ℤ, eqb_ℤ, eqb_ℤ_iff, Bool, true, false, ◌&&◌, Option, none, some, List,
  [], if◌then◌else◌, arith,
}
use trading_matcher.Ladder.{Ladder, find, first, last, IsSorted}
use trading_matcher.Ladder.Lookup.{find-put, find-erase}
use trading_matcher.Ladder.Order.{IsSorted-put, IsSorted-erase}
use trading_matcher.PriceLevel.{PriceLevel, is_empty}
use trading_matcher.OrderBook.{
  OrderBook, empty_book, best_of, update_best_bid, update_best_ask, keep_level,
}

-- `true` names the side of the buy orders, as `is_buy` does.
abbrev pub ladder : Bool → OrderBook → Ladder PriceLevel
ladder true b = b.buy_levels
ladder false b = b.sell_levels

abbrev pub queue_of : Option PriceLevel → List ℕ
queue_of none = []
queue_of (some level) = level.orders

-- The orders that rest on a side at a price, oldest first.
abbrev pub queue : OrderBook → Bool → ℤ → List ℕ
queue b s p = queue_of (find p (ladder s b))

abbrev pub same_side : Bool → Bool → Bool
same_side true s = s
same_side false true = false
same_side false false = true

-- Whether two pairs of a side and a price are the same place in the book.
pub is_at : Bool → ℤ → Bool → ℤ → Bool
is_at s p s' p' = same_side s s' && eqb_ℤ p p'

pub is_at_iff :
    (s : Bool) (p : ℤ) (s' : Bool) (p' : ℤ) → (is_at s p s' p' ≡ true) ↔ ((s ≡ s') × (p ≡ p'))
unfolding is_at
is_at_iff true p true p' = ground (arith, eqb_ℤ_iff p p')
is_at_iff true p false p' = ground arith
is_at_iff false p true p' = ground arith
is_at_iff false p false p' = ground (arith, eqb_ℤ_iff p p')

-- The shape that the ladders keep whatever orders they hold.
pub record IsShaped (b : OrderBook) : Type 0 where
  pub sorted : (s : Bool) → IsSorted (ladder s b)
  pub nonempty :
      (s : Bool) (p : ℤ) (level : PriceLevel) → find p (ladder s b) ≡ some level → level.orders ≢ []
  pub bid_cached : b.best_bid_price ≡ best_of (last b.buy_levels)
  pub ask_cached : b.best_ask_price ≡ best_of (first b.sell_levels)

-- A level written back on one side, dropped if it is empty, and the best price of that side.
unfoldable pub with_level : Bool → ℤ → PriceLevel → OrderBook → OrderBook
with_level true p level b =
    update_best_bid (record b { buy_levels = keep_level p level b.buy_levels })
with_level false p level b =
    update_best_ask (record b { sell_levels = keep_level p level b.sell_levels })

module _ (s : Bool) (p : ℤ) (level : PriceLevel) (b : OrderBook) where
  pub order_map-with_level : (with_level s p level b).order_map ≡ b.order_map
  unfolding with_level update_best_bid update_best_ask
  order_map-with_level = ground arith

IsSorted-keep_level :
    (p : ℤ) (level : PriceLevel) (m : Ladder PriceLevel)
    → IsSorted m
    → IsSorted (keep_level p level m)
IsSorted-keep_level p level m s = ground (arith, IsSorted-put p level m s, IsSorted-erase p m s)

find-keep_level :
    (j p : ℤ) (level : PriceLevel) (m : Ladder PriceLevel)
    → IsSorted m
    → find j (keep_level p level m)
      ≡ (if eqb_ℤ p j then (if is_empty level then none else some level) else find j m)
find-keep_level j p level m s = ground (arith, find-put j p level m, find-erase j p m s)

queue-keep_level :
    (j p : ℤ) (level : PriceLevel) (m : Ladder PriceLevel)
    → IsSorted m
    → queue_of (find j (keep_level p level m))
      ≡ (if eqb_ℤ p j then level.orders else queue_of (find j m))
queue-keep_level j p level m s = rw (find-keep_level j p level m s) (ground arith)

nonempty-keep_level :
    (p : ℤ) (level : PriceLevel) (m : Ladder PriceLevel)
    → IsSorted m
    → ((j : ℤ) (l : PriceLevel) → find j m ≡ some l → l.orders ≢ [])
    → (j : ℤ) (l : PriceLevel) → find j (keep_level p level m) ≡ some l
    → l.orders ≢ []
nonempty-keep_level p level m s n j l e = ground (arith, find-keep_level j p level m s, n j l)

-- What the write changes in the view.
pub queue-with_level :
    (s : Bool) (p : ℤ) (level : PriceLevel) (b : OrderBook)
    → IsShaped b
    → (s' : Bool) (p' : ℤ)
    → queue (with_level s p level b) s' p'
      ≡ (if is_at s p s' p' then level.orders else queue b s' p')
unfolding with_level update_best_bid update_best_ask is_at
queue-with_level true p level b v true p' = queue-keep_level p' p level b.buy_levels (v.sorted true)
queue-with_level true p level b v false p' = refl
queue-with_level false p level b v true p' = refl
queue-with_level false p level b v false p' =
    queue-keep_level p' p level b.sell_levels (v.sorted false)

pub find-with_level :
    (s : Bool) (p : ℤ) (level : PriceLevel) (b : OrderBook)
    → IsShaped b
    → (s' : Bool) (p' : ℤ)
    → find p' (ladder s' (with_level s p level b)) ≡ (
        if is_at s p s' p'
        then (if is_empty level then none else some level)
        else find p' (ladder s' b))
unfolding with_level update_best_bid update_best_ask is_at
find-with_level true p level b v true p' = find-keep_level p' p level b.buy_levels (v.sorted true)
find-with_level true p level b v false p' = refl
find-with_level false p level b v true p' = refl
find-with_level false p level b v false p' =
    find-keep_level p' p level b.sell_levels (v.sorted false)

pub with_level-IsShaped :
    (s : Bool) (p : ℤ) (level : PriceLevel) (b : OrderBook)
    → IsShaped b
    → IsShaped (with_level s p level b)
unfolding with_level update_best_bid update_best_ask
with_level-IsShaped true p level b v = record {
  sorted = elim [
    | true ↦ IsSorted-keep_level p level b.buy_levels (v.sorted true)
    | false ↦ v.sorted false
  ];
  nonempty = elim [
    | true ↦ nonempty-keep_level p level b.buy_levels (v.sorted true) (v.nonempty true)
    | false ↦ v.nonempty false
  ];
  bid_cached = refl;
  ask_cached = v.ask_cached;
}
with_level-IsShaped false p level b v = record {
  sorted = elim [
    | true ↦ v.sorted true
    | false ↦ IsSorted-keep_level p level b.sell_levels (v.sorted false)
  ];
  nonempty = elim [
    | true ↦ v.nonempty true
    | false ↦ nonempty-keep_level p level b.sell_levels (v.sorted false) (v.nonempty false)
  ];
  bid_cached = v.bid_cached;
  ask_cached = refl;
}

pub empty_book-IsShaped : IsShaped empty_book
unfolding find last first
empty_book-IsShaped = record {
  sorted = elim [ true ↦ tt | false ↦ tt ];
  nonempty = elim [ true ↦ λ p l e. cc | false ↦ λ p l e. cc ];
  bid_cached = refl;
  ask_cached = refl;
}

pub queue-map_id :
    (b : OrderBook) (m : ℕ → Option ℕ) (s : Bool) (p : ℤ)
    → queue (record b { order_map = m }) s p ≡ queue b s p
queue-map_id b m true p = refl
queue-map_id b m false p = refl

pub ladder-map_id :
    (b : OrderBook) (m : ℕ → Option ℕ) (s : Bool)
    → ladder s (record b { order_map = m }) ≡ ladder s b
ladder-map_id b m true = refl
ladder-map_id b m false = refl

pub IsShaped-map_id :
    (b : OrderBook) (m : ℕ → Option ℕ) → IsShaped b → IsShaped (record b { order_map = m })
IsShaped-map_id b m v = record {
  sorted = elim [ true ↦ v.sorted true | false ↦ v.sorted false ];
  nonempty = elim [ true ↦ v.nonempty true | false ↦ v.nonempty false ];
  bid_cached = v.bid_cached;
  ask_cached = v.ask_cached;
}
