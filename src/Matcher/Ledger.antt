-- ===== src/Matcher/Ledger.antt =====
-- The quantities of a session: what was entered, traded and withdrawn under each id.
use trading_matcher.Base.{
  ℕ, ◌+◌, ◌≡◌, ◌≢◌, refl, sym, ap, ◌∙◌, subst, inl, inr, ◌<◌, ℤ, Option, Option-cases, Bool-cases,
  false, none, some, List, [], ◌∷◌, ◌++◌, ◌==◌, if◌then◌else◌, arith,
}
use native.Mathlib.Decide.{ℕ_discrete as dec_eq}
use trading_matcher.Timestamp.{Clock}
use trading_matcher.Order.{Order}
use trading_matcher.PriceLevel.{Heap, write}
use trading_matcher.OrderBook.{World, get_order, add_order, cancel_order, modify_order}
use trading_matcher.OrderBook.Invariant.{IsValid}
use trading_matcher.OrderBook.Add.{add_order-Added, add_order-refuses, add_order-keeps}
use trading_matcher.OrderBook.Cancel.{cancel_order-Cancelled}
use trading_matcher.OrderBook.Modify.{modify_order-Modified}
use trading_matcher.OrderBook.Size.{size}
use trading_matcher.Matcher.{Trade, Matcher, match_orders}
use trading_matcher.Matcher.Run.{traded, match_orders-Outcome}
use trading_matcher.Matcher.Answering.{modify_order-others}
use trading_matcher.Matcher.Session.{Step, Reach, Reach-IsValid}

-- The quantity that an id leads to.
abbrev pub quantity_of : Heap → Option ℕ → ℕ
quantity_of h none = 0
quantity_of h (some r) = (h r).quantity

abbrev pub waiting : World → ℕ → ℕ
waiting w id = quantity_of w.heap (get_order w.book id)

-- The trades of `later` that are not yet in `earlier`.
abbrev pub since : List Trade → List Trade → List Trade
since [] later = later
since (t ∷ earlier) [] = []
since (t ∷ earlier) (u ∷ later) = since earlier later

since-append : (xs ys : List Trade) → since xs (xs ++ ys) ≡ ys
since-append [] ys = refl
since-append (x ∷ xs) ys = since-append xs ys

-- What a step enters under `id`: the quantity of an order that is added, or the new one of an order that
-- is modified.
abbrev pub entered : (clock : Clock) (id : ℕ) (w w' : World) → Step clock w w' → ℕ
entered clock id w w' (Step.writes r o n e) = 0
entered clock id w w' (Step.adds r fresh small e) =
    if (w.heap r).id == id then (w.heap r).quantity else 0
entered clock id w w' (Step.cancels id' e) = 0
entered clock id w w' (Step.modifies id' price quantity small e) =
    if id' == id then (elim (get_order w.book id) [ none ↦ 0 | some r ↦ quantity ]) else 0
entered clock id w w' (Step.matches fuel m m' count h e) = 0

-- What it withdraws: all that waits under an id that is cancelled or modified.
abbrev pub withdrawn : (clock : Clock) (id : ℕ) (w w' : World) → Step clock w w' → ℕ
withdrawn clock id w w' (Step.writes r o n e) = 0
withdrawn clock id w w' (Step.adds r fresh small e) = 0
withdrawn clock id w w' (Step.cancels id' e) = if id' == id then waiting w id else 0
withdrawn clock id w w' (Step.modifies id' price quantity small e) =
    if id' == id then waiting w id else 0
withdrawn clock id w w' (Step.matches fuel m m' count h e) = 0

-- What it trades, by the log of its matcher.
abbrev pub executed : (clock : Clock) (id : ℕ) (w w' : World) → Step clock w w' → ℕ
executed clock id w w' (Step.writes r o n e) = 0
executed clock id w w' (Step.adds r fresh small e) = 0
executed clock id w w' (Step.cancels id' e) = 0
executed clock id w w' (Step.modifies id' price quantity small e) = 0
executed clock id w w' (Step.matches fuel m m' count h e) = traded id (since m.logged m'.logged)

-- The sum over the steps of a session.
abbrev pub total :
    (clock : Clock) → ((w w' : World) → Step clock w w' → ℕ) → {w : World} → Reach clock w → ℕ
total clock f (Reach.opened heap reads) = 0
total clock f (Reach.later {w} {w'} reach step) = total clock f reach + f w w' step

quantity_of-same :
    (h g : Heap)
    → ((r : ℕ) → (g r).quantity ≡ (h r).quantity)
    → (o : Option ℕ) → quantity_of g o ≡ quantity_of h o
quantity_of-same h g same none = refl
quantity_of-same h g same (some r) = same r

module _ (clock : Clock) (id : ℕ) (w : World) (v : IsValid w) where
  writes-conserves :
      (r : ℕ) (o : Order)
      → ((j : ℕ) → w.book.order_map j ≢ some r)
      → waiting (record w { heap = write w.heap r o }) id ≡ waiting w id
  unfolding get_order
  writes-conserves r o n = elim (Option-cases (w.book.order_map id)) [
    | inl e ↦ rw e refl
    | inr (q, e) ↦ rw e (ground (arith, n id))
  ]

  adds-conserves :
      (r : ℕ)
      → w.book.order_map (w.heap r).id ≡ none
      → (if (w.heap r).id == id then (w.heap r).quantity else 0) + waiting w id
        ≡ waiting (add_order clock w (some r)).0 id
  unfolding get_order
  adds-conserves r fresh = elim (dec_eq (w.heap r).quantity 0) [
    | yes z ↦ rw (add_order-refuses clock w (some r) (λ q f. ground arith)) (ground (arith, z))
    | no n ↦
        let w' = (add_order clock w (some r)).0 in
        let (t, a) = add_order-Added clock w r v n in
        let same =
          quantity_of-same w.heap w'.heap (λ q. (add_order-keeps clock w (some r) q).3)
            (get_order w'.book id) in
        let now = same ∙ ap (quantity_of w.heap) (a.mapped id) in
        elim (Bool-cases ((w.heap r).id == id)) [
          | inl e ↦
              let none_waits : w.book.order_map id ≡ none = ground (arith, e, fresh) in
              rw e (rw none_waits (omega (arith, rw e at now)))
          | inr e ↦ rw e (omega (arith, rw e at now))
        ]
  ]

  cancels-conserves :
      (id' : ℕ)
      → waiting w id
        ≡ waiting (record w { book = (cancel_order w.heap w.book id').0 }) id
          + (if id' == id then waiting w id else 0)
  cancels-conserves id' = elim (cancel_order-Cancelled w.heap w.book id' v.linked) [
    | inl (e, f) ↦ rw f (elim (Bool-cases (id' == id)) [
      | inl k ↦ let gone : get_order w.book id ≡ none = ground (arith, k, e) in rw (k, gone) refl
      | inr k ↦ rw k (omega arith)
    ])
    | inr (r, e, t, c, l) ↦
        rw (c.mapped id) (elim (Bool-cases (id' == id)) [
          | inl k ↦ rw k (omega arith)
          | inr k ↦ rw k (omega arith)
        ])
  ]

  -- A modification leaves what waits under the other ids.
  modifies-others :
      (id' : ℕ) (price : ℤ) (quantity r : ℕ)
      → get_order w.book id' ≡ some r
      → (id' == id) ≡ false
      → quantity_of (modify_order clock w id' price quantity).0.heap (get_order w.book id)
        ≡ waiting w id
  unfolding get_order
  modifies-others id' price quantity r e k = elim (Option-cases (get_order w.book id)) [
    | inl n ↦ rw n refl
    | inr (x, n) ↦ rw n (
        ap (λ o. o.quantity)
          (modify_order-others clock w id' price quantity r x e (λ same. ground (
            arith,
            k,
            (v.linked.indexed id' r e).0,
            (v.linked.indexed id x n).0,
            ap (λ y. (w.heap y).id) same,
          ))))
  ]

  modifies-conserves :
      (id' : ℕ) (price : ℤ) (quantity : ℕ)
      → (if id' == id then (elim (get_order w.book id) [ none ↦ 0 | some r ↦ quantity ]) else 0)
          + waiting w id
        ≡ waiting (modify_order clock w id' price quantity).0 id
          + (if id' == id then waiting w id else 0)
  modifies-conserves id' price quantity =
      elim (modify_order-Modified clock w id' price quantity v) [
        | inl (e, same, f) ↦ rw same (elim (Bool-cases (id' == id)) [
          | inl k ↦
              let gone : get_order w.book id ≡ none = ground (arith, k, e) in rw (k, gone) refl
          | inr k ↦ rw k (omega arith)
        ])
        | inr (inl (r, e, z, f, c)) ↦ elim (Bool-cases (id' == id)) [
          | inl k ↦
              let own : get_order w.book id ≡ some r = ground (arith, k, e) in
              let gone = rw k at (c.mapped id) in rw (k, own, gone) (omega (arith, z))
          | inr k ↦
              let stays = rw k at (c.mapped id) in
              rw (k, stays) (omega (arith, modifies-others id' price quantity r e k))
        ]
        | inr (inr (r, e, f, m)) ↦ elim (Bool-cases (id' == id)) [
          | inl k ↦
              let own : get_order w.book id ≡ some r = ground (arith, k, e) in
              rw (m.mapped id) (rw (k, own) (omega (arith, m.resized)))
          | inr k ↦
              rw (m.mapped id) (rw k (omega (arith, modifies-others id' price quantity r e k)))
        ]
      ]

  matches-conserves :
      (fuel : ℕ) (m : Matcher) (w' : World) (m' : Matcher) (count : ℕ)
      → size w.book < fuel
      → match_orders fuel clock w m ≡ some (w', m', count)
      → waiting w id ≡ waiting w' id + traded id (since m.logged m'.logged)
  matches-conserves fuel m w' m' count h e =
      let (w1, m1, trades, f, o) = match_orders-Outcome fuel clock w m v h in
      let same_w : w1 ≡ w' = ground (arith, f, e) in
      let same_m : m1 ≡ m' = ground (arith, f, e) in
      let new : since m.logged m'.logged ≡ trades =
        ap (λ x. since m.logged x.logged) (sym same_m)
        ∙ ap (since m.logged) o.logged
        ∙ since-append m.logged trades in
      rw new (
        subst (λ x. waiting w id ≡ waiting x id + traded id trades) same_w
          (elim (Option-cases (get_order w.book id)) [
            | inl n ↦ rw (n, o.unknown id n) (omega (arith, o.idle id n))
            | inr (r, k) ↦ elim (o.stays id r k) [
              | inl k' ↦ rw (k, k') (omega (arith, o.balanced id r k))
              | inr (k', z) ↦ rw (k, k') (omega (arith, o.balanced id r k, z))
            ]
          ]))

Step-conserves :
    (clock : Clock) (id : ℕ) (w w' : World)
    → IsValid w
    → (step : Step clock w w')
    → entered clock id w w' step + waiting w id
      ≡ waiting w' id + executed clock id w w' step + withdrawn clock id w w' step
Step-conserves clock id w w' v (Step.writes r o n e) =
    omega (arith, ap (λ x. waiting x id) e, writes-conserves clock id w v r o n)
Step-conserves clock id w w' v (Step.adds r fresh small e) =
    omega (arith, ap (λ x. waiting x id) e, adds-conserves clock id w v r fresh)
Step-conserves clock id w w' v (Step.cancels id' e) =
    omega (arith, ap (λ x. waiting x id) e, cancels-conserves clock id w v id')
Step-conserves clock id w w' v (Step.modifies id' price quantity small e) =
    omega (arith, ap (λ x. waiting x id) e, modifies-conserves clock id w v id' price quantity)
Step-conserves clock id w w' v (Step.matches fuel m m' count h e) =
    omega (arith, matches-conserves clock id w v fuel m w' m' count h e)

-- In any session of an empty book, with ids that are not in use when an order is added, quantities that
-- fit into 32 bits and writes to orders that are not in the book only: all that was entered under an id,
-- by `addOrder` and `modifyOrder`, is either waiting under it, or traded by the log of `matchOrders`, or
-- withdrawn by `cancelOrder` and `modifyOrder`; nothing is lost, and nothing is traded twice.
pub Reach-conserves :
    (clock : Clock) (id : ℕ) (w : World) (reach : Reach clock w)
    → total clock (entered clock id) reach
      ≡ waiting w id
        + total clock (executed clock id) reach
        + total clock (withdrawn clock id) reach
unfolding get_order
Reach-conserves clock id w (Reach.opened heap reads) = refl
Reach-conserves clock id w (Reach.later {w = u} q step) = omega (
  arith,
  Reach-conserves clock id u q,
  Step-conserves clock id u w (Reach-IsValid clock u q) step,
)
