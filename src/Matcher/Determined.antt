-- ===== src/Matcher/Determined.antt =====
-- Price-time priority leaves nothing open but the time stamps of the trades.
use std.Path.{fun_ext}
use trading_matcher.Base.{
  ℕ, ◌≡◌, ◌≢◌, refl, sym, ◌∙◌, ap, ap₂, subst, ℤ, eq_of_parts, Bool, true, false, List, [], ◌∷◌,
  ltb, map, if◌then◌else◌, arith,
}
use trading_matcher.Matcher.{Trade}
use trading_matcher.Matcher.Priority.{
  Entry, Market, NoBetter, IsBest, Executes, Matching, IsSettled,
}

-- A trade without the time at which it was made.
pub record Terms : Type 0 where
  pub buy_order_id : ℕ
  pub sell_order_id : ℕ
  pub quantity : ℕ
  pub price_scaled : ℤ

abbrev pub terms : Trade → Terms
terms t = record {
  buy_order_id = t.buy_order_id;
  sell_order_id = t.sell_order_id;
  quantity = t.quantity;
  price_scaled = t.price_scaled;
}

NoBetter-antisym : (s : Bool) (p q : ℤ) → NoBetter s p q → NoBetter s q p → p ≡ q
NoBetter-antisym true p q h k = ground (arith, eq_of_parts p q)
NoBetter-antisym false p q h k = ground (arith, eq_of_parts p q)

module _ {v : Market} {s : Bool} where
  pub front-nonempty : {p : ℤ} {e : Entry} → IsBest v s p e → v s p ≢ []
  front-nonempty b z = let (rest, q) = b.front in absurd (cc)

  -- A side has one best price, and one entry that is the first there.
  pub IsBest-unique : {p q : ℤ} {e f : Entry} → IsBest v s p e → IsBest v s q f → (p ≡ q) × (e ≡ f)
  IsBest-unique {p} {q} {e} {f} b c =
      let same : p ≡ q =
        NoBetter-antisym s p q (c.unbeaten p (front-nonempty b))
          (b.unbeaten q (front-nonempty c)) in
      let (rest, x) = b.front in
      let (rest', y) = c.front in
      let both : e ∷ rest ≡ f ∷ rest' = sym x ∙ ap (v s) same ∙ y in (same, cc)

-- From one market the next trade can differ in its time only, and leads to one market.
pub Executes-unique :
    {v w w' : Market} {t t' : Trade}
    → Executes v t w
    → Executes v t' w'
    → (terms t ≡ terms t') × (w ≡ w')
Executes-unique {v} {w} {w'} {t} {t'} x y =
    let (bid_price, bid) = IsBest-unique x.best_bid y.best_bid in
    let (ask_price, ask) = IsBest-unique x.best_ask y.best_ask in
    let buyer : t.buy_order_id ≡ t'.buy_order_id = cc in
    let seller : t.sell_order_id ≡ t'.sell_order_id = cc in
    let amount : t.quantity ≡ t'.quantity =
      x.amount
      ∙ ap₂ (λ b a. if ltb b a then b else a) (ap (λ e. e.quantity) bid) (ap (λ e. e.quantity) ask)
      ∙ sym y.amount in
    let price : t.price_scaled ≡ t'.price_scaled =
      x.price ∙ rw (bid_price, bid, ask_price, ask) refl ∙ sym y.price in
    (
      rw (buyer, seller, amount, price) refl,
      fun_ext (λ s.
          fun_ext
            (λ p. x.filled s p ∙ rw (bid_price, ask_price, amount) refl ∙ sym (y.filled s p))),
    )

-- Two runs that start in one market and leave no trade log the same terms and end in one market.
pub Matching-unique :
    {u v w : Market} {ts ts' : List Trade}
    → Matching u ts v
    → Matching u ts' w
    → IsSettled v
    → IsSettled w
    → (map terms ts ≡ map terms ts') × (v ≡ w)
Matching-unique (Matching.over _) (Matching.over _) h k = (refl, refl)
Matching-unique (Matching.over v) (Matching.after x m) h k = absurd (h _ _ x)
Matching-unique (Matching.after x m) (Matching.over v) h k = absurd (k _ _ x)
Matching-unique {v = v} (Matching.after {ts = ts} x m) (Matching.after y n) h k =
    let (t, e) = Executes-unique x y in
    let (rest, final) = Matching-unique (subst (λ u. Matching u ts v) e m) n h k in
    (ap₂ (λ x xs. x ∷ xs) t rest, final)
