-- ===== src/Program/Run.antt =====
-- What a run of `main` comes to.
use trading_matcher.Base.{
  ℕ, ◌+◌, ◌%◌, ◌≤◌, ◌<◌, ◌^◌, ◌≡◌, refl, sym, ◌∙◌, ap, subst, ℤ, Option, some, List, [], ◌∷◌, ◌++◌,
  map, length, codes, arith,
}
use trading_matcher.Matcher.Priority.{Matching, IsSettled}
use trading_matcher.Matcher.Market.{market_of}
use trading_matcher.Matcher.Refinement.{match_orders-Matching}
use trading_matcher.OrderBook.{World, get_spread}
use trading_matcher.Matcher.{Trade, Matcher, match_orders}
use trading_matcher.Console.{Host, Line, info_f, scaled, spread_line, trade_line}
use trading_matcher.Program.{
  Program, world_of, shown, show_book, matched, match_all, conclude, main, start_timer, timed,
}
use trading_matcher.OrderBook.{get_order}
use trading_matcher.OrderBook.Invariant.{IsValid}
use trading_matcher.Program.Adding.{Placed}
use trading_matcher.Program.Placing.{world_of-with_world}
use trading_matcher.Program.Opening.{
  samples, opened-logged, opened, spread-some, opened-Fits, Prices,
}
use trading_matcher.Program.Lines.{short_shown, conclude-lines}

-- How a run ends. The book before the matching is well formed and has the three orders, as `main` makes
-- them, and no other. `main` returns the number of its trades, at most 3, which are those that
-- price-time priority asks for; no further such trade is left, the orders are in the first three slots
-- of the pool, and of the lines at most 22 are not those of the trades.
pub record Ran (host : Host) (outcome : Option (Program host.doubles × ℕ)) : Type 0 where
  pub program : Program host.doubles
  pub trades : List Trade
  pub result : outcome ≡ some (program, length trades)
  pub opened_valid : IsValid (world_of (opened host))
  pub placed : (r : ℕ) → r < 3 → Placed (samples host r) (world_of (opened host)) r
  pub only : (id r : ℕ) → get_order (opened host).order_book id ≡ some r → (id ≤ 3) × (r < 3)
  pub matching : Matching (market_of (world_of (opened host))) trades (market_of (world_of program))
  pub settled : IsSettled (market_of (world_of program))
  pub few : length trades ≤ 3
  pub slots : program.pool.next_free ≡ 3
  pub earlier : List Line
  pub later : List Line
  pub told : program.lines ≡ earlier ++ map (trade_line host) trades ++ later
  pub short : length earlier + length later ≤ 22

module _ (host : Host) where
  open host use {doubles, clock, tsc}

  show_book-some :
      (d : ℤ) (s : Program doubles)
      → get_spread s.order_book ≡ some d
      → (spread : Line) × (show_book host s ≡ some (shown host spread s))
  unfolding show_book spread_line
  show_book-some d s e =
      (info_f host (codes "  Spread: $%.2f") (scaled host d ∷ []), rw (e, show_book) refl)

  match_all-some :
      (fuel trades : ℕ) (s : Program doubles) (w : World) (m : Matcher)
      → match_orders fuel clock (world_of s) s.matcher ≡ some (w, m, trades)
      → match_all host fuel s
        ≡ some (matched host w m trades (start_timer host s) (timed host s), trades)
  unfolding match_all
  match_all-some fuel trades s w m e = rw (e, match_all) refl

  main-some :
      (fuel : ℕ) (s : Program doubles) (s' : Program doubles) (n : ℕ)
      → show_book host (opened host) ≡ some s
      → match_all host fuel s ≡ some (s', n)
      → main host fuel ≡ some (conclude host s', n)
  unfolding main opened
  main-some fuel s s' n e f = rw (e, main) (rw (f, main) refl)

  concluded-world :
      (w : World) (m : Matcher) (n : ℕ) (s : Program doubles)
      → world_of (conclude host (matched host w m n (start_timer host s) (timed host s))) ≡ w
  unfolding conclude matched
  concluded-world w m n s = world_of-with_world w s

  concluded-next :
      (w : World) (m : Matcher) (n : ℕ) (s : Program doubles)
      → (conclude host (matched host w m n (start_timer host s) (timed host s))).pool.next_free
        ≡ s.pool.next_free
  unfolding conclude matched
  concluded-next w m n s = refl

  -- With the three prices between 0 and the largest int64_t, and more than 3 rounds of `matchOrders`,
  -- `main` comes to the call of `demonstrateSPSCQueue`, whatever the clocks, the kernel and
  -- `snprintf` answer. Before the matching its book has the three orders in the first three slots of
  -- the pool, with the sides, quantities and prices that `main` gives them, and no other; it then
  -- makes the trades that price-time priority asks for, at most 3, until none is left, returns their
  -- number, and has logged a line for each, in order, among at most 22 others.
  pub main-Ran : (fuel : ℕ) → 3 < fuel → Prices host → Ran host (main host fuel)
  main-Ran fuel h p =
      let (f, next) = opened-Fits host p in
      let s = opened host in
      let (d, spread_some) = spread-some (samples host) 3 (world_of s) f in
      let (spread, displayed) = show_book-some d s spread_some in
      let s' = shown host spread s in
      let (w, m, trades, e, logged, few, matching, settled) =
        match_orders-Matching fuel clock (world_of s) s.matcher f.valid
          (omega (arith, h, f.sized)) in
      let n = length trades in
      let counted : n % 2 ^ 64 ≡ n = omega (arith, few, f.sized) in
      let traded : ◌≡◌ {A = Option (World × Matcher × ℕ)} (some (w, m, n % 2 ^ 64))
          (some (w, m, n)) =
        ap (λ i. some (w, m, i)) counted in
      let same = sym (concluded-world w m n s') in
      let (later, told, short) = conclude-lines host w m n (start_timer host s') (timed host s') in
      record {
        program = conclude host (matched host w m n (start_timer host s') (timed host s'));
        trades = trades;
        result = main-some fuel s' _ n displayed (match_all-some fuel n s' w m (e ∙ traded));
        opened_valid = f.valid;
        placed = f.placed;
        only = f.bounded;
        matching =
            subst (λ x. Matching (market_of (world_of s)) trades (market_of x)) same matching;
        settled = subst (λ x. IsSettled (market_of x)) same settled;
        few = omega (arith, few, f.sized);
        slots = concluded-next w m n s' ∙ next;
        earlier = s'.lines;
        later = later;
        told =
            told
            ∙ ap (λ l. s'.lines ++ map (trade_line host) l ++ later)
                (logged ∙ ap (λ l. l ++ trades) (opened-logged host));
        short = omega (arith, short, short_shown host spread);
      }
