-- ===== src/Program/Lines.antt =====
-- The lines that a run of `main` logs.
use mathlib.Core.List.{append_assoc}
use trading_matcher.Timestamp.Timers.{LatencyTimerRdtsc}
use trading_matcher.Base.{
  ℕ, ◌+◌, ◌≤◌, ◌≡◌, refl, sym, ◌∙◌, ap, pos, inl, inr, true, List, [], ◌∷◌, ◌++◌, map, length,
  length-append, Bool-cases, codes, arith,
}
use trading_matcher.OrderBook.{World}
use trading_matcher.Matcher.{Matcher}
use trading_matcher.LinuxOptimizations.{Kernel, SysCall, initialize_hft_optimizations}
use trading_matcher.Console.{Host, Line, info, trade_line, best_lines, last_trade_lines}
use trading_matcher.Program.{
  Program, launched, set_up, add_orders, shown, matched, conclude, place_order, new_order, optimize,
}
use trading_matcher.Program.Opening.{opened}

length-snoc3 :
    (xs : List Line) (a b c : Line) → length (xs ++ a ∷ [] ++ b ∷ [] ++ c ∷ []) ≡ length xs + 3
length-snoc3 [] a b c = refl
length-snoc3 (x ∷ xs) a b c = omega (arith, length-snoc3 xs a b c)

regroup : (e t x a : List Line) → (e ++ (t ++ x)) ++ a ≡ e ++ t ++ (x ++ a)
regroup e t x a = ap (λ l. l ++ a) (sym (append_assoc e t x)) ∙ append_assoc (e ++ t) x a

module _ (host : Host) where
  open host use {doubles}

  short_tuning : (k : Kernel) (calls : List SysCall) → length (optimize host k calls).0 ≤ 3
  short_tuning k calls =
      elim (Bool-cases (initialize_hft_optimizations (pos 0) (pos 50) true k calls).0) [
        | inl e ↦ rw e (omega arith)
        | inr e ↦ rw e (omega arith)
      ]

  -- Lines up to the count of the CPUs, up to the three orders, and up to the matching.
  short_setup : length (set_up host (launched host)).lines ≤ 8
  unfolding set_up
  short_setup = omega (
    arith,
    short_tuning host.kernel [],
    length-append (optimize host host.kernel []).0 (info (codes "Adding sample orders...") ∷ []),
  )

  short_opened : length (opened host).lines ≤ 11
  unfolding opened add_orders place_order new_order
  short_opened =
      let grown : length (opened host).lines ≡ length (set_up host (launched host)).lines + 3 =
        length-snoc3 (set_up host (launched host)).lines _ _ _ in
      omega (arith, short_setup, grown)

  pub short_shown : (spread : Line) → length (shown host spread (opened host)).lines ≤ 16
  unfolding best_lines
  short_shown spread = omega (arith, short_opened, length-append (opened host).lines _)

  short_last : (trades : ℕ) (m : Matcher) → length (last_trade_lines host trades m) ≤ 1
  short_last trades m = ground arith

  -- What follows the lines of the trades.
  pub conclude-lines :
      (w : World) (m : Matcher) (n : ℕ) (timer : LatencyTimerRdtsc) (s : Program doubles)
      → (later : List Line) × ((conclude host (matched host w m n timer s)).lines
          ≡ s.lines ++ map (trade_line host) m.logged ++ later)
        × (length later ≤ 6)
  unfolding conclude matched best_lines
  conclude-lines w m n timer s = (
    _,
    regroup s.lines (map (trade_line host) m.logged) _ _,
    omega (arith, short_last n m, length-append (last_trade_lines host n m) _),
  )
