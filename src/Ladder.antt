-- ===== src/Ladder.antt =====
-- `std::map<Price, V>`, as include/order_matching/OrderBook.hpp uses it: the entries in key order.
pub mod Lookup
pub mod Order
pub mod Weight
use trading_matcher.Base.{ℤ, ltb_ℤ, eqb_ℤ, ◌<ℤ◌, if◌then◌else◌, Option, none, some, List, [], ◌∷◌}

abbrev pub Ladder {ℓ} : Type ℓ → Type ℓ
Ladder V = List (ℤ × V)

module _ {ℓ} {V : Type ℓ} where
  -- `find`, with `none` for `end()`.
  unfoldable pub find : ℤ → Ladder V → Option V
  find k [] = none
  find k ((j, v) ∷ m) = if eqb_ℤ j k then some v else find k m

  -- A write through `m[k]` or through an iterator at key `k`.
  unfoldable pub put : ℤ → V → Ladder V → Ladder V
  put k v [] = (k, v) ∷ []
  put k v ((j, w) ∷ m) =
      if ltb_ℤ k j
      then (k, v) ∷ (j, w) ∷ m
      else (if eqb_ℤ j k then (k, v) ∷ m else (j, w) ∷ put k v m)

  unfoldable pub erase : ℤ → Ladder V → Ladder V
  erase k [] = []
  erase k ((j, w) ∷ m) = if eqb_ℤ j k then m else (j, w) ∷ erase k m

  -- `begin()` and `rbegin()`, with `none` for the empty map.
  unfoldable pub first : Ladder V → Option (ℤ × V)
  first [] = none
  first (e ∷ m) = some e

  unfoldable pub last : Ladder V → Option (ℤ × V)
  last [] = none
  last (e ∷ []) = some e
  last (e ∷ d ∷ m) = last (d ∷ m)

  -- The keys rise strictly along the list, from above `k`.
  abbrev pub Above : ℤ → Ladder V → Type 0
  Above k [] = Unit {0}
  Above k ((j, v) ∷ m) = (k <ℤ j) × Above j m

  abbrev pub IsSorted : Ladder V → Type 0
  IsSorted [] = Unit {0}
  IsSorted ((j, v) ∷ m) = Above j m
