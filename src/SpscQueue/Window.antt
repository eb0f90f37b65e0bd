-- ===== src/SpscQueue/Window.antt =====
-- The items between two positions of the ring, oldest first.
use trading_matcher.Base.{
  ℕ, zero, suc, ◌+◌, ◌<◌, ◌≡◌, refl, ap, ◌⊎◌, List, [], ◌∷◌, ◌++◌, arith, length,
}
use trading_matcher.SpscQueue.{write_slot}
use trading_matcher.SpscQueue.Mask.{step_index}

-- The `n` items from index `r` on.
abbrev pub window : {A : Type 0} → ℕ → (ℕ → A) → ℕ → ℕ → List A
window size buffer r zero = []
window size buffer r (suc n) = buffer r ∷ window size buffer (step_index size r) n

-- `w` lies `n` steps after `r`.
abbrev pub Ahead : ℕ → ℕ → ℕ → ℕ → Type 0
Ahead size r n w = (r + n ≡ w) ⊎ (r + n ≡ w + size)

module _ {A : Type 0} (size : ℕ) (buffer : ℕ → A) where
  pub length-window : (r n : ℕ) → length (window size buffer r n) ≡ n
  length-window r zero = refl
  length-window r (suc n) = ap suc (length-window (step_index size r) n)

  -- A write ahead of the items leaves them alone.
  pub window-write_slot :
      (x : A) (n r w : ℕ)
      → r < size
      → w < size
      → n < size
      → Ahead size r n w
      → window size (write_slot buffer w x) r n ≡ window size buffer r n
  window-write_slot x zero r w hr hw hn a = refl
  window-write_slot x (suc n) r w hr hw hn a =
      ground (arith, window-write_slot x n (step_index size r) w)

  -- The item at the position ahead is the last of the longer run.
  pub window-suc :
      (n r w : ℕ)
      → r < size
      → w < size
      → n < size
      → Ahead size r n w
      → window size buffer r (suc n) ≡ window size buffer r n ++ buffer w ∷ []
  window-suc zero r w hr hw hn a = ground arith
  window-suc (suc n) r w hr hw hn a =
      ap (◌∷◌ (buffer r))
        (window-suc n (step_index size r) w (ground arith) hw (omega arith) (ground arith))
