-- ===== src/SpscQueue/Mask.antt =====
-- `(i + 1) & (Size - 1)` goes round at `Size`, for every power of two.
use Prim.Native.Nat.{min, bit_and, digits, bit_and-bitwise}
use native.Mathlib.Nat.{
  pow-suc, div-add-mod, mod-lt, zero-mod, mul_comm, mod_self, mod-eq_of_lt, mul-add-mod_self_left,
}
use trading_matcher.Base.{
  ℕ, zero, suc, ◌+◌, ◌-◌, ◌*◌, ◌/◌, ◌%◌, ◌^◌, ◌≤◌, ◌<◌, ◌≡◌, sym, ap, ◌∙◌, ◌==◌, if◌then◌else◌,
  arith,
}
use trading_matcher.SpscQueue.{next_index}

-- A quotient and a remainder determine the remainder.
mod_of_parts : (n q r : ℕ) → r < n → (n * q + r) % n ≡ r
mod_of_parts n q r h = grind (arith, mul-add-mod_self_left n q r)

pow_pos : (k : ℕ) → 0 < 2 ^ k
pow_pos zero = omega arith
pow_pos (suc k) = omega (arith, pow-suc 2 k, pow_pos k)

-- The remainder by `2 * m` from that of the half by `m`.
mod_double : (a m : ℕ) → 0 < m → a % (2 * m) ≡ (a / 2) % m * 2 + a % 2
mod_double a m h =
    let q = a / 2 / m in
    let r = a / 2 % m in
    let small : r < m = mod-lt (a / 2) h in
    let whole : a ≡ 2 * m * q + (r * 2 + a % 2) = grind (arith, div-add-mod (a / 2) m) in
    ap (λ x. x % (2 * m)) whole ∙ mod_of_parts (2 * m) q (r * 2 + a % 2) (omega arith)

-- Reading `a & (2 ^ k - 1)` digit by digit.
mask_digits : (n k a : ℕ) → a ≤ n → digits (λ b. zero) min n a (2 ^ k - 1) ≡ a % 2 ^ k
mask_digits zero k zero h = sym (zero-mod (2 ^ k))
mask_digits zero k (suc a) h = absurd (omega arith)
mask_digits (suc n) k zero h = sym (zero-mod (2 ^ k))
mask_digits (suc n) zero (suc a) h = omega (arith, mask_digits n zero (suc a / 2) (omega arith))
mask_digits (suc n) (suc k) (suc a) h =
    let half : (2 ^ suc k - 1) / 2 ≡ 2 ^ k - 1 = omega (arith, pow-suc 2 k, pow_pos k) in
    let odd : (2 ^ suc k - 1) % 2 ≡ 1 = omega (arith, pow-suc 2 k, pow_pos k) in
    rw (half, odd, mask_digits n k (suc a / 2) (omega arith))
      (omega (
        arith,
        mod_double (suc a) (2 ^ k) (pow_pos k),
        ap (λ m. suc a % m) (pow-suc 2 k ∙ mul_comm (2 ^ k) 2),
      ))

-- A mask of ones takes the remainder.
bit_and-mask : (k a : ℕ) → bit_and a (2 ^ k - 1) ≡ a % 2 ^ k
bit_and-mask k a = bit_and-bitwise a (2 ^ k - 1) ∙ mask_digits a k a (omega arith)

-- The index after `i`, going round at the size.
abbrev pub step_index : ℕ → ℕ → ℕ
step_index size i = if i + 1 == size then 0 else i + 1

pub next_index_lem :
    (size k i : ℕ) → size ≡ 2 ^ k → i < size → next_index size i ≡ step_index size i
unfolding next_index
next_index_lem size k i e h = rw e (
    bit_and-mask k (i + 1)
    ∙ ground (arith, e, mod_self (2 ^ k), mod-eq_of_lt {n = i + 1} {m = 2 ^ k}))
