-- ===== src/Timestamp/Halves.antt =====
-- The two halves of the counter do not overlap.
use Prim.Native.Nat.{bit_or, bit_or-bitwise, digits, max}
use trading_matcher.Base.{
  ℕ, zero, suc, ◌+◌, ◌*◌, ◌/◌, ◌%◌, ◌^◌, ◌≤◌, ◌<◌, ◌≡◌, refl, arith, ap, ◌∙◌,
}
use trading_matcher.Timestamp.Counters.{Registers, joined}

abbrev either : ℕ → ℕ → ℕ → ℕ
either a b rounds = digits (λ rest. rest) max rounds a b

-- With rounds for all digits of the first number, their count does not matter.
either-enough : (a b i j : ℕ) → a ≤ i → a ≤ j → either a b i ≡ either a b j
either-enough zero b zero zero enough enough' = refl
either-enough zero b zero (suc j) enough enough' = refl
either-enough zero b (suc i) zero enough enough' = refl
either-enough zero b (suc i) (suc j) enough enough' = refl
either-enough (suc a) b zero j enough enough' = absurd (omega arith)
either-enough (suc a) b (suc i) zero enough enough' = absurd (omega arith)
either-enough (suc a) b (suc i) (suc j) enough enough' =
    let half : suc a / 2 ≤ a = omega arith in
    omega (arith, either-enough (suc a / 2) (b / 2) i j (omega (arith, half)) (omega (arith, half)))

zero-bit_or : (b : ℕ) → bit_or 0 b ≡ b
zero-bit_or b = bit_or-bitwise 0 b

-- The lowest digit of the result, and the others.
bit_or-halves : (a b : ℕ) → bit_or a b ≡ bit_or (a / 2) (b / 2) * 2 + max (a % 2) (b % 2)
bit_or-halves zero b = omega (arith, zero-bit_or (b / 2), zero-bit_or b)
bit_or-halves (suc a) b =
    let half : suc a / 2 ≤ a = omega arith in
    let others = either-enough (suc a / 2) (b / 2) a (suc a / 2) half (omega arith) in
    omega (arith, others, bit_or-bitwise (suc a / 2) (b / 2), bit_or-bitwise (suc a) b)

bit_or-zero : (a top : ℕ) → a ≤ top → bit_or a 0 ≡ a
bit_or-zero zero top h = zero-bit_or 0
bit_or-zero (suc a) zero h = absurd (omega arith)
bit_or-zero (suc a) (suc top) h =
    omega (arith, bit_or-zero (suc a / 2) top (omega arith), bit_or-halves (suc a) 0)

pow_twice : (a k : ℕ) → a * 2 ^ suc k ≡ a * 2 ^ k * 2
pow_twice a k = grind arith

-- Digits above the lowest `k`, and digits below them.
bit_or-above : (k a b : ℕ) → b < 2 ^ k → bit_or (a * 2 ^ k) b ≡ a * 2 ^ k + b
bit_or-above zero a b h =
    let low : b ≡ 0 = omega (arith, h) in
    let same : a * 2 ^ 0 ≡ a = omega arith in
    rw (low, same) (omega (arith, bit_or-zero a a (omega arith)))
bit_or-above (suc k) a b h =
    let twice : a * 2 ^ suc k ≡ a * 2 ^ k * 2 = pow_twice a k in
    let small : b < 2 ^ k * 2 = omega (arith, h, pow_twice 1 k) in
    let half : a * 2 ^ suc k / 2 ≡ a * 2 ^ k = omega (arith, twice) in
    let rest = bit_or-above k a (b / 2) (omega (arith, small)) in
    let first : bit_or (a * 2 ^ suc k / 2) (b / 2) ≡ a * 2 ^ k + b / 2 =
      ap (λ x. bit_or x (b / 2)) half ∙ rest in
    let even : max (a * 2 ^ suc k % 2) (b % 2) ≡ b % 2 = ground (arith, twice) in
    omega (arith, bit_or-halves (a * 2 ^ suc k) b, first, even, twice)

-- With registers of 32 bits, as the instruction has them, the reading is `hi` above `lo`, a number of
-- 64 bits.
pub joined-halves :
    (r : Registers)
    → r.lo < 2 ^ 32
    → r.hi < 2 ^ 32
    → (joined r ≡ r.hi * 2 ^ 32 + r.lo) × (joined r < 2 ^ 64)
unfolding joined
joined-halves r l h =
    let whole : r.hi * 2 ^ 32 % 2 ^ 64 ≡ r.hi * 2 ^ 32 = omega (arith, h) in
    let value = ap (λ x. bit_or x r.lo) whole ∙ bit_or-above 32 r.hi r.lo l in
    (value, omega (arith, value, l, h))
