-- ===== src/Prelude/Digits.antt =====
-- The bit operations at variables: `bit_or` of numbers without a common digit is their sum, and
-- `bit_and` with a mask of ones keeps a number that fits it.
use Prim.Native.Nat.{
  ℕ, zero, suc, ◌+◌, ◌-◌, ◌*◌, ◌/◌, ◌%◌, ◌^◌, ◌≤◌, ◌<◌, max, min, bit_and, bit_or, digits,
  bit_and-bitwise, bit_or-bitwise,
}
use mathlib.Core.Path.{◌≡◌, refl, sym}
use native.Mathlib.Nat.{mul_assoc}
use native.Mathlib.Omega.{arith}

-- More rounds than the first number has digits make no difference.
module _ (rest : ℕ → ℕ) (digit : ℕ → ℕ → ℕ) where
  rounds_enough : (n m a b : ℕ) → a ≤ n → a ≤ m → digits rest digit n a b ≡ digits rest digit m a b
  rounds_enough zero zero a b h l = refl
  rounds_enough zero (suc m) zero b h l = refl
  rounds_enough zero (suc m) (suc a) b h l = absurd (omega arith)
  rounds_enough (suc n) zero zero b h l = refl
  rounds_enough (suc n) zero (suc a) b h l = absurd (omega arith)
  rounds_enough (suc n) (suc m) zero b h l = refl
  rounds_enough (suc n) (suc m) (suc a) b h l =
      omega (arith, rounds_enough n m (suc a / 2) (b / 2) (omega arith) (omega arith))

bit_or_first : (a b : ℕ) → bit_or a b ≡ bit_or (a / 2) (b / 2) * 2 + max (a % 2) (b % 2)
bit_or_first zero b = omega (arith, bit_or-bitwise 0 b, bit_or-bitwise 0 (b / 2))
bit_or_first (suc a) b = omega (
  arith,
  bit_or-bitwise (suc a) b,
  bit_or-bitwise (suc a / 2) (b / 2),
  rounds_enough (λ x. x) max a (suc a / 2) (suc a / 2) (b / 2) (omega arith) (omega arith),
)

bit_and_first : (a b : ℕ) → bit_and a b ≡ bit_and (a / 2) (b / 2) * 2 + min (a % 2) (b % 2)
bit_and_first zero b = omega (arith, bit_and-bitwise 0 b, bit_and-bitwise 0 (b / 2))
bit_and_first (suc a) b = omega (
  arith,
  bit_and-bitwise (suc a) b,
  bit_and-bitwise (suc a / 2) (b / 2),
  rounds_enough (λ x. 0) min a (suc a / 2) (suc a / 2) (b / 2) (omega arith) (omega arith),
)

bit_or-zero : (n a : ℕ) → a ≤ n → bit_or a 0 ≡ a
bit_or-zero n zero h = refl
bit_or-zero zero (suc a) h = absurd (omega arith)
bit_or-zero (suc n) (suc a) h =
    omega (arith, bit_or_first (suc a) 0, bit_or-zero n (suc a / 2) (omega arith))

-- The digits of the second number stand below those of the first.
pub bit_or_sum : (w a b : ℕ) → b < 2 ^ w → bit_or (a * 2 ^ w) b ≡ a * 2 ^ w + b
bit_or_sum zero a b h =
    let none : b ≡ 0 = omega arith in
    let same : a * 2 ^ 0 ≡ a = omega arith in
    rw (none, same) (omega (arith, bit_or-zero a a (omega arith)))
bit_or_sum (suc w) a b h =
    let q = a * 2 ^ w in
    let double : a * 2 ^ suc w ≡ q * 2 =
      let e : 2 ^ suc w ≡ 2 ^ w * 2 = omega arith in rw e (sym (mul_assoc a (2 ^ w) 2)) in
    let half : q * 2 / 2 ≡ q = omega arith in
    rw double
      (omega (arith, rw half at (bit_or_first (q * 2) b), bit_or_sum w a (b / 2) (omega arith)))

-- The number fits the mask.
pub bit_and_mask : (w x : ℕ) → x < 2 ^ w → bit_and (2 ^ w - 1) x ≡ x
bit_and_mask zero x h = let none : x ≡ 0 = omega arith in rw none refl
bit_and_mask (suc w) x h =
    let half : (2 ^ suc w - 1) / 2 ≡ 2 ^ w - 1 = omega arith in
    omega
      (arith, rw half at (bit_and_first (2 ^ suc w - 1) x), bit_and_mask w (x / 2) (omega arith))
