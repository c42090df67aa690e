-- ===== src/Common/Bits.antt =====
-- `|` on words as arithmetic: the laws of `bit_or` at variables.
use Prim.Native.Nat.{ℕ, zero, suc, ◌+◌, ◌*◌, ◌/◌, ◌%◌, ◌^◌, ◌-◌, ◌≤◌, ◌<◌, max, bit_or, digits}
use Prim.Native.Nat.{bit_or-bitwise}
use mathlib.Core.Path.{◌≡◌, refl, ap, ap₂, ◌∙◌}
use native.Mathlib.Omega.{arith}
use native.Mathlib.Nat.{pow-suc}

-- The digit recursion that the native operation stands for.
abbrev or_digits : ℕ → ℕ → ℕ → ℕ
or_digits n a b = digits (λ b. b) max n a b

or_digits_fuel : (n m a b : ℕ) → a ≤ n → a ≤ m → or_digits n a b ≡ or_digits m a b
or_digits_fuel zero zero a b p q = refl
or_digits_fuel zero (suc m) zero b p q = refl
or_digits_fuel zero (suc m) (suc a) b p q = absurd (omega arith)
or_digits_fuel (suc n) zero zero b p q = refl
or_digits_fuel (suc n) zero (suc a) b p q = absurd (omega arith)
or_digits_fuel (suc n) (suc m) zero b p q = refl
or_digits_fuel (suc n) (suc m) (suc a) b p q =
    omega (arith, or_digits_fuel n m (suc a / 2) (b / 2) (omega arith) (omega arith))

pub zero-bit_or : (b : ℕ) → bit_or 0 b ≡ b
zero-bit_or b = bit_or-bitwise 0 b

bit_or_step : (a b : ℕ) → bit_or a b ≡ bit_or (a / 2) (b / 2) * 2 + max (a % 2) (b % 2)
bit_or_step zero b = omega (arith, zero-bit_or b, zero-bit_or (b / 2))
bit_or_step (suc a) b = omega (
  arith,
  bit_or-bitwise (suc a) b,
  bit_or-bitwise (suc a / 2) (b / 2),
  or_digits_fuel a (suc a / 2) (suc a / 2) (b / 2) (omega arith) (omega arith),
)

bit_or-zero_fuel : (n a : ℕ) → a ≤ n → bit_or a 0 ≡ a
bit_or-zero_fuel n zero h = refl
bit_or-zero_fuel zero (suc a) h = absurd (omega arith)
bit_or-zero_fuel (suc n) (suc a) h =
    omega (arith, bit_or_step (suc a) 0, bit_or-zero_fuel n (suc a / 2) (omega arith))

pub bit_or-zero : (a : ℕ) → bit_or a 0 ≡ a
bit_or-zero a = bit_or-zero_fuel a a (omega arith)

-- A word of k ones absorbs what lies below 2 ^ k.
pub bit_or_ones : (k a : ℕ) → a < 2 ^ k → bit_or a (2 ^ k - 1) ≡ 2 ^ k - 1
bit_or_ones zero a h = omega (arith, bit_or-zero a)
bit_or_ones (suc k) a h = omega (
  arith,
  pow-suc 2 k,
  bit_or_step a (2 ^ suc k - 1),
  half,
  bit_or_ones k (a / 2) (omega (arith, pow-suc 2 k)),
)
  where
    halved : (2 ^ suc k - 1) / 2 ≡ 2 ^ k - 1
    halved = omega (arith, pow-suc 2 k)

    half : bit_or (a / 2) ((2 ^ suc k - 1) / 2) ≡ bit_or (a / 2) (2 ^ k - 1)
    half = rw halved

double_product : (k a : ℕ) → a * 2 ^ suc k ≡ 2 * (a * 2 ^ k)
double_product k a = omega (arith, ap (λ (t : ℕ). a * t) (pow-suc 2 k))

half_split : (k a c : ℕ) → (a * 2 ^ suc k + c) / 2 ≡ a * 2 ^ k + c / 2
half_split k a c = omega (arith, double_product k a)

low_digit : (k a c : ℕ) → (a * 2 ^ suc k + c) % 2 ≡ c % 2
low_digit k a c = omega (arith, double_product k a)

-- The digits above and below position k do not meet.
pub bit_or_split :
    (k a b c d : ℕ)
    → c < 2 ^ k
    → d < 2 ^ k
    → bit_or (a * 2 ^ k + c) (b * 2 ^ k + d) ≡ bit_or a b * 2 ^ k + bit_or c d
bit_or_split zero a b c d hc hd =
    omega (arith, ap₂ bit_or (alone a c (omega arith)) (alone b d (omega arith)), rest)
  where
    alone : (m n : ℕ) → n ≡ 0 → m * 2 ^ 0 + n ≡ m
    alone m n h = omega arith

    none_left : (n : ℕ) → n < 1 → n ≡ 0
    none_left n h = omega arith

    rest : bit_or c d ≡ 0
    rest = ap₂ bit_or (none_left c (omega arith)) (none_left d (omega arith)) ∙ zero-bit_or 0
bit_or_split (suc k) a b c d hc hd = omega (
  arith,
  bit_or_step (a * 2 ^ suc k + c) (b * 2 ^ suc k + d),
  ap₂ bit_or (half_split k a c) (half_split k b d),
  low_digit k a c,
  low_digit k b d,
  bit_or_split k a b (c / 2) (d / 2) (omega (arith, pow-suc 2 k)) (omega (arith, pow-suc 2 k)),
  bit_or_step c d,
  double_product k (bit_or a b),
)

-- A word put together from its two halves.
pub bit_or_halves : (k a d : ℕ) → d < 2 ^ k → bit_or (a * 2 ^ k) d ≡ a * 2 ^ k + d
bit_or_halves k a d h = omega (
  arith,
  ap₂ bit_or (right (a * 2 ^ k)) (left d),
  bit_or_split k a 0 0 d (omega arith) h,
  ap (λ (t : ℕ). t * 2 ^ k) (bit_or-zero a),
  zero-bit_or d,
)
  where
    right : (m : ℕ) → m ≡ m + 0
    right m = omega arith

    left : (m : ℕ) → m ≡ 0 * 2 ^ k + m
    left m = omega arith

-- Where the low half is sign-extended by ones, they cover the high half.
pub bit_or_covered :
    (k a d : ℕ)
    → a < 2 ^ k
    → d < 2 ^ k
    → bit_or (a * 2 ^ k) ((2 ^ k - 1) * 2 ^ k + d) ≡ (2 ^ k - 1) * 2 ^ k + d
bit_or_covered k a d ha h = omega (
  arith,
  ap (λ (t : ℕ). bit_or t ((2 ^ k - 1) * 2 ^ k + d)) (right (a * 2 ^ k)),
  bit_or_split k a (2 ^ k - 1) 0 d (omega arith) h,
  ap (λ (t : ℕ). t * 2 ^ k) (bit_or_ones k a ha),
  zero-bit_or d,
)
  where
    right : (m : ℕ) → m ≡ m + 0
    right m = omega arith
