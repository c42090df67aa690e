-- ===== src/Common/Int.antt =====
-- Signed integers over the native numbers: the `int` that system calls return.
use deamon.Common.Tests.{ltb, ◌==◌, if◌then◌else◌}
use Prim.Native.Nat.{ℕ, ◌-◌, ◌%◌, ◌^◌}
use mathlib.Core.Bool.{Bool, true, false}
use mathlib.Core.Path.{◌≡◌}

-- `negsuc n` is -(n + 1).
pub data ℤ : Type 0 where
  pos : ℕ → ℤ
  negsuc : ℕ → ℤ

abbrev pub minus_one : ℤ
minus_one = negsuc 0

abbrev pub is_neg : ℤ → Bool
is_neg (pos n) = false
is_neg (negsuc n) = true

abbrev pub eq_ℤ : ℤ → ℤ → Bool
eq_ℤ (pos a) (pos b) = a == b
eq_ℤ (negsuc a) (negsuc b) = a == b
eq_ℤ _ _ = false

-- `(int) n` of a number below 2 ^ 32, and the uint32_t that an int is compared as.
abbrev pub to_int : ℕ → ℤ
to_int n = if ltb n (2 ^ 31) then pos n else negsuc (2 ^ 32 - n - 1)

abbrev pub to_u32 : ℤ → ℕ
to_u32 (pos n) = n % 2 ^ 32
to_u32 (negsuc n) = 2 ^ 32 - 1 - n % 2 ^ 32

-- `a < b` for a number b.
abbrev pub ltb_ℤ : ℤ → ℕ → Bool
ltb_ℤ (pos a) b = ltb a b
ltb_ℤ (negsuc a) b = true

pub pos-ne-minus_one : {n : ℕ} → pos n ≡ minus_one → ⊥
pos-ne-minus_one p = cc
