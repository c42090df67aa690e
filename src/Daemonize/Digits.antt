-- ===== src/Daemonize/Digits.antt =====
-- How many digits a number has, and which numbers fit into the array of `daemonize`.
use deamon.Common.{
  ℕ, zero, suc, ◌+◌, ◌*◌, ◌/◌, ◌%◌, ◌^◌, ◌≤◌, ◌<◌, ◌≡◌, inl, inr, [], ◌∷◌, ◌++◌, length,
  length-append, arith, ltb, lt→ltb, le→ltb, Bool-cases,
}
use deamon.Common.Outcome.{ok, fault, out_of_bounds}
use deamon.Daemonize.{decimal, pid_text, newline, str_size}

-- A power of ten.
abbrev pub ten_to : ℕ → ℕ
ten_to zero = 1
ten_to (suc k) = 10 * ten_to k

ten_to_pos : (k : ℕ) → 0 < ten_to k
ten_to_pos zero = omega arith
ten_to_pos (suc k) = omega (arith, ten_to_pos k)

-- One digit more.
one_more :
    (fuel n : ℕ)
    → length (decimal fuel (n / 10) ++ ((n % 10 + 48) ∷ [])) ≡ length (decimal fuel (n / 10)) + 1
one_more fuel n = length-append (decimal fuel (n / 10)) ((n % 10 + 48) ∷ [])

-- A number below a power of ten has no more digits than that.
length-decimal-le : (fuel k n : ℕ) → n < ten_to (suc k) → length (decimal fuel n) ≤ suc k
unfolding decimal
length-decimal-le zero k n h = omega arith
length-decimal-le (suc fuel) zero n h = rw (lt→ltb n 10 (omega (arith, h))) (omega arith)
length-decimal-le (suc fuel) (suc k) n h =
    let fewer = length-decimal-le fuel k (n / 10) (omega (arith, h)) in
    elim (Bool-cases (ltb n 10)) [
      | inl small ↦ rw small (omega arith)
      | inr large ↦ rw large (omega (arith, one_more fuel n, fewer))
    ]

-- A number from a power of ten on has more, with enough fuel.
length-decimal-ge : (fuel k n : ℕ) → k < fuel → ten_to k ≤ n → suc k ≤ length (decimal fuel n)
unfolding decimal
length-decimal-ge zero k n e h = absurd (omega (arith, e))
length-decimal-ge (suc fuel) zero n e h = elim (Bool-cases (ltb n 10)) [
  | inl small ↦ rw small (omega arith)
  | inr large ↦ rw large (omega (arith, one_more fuel n))
]
length-decimal-ge (suc fuel) (suc k) n e h =
    let more = length-decimal-ge fuel k (n / 10) (omega (arith, e)) (omega (arith, h)) in
    rw (le→ltb n 10 (omega (arith, h, ten_to_pos k))) (omega (arith, one_more fuel n, more))

-- The text of a process number below 10 ^ 8 fits into the array of `daemonize`; a longer one does not.
pub pid_text-fits : (pid : ℕ) → pid < 10 ^ 8 → pid_text pid ≡ ok (decimal 10 pid ++ (newline ∷ []))
unfolding pid_text
pid_text-fits pid h = rw (
  pid_text,
  lt→ltb (length (decimal 10 pid ++ (newline ∷ []))) str_size (
      omega (
        arith,
        length-append (decimal 10 pid) (newline ∷ []),
        length-decimal-le 10 7 pid (omega (arith, h)),
      )),
)

pub pid_text_long : (pid : ℕ) → 10 ^ 8 ≤ pid → pid_text pid ≡ fault out_of_bounds
unfolding pid_text
pid_text_long pid h = rw (
  pid_text,
  le→ltb (length (decimal 10 pid ++ (newline ∷ []))) str_size (
      omega (
        arith,
        length-append (decimal 10 pid) (newline ∷ []),
        length-decimal-ge 10 8 pid (omega arith) (omega (arith, h)),
      )),
)
