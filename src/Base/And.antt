-- ===== src/Base/And.antt =====
-- The bits of `x & y` on bytes. The native `bit_and` has no law at variables but its digit recursion:
-- the digits of the result are read off one at a time.
use Prim.Native.Nat.{min, bit_and, bit_and-bitwise, digits}
use sandia_shmem.Base.{
  ℕ, zero, suc, ◌/◌, ◌%◌, ◌≤◌, ◌<◌, ◌≡◌, refl, Bool, true, arith, ◌==◌, ==_iff, ◌∙◌,
}
use sandia_shmem.Base.Byte.{test_bit, all_bits, all_bits_sound}

-- Digit `k` of `x`, by `k` halvings.
digit : ℕ → ℕ → ℕ
digit zero x = x % 2
digit (suc k) x = digit k (x / 2)

abbrev digit_law : ℕ → ℕ → ℕ → Bool
digit_law x k _ = test_bit x k == digit k x

digit_table : all_bits digit_law ≡ true
unfolding all_bits test_bit digit
digit_table = refl

test_bit-digit : (x k : ℕ) → x < 256 → k < 8 → test_bit x k ≡ digit k x
test_bit-digit x k h hk =
    (==_iff _ _).0 (all_bits_sound digit_law x k 0 digit_table h hk (omega arith))

-- The recursion behind `bit_and`, with `n` rounds.
abbrev pub and_rounds : ℕ → ℕ → ℕ → ℕ
and_rounds n x y = digits (λ _. zero) min n x y

digit-zero : (k : ℕ) → digit k 0 ≡ 0
unfolding digit
digit-zero zero = refl
digit-zero (suc k) = digit-zero k

and_rounds-nil : (n y : ℕ) → and_rounds n 0 y ≡ 0
and_rounds-nil zero y = refl
and_rounds-nil (suc n) y = refl

digit-and_rounds : (k n x y : ℕ) → x ≤ n → digit k (and_rounds n x y) ≡ min (digit k x) (digit k y)
unfolding digit
digit-and_rounds k n zero y h = rw (and_rounds-nil n y) (omega (arith, digit-zero k))
digit-and_rounds k zero (suc x) y h = absurd (omega arith)
digit-and_rounds zero (suc n) (suc x) y h = omega arith
digit-and_rounds (suc k) (suc n) (suc x) y h =
    let half : and_rounds (suc n) (suc x) y / 2 ≡ and_rounds n (suc x / 2) (y / 2) = omega arith in
    rw half (digit-and_rounds k n (suc x / 2) (y / 2) (omega arith))

digit-bit_and : (k x y : ℕ) → digit k (bit_and x y) ≡ min (digit k x) (digit k y)
digit-bit_and k x y = rw (bit_and-bitwise x y) (digit-and_rounds k x x y (omega arith))

and_rounds-le : (n x y : ℕ) → x ≤ n → and_rounds n x y ≤ x
and_rounds-le n zero y h = omega (arith, and_rounds-nil n y)
and_rounds-le zero (suc x) y h = absurd (omega arith)
and_rounds-le (suc n) (suc x) y h = omega (arith, and_rounds-le n (suc x / 2) (y / 2) (omega arith))

pub bit_and-le : (x y : ℕ) → bit_and x y ≤ x
bit_and-le x y = rw (bit_and-bitwise x y) (and_rounds-le x x y (omega arith))

pub test_bit-bit_and :
    (x y k : ℕ)
    → x < 256
    → y < 256
    → k < 8
    → test_bit (bit_and x y) k ≡ min (test_bit x k) (test_bit y k)
test_bit-bit_and x y k hx hy hk = omega (
  arith,
  test_bit-digit x k hx hk,
  test_bit-digit y k hy hk,
  test_bit-digit (bit_and x y) k (omega (arith, bit_and-le x y)) hk,
  digit-bit_and k x y,
)

digit-le_one : (k x : ℕ) → digit k x ≤ 1
unfolding digit
digit-le_one zero x = omega arith
digit-le_one (suc k) x = digit-le_one k (x / 2)

pub test_bit-le_one : (x k : ℕ) → x < 256 → k < 8 → test_bit x k ≤ 1
test_bit-le_one x k h hk = omega (arith, test_bit-digit x k h hk, digit-le_one k x)

pub test_bit-zero : (k : ℕ) → k < 8 → test_bit 0 k ≡ 0
test_bit-zero k h = test_bit-digit 0 k (omega arith) h ∙ digit-zero k
