-- ===== src/Base/Byte.antt =====
-- One byte of a C array of `unsigned char`, and the masks `1 << k` at a bit `k` of it. The laws are
-- checked at every byte and every pair of bits.
use Prim.Native.Nat.{bit_and, bit_or}
use sandia_shmem.Base.{
  ℕ, zero, suc, ◌-◌, ◌/◌, ◌%◌, ◌^◌, ◌<◌, ◌≡◌, refl, Bool, true, ◌&&◌, arith, ◌==◌, ==_iff,
  if◌then◌else◌,
}

abbrev pub char_bit : ℕ
char_bit = 8

-- x | (1 << k), stored in an `unsigned char`
unfoldable pub or_bit : ℕ → ℕ → ℕ
or_bit x k = bit_or x (2 ^ k) % 256

-- x & ~(1 << k), computed in a 32-bit `int` and stored in an `unsigned char`
unfoldable pub and_not_bit : ℕ → ℕ → ℕ
and_not_bit x k = bit_and x (2 ^ 32 - 1 - 2 ^ k) % 256

-- (x >> k) & 1
unfoldable pub test_bit : ℕ → ℕ → ℕ
test_bit x k = bit_and (x / 2 ^ k) 1

-- Whether the test passes at 0, …, n - 1.
unfoldable pub every : (ℕ → Bool) → ℕ → Bool
every test zero = true
every test (suc n) = every test n && test n

pub every-at : (test : ℕ → Bool) (n : ℕ) → every test n ≡ true → (x : ℕ) → x < n → test x ≡ true
unfolding every
every-at test zero passed x inside = absurd (omega arith)
every-at test (suc n) passed x inside = grind (arith, every-at test n)

-- A test of a byte and two bits that holds of them all.
unfoldable pub all_bits : (ℕ → ℕ → ℕ → Bool) → Bool
unfolding every
all_bits p = every (λ x. every (λ i. every (p x i) 8) 8) 256

pub all_bits_sound :
    (p : ℕ → ℕ → ℕ → Bool) (x i j : ℕ)
    → all_bits p ≡ true
    → x < 256
    → i < 8
    → j < 8
    → p x i j ≡ true
unfolding all_bits
all_bits_sound p x i j passed hx hi hj =
    every-at (p x i) 8
      (every-at (λ i. every (p x i) 8) 8
        (every-at (λ x. every (λ i. every (p x i) 8) 8) 256 passed x hx) i hi)
      j hj

abbrev or_law : ℕ → ℕ → ℕ → Bool
or_law x i j = test_bit (or_bit x i) j == (if i == j then 1 else test_bit x j)

or_table : all_bits or_law ≡ true
unfolding all_bits test_bit or_bit
or_table = refl

pub test_bit-or_bit :
    (x i j : ℕ)
    → x < 256
    → i < 8
    → j < 8
    → test_bit (or_bit x i) j ≡ (if i == j then 1 else test_bit x j)
test_bit-or_bit x i j hx hi hj = (==_iff _ _).0 (all_bits_sound or_law x i j or_table hx hi hj)

abbrev and_not_law : ℕ → ℕ → ℕ → Bool
and_not_law x i j = test_bit (and_not_bit x i) j == (if i == j then 0 else test_bit x j)

and_not_table : all_bits and_not_law ≡ true
unfolding all_bits test_bit and_not_bit
and_not_table = refl

pub test_bit-and_not_bit :
    (x i j : ℕ)
    → x < 256
    → i < 8
    → j < 8
    → test_bit (and_not_bit x i) j ≡ (if i == j then 0 else test_bit x j)
test_bit-and_not_bit x i j hx hi hj =
    (==_iff _ _).0 (all_bits_sound and_not_law x i j and_not_table hx hi hj)

pub or_bit-lt : (x k : ℕ) → or_bit x k < 256
unfolding or_bit
or_bit-lt x k = omega arith

pub and_not_bit-lt : (x k : ℕ) → and_not_bit x k < 256
unfolding and_not_bit
and_not_bit-lt x k = omega arith
