-- ===== src/BitSet/Laws.antt =====
-- The bit sets of src/shmem_internal.h as sets of indices: what each write does to each bit.
use sandia_shmem.Base.{
  ℕ, zero, suc, ◌*◌, ◌/◌, ◌%◌, ◌<◌, ◌≤◌, ◌≡◌, List, [], ◌∷◌, arith, length, get_or, replicate, refl,
  set, length-set, ◌==◌, if◌then◌else◌,
}
use sandia_shmem.Base.Byte.{
  or_bit, and_not_bit, test_bit-or_bit, test_bit-and_not_bit, or_bit-lt, and_not_bit-lt,
}
use sandia_shmem.Base.And.{test_bit-le_one, test_bit-zero}
use sandia_shmem.BitSet.{bit_set, bit_clear, bit_fetch}

-- Every entry is an `unsigned char`.
abbrev pub IsBytes : List ℕ → Type 0
IsBytes [] = Unit
IsBytes (b ∷ ptr) = (b < 256) × IsBytes ptr

pub get_or-IsBytes : (ptr : List ℕ) (i : ℕ) → IsBytes ptr → get_or ptr i 0 < 256
get_or-IsBytes [] i v = omega arith
get_or-IsBytes (b ∷ ptr) zero v = v.0
get_or-IsBytes (b ∷ ptr) (suc i) v = get_or-IsBytes ptr i v.1

pub set-IsBytes : (ptr : List ℕ) (i b : ℕ) → b < 256 → IsBytes ptr → IsBytes (set ptr i b)
set-IsBytes [] i b h v = tt
set-IsBytes (c ∷ ptr) zero b h v = (h, v.1)
set-IsBytes (c ∷ ptr) (suc i) b h v = (v.0, set-IsBytes ptr i b h v.1)

get_or-set :
    (xs : List ℕ) (i j v : ℕ)
    → i < length xs
    → get_or (set xs i v) j 0 ≡ (if i == j then v else get_or xs j 0)
get_or-set [] i j v h = absurd (omega arith)
get_or-set (x ∷ xs) zero zero v h = ground arith
get_or-set (x ∷ xs) zero (suc j) v h = ground arith
get_or-set (x ∷ xs) (suc i) zero v h = ground arith
get_or-set (x ∷ xs) (suc i) (suc j) v h = ground (arith, get_or-set xs i j v (omega arith))

pub bit_set-IsBytes : (ptr : List ℕ) (i : ℕ) → IsBytes ptr → IsBytes (bit_set ptr i)
unfolding bit_set
bit_set-IsBytes ptr i v = set-IsBytes ptr _ _ (or_bit-lt _ _) v

pub bit_clear-IsBytes : (ptr : List ℕ) (i : ℕ) → IsBytes ptr → IsBytes (bit_clear ptr i)
unfolding bit_clear
bit_clear-IsBytes ptr i v = set-IsBytes ptr _ _ (and_not_bit-lt _ _) v

pub length-bit_set : (ptr : List ℕ) (i : ℕ) → length (bit_set ptr i) ≡ length ptr
unfolding bit_set
length-bit_set ptr i = length-set ptr _ _

pub length-bit_clear : (ptr : List ℕ) (i : ℕ) → length (bit_clear ptr i) ≡ length ptr
unfolding bit_clear
length-bit_clear ptr i = length-set ptr _ _

-- Setting a bit inside an array of bytes makes a fetch of that bit give 1, and leaves the fetch of
-- every other index as it was.
pub bit_fetch-bit_set :
    (ptr : List ℕ) (i j : ℕ)
    → IsBytes ptr
    → i < length ptr * 8
    → bit_fetch (bit_set ptr i) j ≡ (if i == j then 1 else bit_fetch ptr j)
unfolding bit_set bit_fetch
bit_fetch-bit_set ptr i j v h = ground (
  arith,
  get_or-set ptr (i / 8) (j / 8) (or_bit (get_or ptr (i / 8) 0) (i % 8)),
  test_bit-or_bit (get_or ptr (i / 8) 0) (i % 8) (j % 8) (get_or-IsBytes ptr (i / 8) v),
)

-- Clearing a bit inside an array of bytes makes a fetch of that bit give 0, and leaves the fetch of
-- every other index as it was.
pub bit_fetch-bit_clear :
    (ptr : List ℕ) (i j : ℕ)
    → IsBytes ptr
    → i < length ptr * 8
    → bit_fetch (bit_clear ptr i) j ≡ (if i == j then 0 else bit_fetch ptr j)
unfolding bit_clear bit_fetch
bit_fetch-bit_clear ptr i j v h = ground (
  arith,
  get_or-set ptr (i / 8) (j / 8) (and_not_bit (get_or ptr (i / 8) 0) (i % 8)),
  test_bit-and_not_bit (get_or ptr (i / 8) 0) (i % 8) (j % 8) (get_or-IsBytes ptr (i / 8) v),
)

pub bit_fetch-le_one : (ptr : List ℕ) (j : ℕ) → IsBytes ptr → bit_fetch ptr j ≤ 1
unfolding bit_fetch
bit_fetch-le_one ptr j v = test_bit-le_one _ (j % 8) (get_or-IsBytes ptr (j / 8) v) (omega arith)

get_or-zeros : (n i : ℕ) → get_or {A = ℕ} (replicate n 0) i 0 ≡ 0
get_or-zeros zero i = refl
get_or-zeros (suc n) zero = refl
get_or-zeros (suc n) (suc i) = get_or-zeros n i

-- Zeroed bytes are the empty set.
pub bit_fetch-zeros : (n j : ℕ) → bit_fetch (replicate n 0) j ≡ 0
unfolding bit_fetch
bit_fetch-zeros n j = rw (get_or-zeros n (j / 8)) (test_bit-zero (j % 8) (omega arith))
