-- ===== src/BitSet.antt =====
-- The bit sets of src/shmem_internal.h: an array of `unsigned char` as a list of numbers below 256,
-- and `shmem_internal_bit_set`, `_clear`, `_fetch` and `_1st_nonzero` on it. An index beyond the
-- array is undefined in C: here such a read gives 0, and such a write changes nothing.
pub mod Laws
pub mod First
mod Tests
use sandia_shmem.Base.{
  ℕ, zero, suc, ◌+◌, ◌-◌, ◌*◌, ◌/◌, ◌%◌, ◌^◌, List, [], ◌∷◌, get_or, set, ◌==◌, if◌then◌else◌,
}
use sandia_shmem.Base.Byte.{char_bit, or_bit, and_not_bit, test_bit}

unfoldable pub bit_set : List ℕ → ℕ → List ℕ
bit_set ptr index =
    let which_byte = index / char_bit in
    set ptr which_byte (or_bit (get_or ptr which_byte 0) (index % char_bit))

unfoldable pub bit_clear : List ℕ → ℕ → List ℕ
bit_clear ptr index =
    let which_byte = index / char_bit in
    set ptr which_byte (and_not_bit (get_or ptr which_byte 0) (index % char_bit))

unfoldable pub bit_fetch : List ℕ → ℕ → ℕ
bit_fetch ptr index = test_bit (get_or ptr (index / char_bit) 0) (index % char_bit)

-- `(size_t) -1`
abbrev pub not_found : ℕ
not_found = 2 ^ 64 - 1

-- The inner loop from bit `j`, with `left` rounds of `j < CHAR_BIT` to go: the bit found, if any.
-- `bit_val & 1` is the parity of `bit_val`.
first_bit : ℕ → ℕ → ℕ → ℕ → ℕ
first_bit zero j bit_val miss = miss
first_bit (suc left) j bit_val miss =
    let rest = first_bit left (j + 1) (bit_val / 2) miss in
    if bit_val == 0 then miss else if bit_val % 2 == 1 then j else rest

-- The outer loop from byte `i` on. `first_bit` is at most 8 - 1, so 8 is a miss.
first_from : List ℕ → ℕ → ℕ
first_from [] i = not_found
first_from (b ∷ ptr) i =
    let rest = first_from ptr (i + 1) in
    let j = first_bit char_bit 0 b char_bit in if j == char_bit then rest else i * char_bit + j

unfoldable pub bit_1st_nonzero : List ℕ → ℕ
unfolding first_bit first_from
bit_1st_nonzero ptr = first_from ptr 0
