-- ===== src/BitSet/Tests.antt =====
-- Runs of the bit sets of src/shmem_internal.h.
use sandia_shmem.Base.{ℕ, ◌≡◌, ◌⊎◌, refl, List, [], ◌∷◌, arith}
use sandia_shmem.BitSet.{bit_1st_nonzero, not_found}
use sandia_shmem.BitSet.First.{IsEmpty, IsFirst, bit_1st_nonzero_lem}

-- The bits 10 and 13.
abbrev two_bits : List ℕ
two_bits = 0 ∷ 36 ∷ []

first_runs : bit_1st_nonzero two_bits ≡ 10
unfolding bit_1st_nonzero
first_runs = refl

bit_1st_nonzero_lem_example :
    ((bit_1st_nonzero two_bits ≡ not_found) × IsEmpty two_bits)
    ⊎ IsFirst two_bits (bit_1st_nonzero two_bits)
bit_1st_nonzero_lem_example = bit_1st_nonzero_lem two_bits (omega arith)
