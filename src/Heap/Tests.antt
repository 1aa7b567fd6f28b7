-- ===== src/Heap/Tests.antt =====
-- Runs of src/symmetric_heap_c.c.
use sandia_shmem.Base.{ℕ, ◌≡◌, refl, List, [], ◌∷◌, none, some, arith, map}
use sandia_shmem.Base.Int.{pos, ◌+ℤ◌, ◌-ℤ◌}
use sandia_shmem.Heap.{Heap, get_next}
use sandia_shmem.Heap.Laws.{Laid, results, results-Laid}

-- A hundred bytes from address 4096 on.
abbrev fresh : Heap
fresh = record { base = 4096; length = 100; curr = 4096 }

abbrev requests : List ℕ
requests = 60 ∷ 50 ∷ 40 ∷ []

results_run : results fresh (map pos requests) ≡ some 4096 ∷ none ∷ some 4156 ∷ []
unfolding results get_next ◌+ℤ◌ ◌-ℤ◌
results_run = refl

results-Laid_example : Laid 4096 4196 requests (results fresh (map pos requests))
results-Laid_example =
    results-Laid requests fresh (record { above = omega arith; within = omega arith })
