-- ===== src/ActiveSet/Tests.antt =====
-- Runs of the active sets of src/shmem_internal.h.
use sandia_shmem.Base.{◌+◌, ◌*◌, ◌<◌, ◌≡◌, ◌↔◌, refl, arith}
use sandia_shmem.Base.Int.{pos, ◌-ℤ◌, ◌/ℤ◌, ◌%ℤ◌}
use sandia_shmem.ActiveSet.{pe_in_active_set}
use sandia_shmem.ActiveSet.Laws.{pe_in_active_set_iff}

index_runs : pe_in_active_set (pos 7) (pos 1) (pos 2) (pos 4) ≡ pos 3
unfolding pe_in_active_set ◌-ℤ◌ ◌/ℤ◌ ◌%ℤ◌
index_runs = refl

pe_in_active_set_iff_example :
    (pe_in_active_set (pos 7) (pos 1) (pos 2) (pos 4) ≡ pos 3) ↔ ((7 ≡ 1 + 2 * 3) × (3 < 4))
pe_in_active_set_iff_example = pe_in_active_set_iff 7 1 2 4 3 (omega arith)
