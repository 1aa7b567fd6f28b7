-- ===== src/Team/Stride.antt =====
-- `check_for_linear_stride` of src/shmem_team.c, and the loop of `shmem_internal_team_init` that
-- calls it for each PE that shares memory with the caller.
pub mod Laws
use sandia_shmem.Base.{ℕ, suc, zero, ◌+◌, Bool, not, if◌then◌else◌, true, false, Option, none, some}
use sandia_shmem.Base.Int.{ℤ, pos, negsuc, ◌+ℤ◌, ◌-ℤ◌, ◌%ℤ◌, ltb_ℤ, ◌==ℤ◌}

-- The three variables that the callee sets.
pub record Triple : Type 0 where
  pub start : ℤ
  pub stride : ℤ
  pub size : ℤ

abbrev pub unset : Triple
unset = record { start = negsuc 0; stride = negsuc 0; size = pos 0 }

-- `none` is the return value -1, upon which the caller drops the triple.
unfoldable pub check_for_linear_stride : ℤ → Triple → Option Triple
check_for_linear_stride pe t =
    if ltb_ℤ t.start (pos 0)
    then some (record t { start = pe; size = t.size +ℤ pos 1 })
    else if ltb_ℤ t.stride (pos 0)
    then some (record t { stride = pe -ℤ t.start; size = t.size +ℤ pos 1 })
    else if not ((pe -ℤ t.start) %ℤ t.stride ==ℤ pos 0)
    then none
    else some (record t { size = t.size +ℤ pos 1 })

-- The loop over the PEs `pe`, `pe + 1`, …, `left` of them, of which those that `shared` holds are
-- inserted. `none` is the exit upon an inconsistent stride.
unfoldable pub scan_shared : (ℕ → Bool) → ℕ → ℕ → Triple → Option Triple
scan_shared shared zero pe t = some t
scan_shared shared (suc left) pe t = elim (shared pe) [
  | false ↦ scan_shared shared left (pe + 1) t
  | true ↦ elim (check_for_linear_stride (pos pe) t) [
    | none ↦ none
    | some t' ↦ scan_shared shared left (pe + 1) t'
  ]
]
