-- ===== src/ActiveSet.antt =====
-- Active sets: the PEs <PE_start, PE_stride, PE_size>, that is PE_start + i * PE_stride for i below
-- PE_size. `shmem_internal_pe_in_active_set` of src/shmem_internal.h and `shmem_internal_team_pe` of
-- src/shmem_team.h. A C `int` is an exact integer: signed overflow, undefined in C, is not modelled.
pub mod Laws
mod Tests
use sandia_shmem.Base.{ℕ, Bool, ◌||◌, not, if◌then◌else◌}
use sandia_shmem.Base.Int.{ℤ, pos, negsuc, ◌+ℤ◌, ◌-ℤ◌, ◌*ℤ◌, ◌/ℤ◌, ◌%ℤ◌, ltb_ℤ, ◌==ℤ◌}

-- the C value -1
abbrev pub minus_one : ℤ
minus_one = negsuc 0

unfoldable pub pe_in_active_set : ℤ → ℤ → ℤ → ℤ → ℤ
pe_in_active_set global_pe pe_start pe_stride pe_size =
    let n = (global_pe -ℤ pe_start) /ℤ pe_stride in
    if ltb_ℤ global_pe pe_start
      || not ((global_pe -ℤ pe_start) %ℤ pe_stride ==ℤ pos 0)
      || not (ltb_ℤ n pe_size)
    then minus_one
    else n

-- `team->start + team->stride * pe`
unfoldable pub team_pe : ℤ → ℤ → ℤ → ℤ
team_pe start stride pe = start +ℤ stride *ℤ pe
